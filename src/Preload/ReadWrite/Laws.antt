-- ===== src/Preload/ReadWrite/Laws.antt =====
-- The master and the slaves come out of `read` and `write` alike.
use plr.Prelude.{
  ◌+◌, ◌<◌, ℕ, ◌≤◌, ◌≡◌, refl, inl, inr, Bool-cases, true, some, List, [], ◌∷◌, if◌then◌else◌, ℤ,
  pos, negsuc, pos_part, eq_ℤ, ltb_ℤ, ◌≤ℤ◌, arith, ap, ◌∙◌, sym,
}
use mathlib.Core.Bool.{false≢true}
use plr.SharedData.{PlrData}
use plr.SharedData.ExtraShm.{SystemCalls, Area, read_cells, write_cells}
use plr.SharedData.ExtraShm.Laws.{
  Succeed, Mapped, copy_to_shm-writes, copy_from_shm-reads, read_cells-write_cells, read_header,
  read_copied, length-read_cells,
}
use plr.Preload.Wrapper.{Local, Libc, seek_set, seek_cur, Whence, Caller, ◌>>=◌}
use plr.Preload.ReadWrite.{
  shm_data_size, offset_after, follow_master, read_master, read_data, read_slave, write_master,
  write_slave,
}

-- The area as another process sees it: its own record and pointer, the shared record and the cells.
abbrev pub seen_by : Area → Area → Area
seen_by own shared = record own { plr = shared.plr; cells = shared.cells }

-- `lseek` on the file of `fd`, whose offset in a process is `tell`, and on nothing of the program.
pub record SeekLaws {W : Type 0} (libc : Libc W) (fd : ℤ) (tell : W → ℤ) : Type 0 where
  pub keeps_buf :
      (offs : ℤ) (whence : Whence) (l : Local W) → (libc.libc_lseek fd offs whence l).1.buf ≡ l.buf
  pub current : (l : Local W) → (libc.libc_lseek fd (pos 0) seek_cur l).0 ≡ tell l.world
  pub stays : (l : Local W) → tell (libc.libc_lseek fd (pos 0) seek_cur l).1.world ≡ tell l.world
  pub set :
      (offs : ℤ) (l : Local W)
      → pos 0 ≤ℤ offs
      → tell (libc.libc_lseek fd offs seek_set l).1.world ≡ offs
  pub range : (l : Local W) → pos 0 ≤ℤ tell l.world

module _ {W : Type 0} (libc : Libc W) (fd : ℤ) (tell : W → ℤ) (laws : SeekLaws libc fd tell)
    (calls calls' : SystemCalls) (ok : Succeed calls) (ok' : Succeed calls') where
  -- The offset of the master, as a slave takes it over.
  abbrev offset_for : ℤ → (own taken : ℤ) → ℤ
  offset_for ret own taken = if eq_ℤ ret (negsuc 0) then own else taken

  pub offset_after-tell :
      (ret own : ℤ) (l : Local W)
      → (pos 0 ≤ℤ (offset_after libc calls fd ret l).0)
        × (offset_for ret own (offset_after libc calls fd ret l).0
            ≡ offset_for ret own (tell (offset_after libc calls fd ret l).1.world))
  unfolding offset_after
  offset_after-tell ret own l = elim (Bool-cases (eq_ℤ ret (negsuc 0))) [
    | inl e ↦ rw (e, offset_after) (omega arith, refl)
    | inr e ↦
        let at = laws.current l in
        rw (e, offset_after) (rw at (laws.range l), at ∙ sym (laws.stays l))
  ]

  pub follow_master-tell :
      (err ret offs : ℤ) (l : Local W)
      → pos 0 ≤ℤ offs
      → ((follow_master libc calls' fd err ret offs l).buf ≡ l.buf)
        × (tell (follow_master libc calls' fd err ret offs l).world
            ≡ offset_for ret (tell l.world) offs)
  unfolding follow_master
  follow_master-tell err ret offs l h = elim (Bool-cases (eq_ℤ ret (negsuc 0))) [
    | inl e ↦ rw (e, follow_master) (refl, refl)
    | inr e ↦ rw (e, follow_master) (laws.keeps_buf offs seek_set l, laws.set offs l h)
  ]

  -- What the master leaves in the area for the slaves.
  pub record Sent (a : Area) (err ret offs : ℤ) (buf : ℕ → ℤ) (b : Area) : Type 0 where
    header : read_cells shm_data_size 0 b.cells ≡ err ∷ ret ∷ offs ∷ []
    body :
        ltb_ℤ (pos 0) ret ≡ true
        → read_cells (pos_part ret) shm_data_size b.cells ≡ read_cells (pos_part ret) 0 buf
    pub grown : (a.plr).extra_shm_size ≤ (b.plr).extra_shm_size
    room : shm_data_size ≤ (b.plr).extra_shm_size
    body_room : ltb_ℤ (pos 0) ret ≡ true → shm_data_size + pos_part ret ≤ (b.plr).extra_shm_size

  module _ (slave : Caller W) (err ret offs : ℤ) (buf : ℕ → ℤ) (a b : Area)
      (sent : Sent a err ret offs buf b) (mapped : Mapped (seen_by slave.area b))
      (start : pos 0 ≤ℤ offs) where
    open sent use {header, body, room, body_room}

    abbrev waiting : Caller W
    waiting = record slave { area = seen_by slave.area b }

    pub read_slave-Sent :
        (t : Caller W) × (read_slave libc calls' fd waiting ≡ some (ret, t))
        × (t.here.errno ≡ err)
        × (tell t.here.world ≡ offset_for ret (tell slave.here.world) offs)
        × (read_cells (pos_part ret) 0 t.here.buf ≡ read_cells (pos_part ret) 0 buf)
        × (t.area.plr ≡ b.plr)
        × (t.area.cells ≡ b.cells)
        × (l : Local W) × (l.world ≡ slave.here.world)
        × (t.here ≡ follow_master libc calls' fd err ret offs l)
    unfolding read_slave read_data follow_master read_cells
    read_slave-Sent =
        let r = copy_from_shm-reads calls' 3 0 waiting.area room ok' mapped in
        let got = r.1 ∙ ap (λ xs. some (xs, r.0)) header in
        elim (Bool-cases (ltb_ℤ (pos 0) ret)) [
          | inl e ↦
              let size = ap (λ (p : PlrData). p.extra_shm_size) r.4 in
              let q =
                copy_from_shm-reads calls' (pos_part ret) 3 r.0 (omega (arith, body_room e, size))
                  ok' r.2 in
              let content = read_cells (pos_part ret) 0 buf in
              let got' =
                q.1 ∙ ap (λ xs. some (xs, q.0)) (ap (read_cells (pos_part ret) 3) r.3 ∙ body e) in
              let l = record (slave.here) { buf = write_cells 0 content slave.here.buf } in
              let f = follow_master-tell err ret offs l start in
              (
                record { area = q.0; here = follow_master libc calls' fd err ret offs l },
                rw (got, e, got', read_slave, read_data, ◌>>=◌) refl,
                refl,
                f.1,
                ap (read_cells (pos_part ret) 0) f.0
                    ∙ read_copied (pos_part ret) 0 0 buf slave.here.buf,
                q.4 ∙ r.4,
                q.3 ∙ r.3,
                l,
                refl,
                refl,
              )
          | inr e ↦
              let f = follow_master-tell err ret offs slave.here start in
              let empty : pos_part ret ≡ 0 = ground arith in
              (
                record { area = r.0; here = follow_master libc calls' fd err ret offs slave.here },
                rw (got, e, read_slave, read_data, ◌>>=◌) refl,
                refl,
                f.1,
                rw empty refl,
                r.4,
                r.3,
                slave.here,
                refl,
                refl,
              )
        ]

  module _ (count : ℕ) (c : Caller W) (mapped : Mapped c.area) where
    abbrev ret : ℤ
    ret = (libc.libc_read fd count c.here).0

    abbrev after : Local W
    after = (libc.libc_read fd count c.here).1

    abbrev sought : ℤ × Local W
    sought = offset_after libc calls fd ret after

    abbrev shm_dat : List ℤ
    shm_dat = after.errno ∷ ret ∷ sought.0 ∷ []

    pub read_master-Sent :
        shm_data_size + pos_part ret < 2147483648
        → (b : Area) × (read_master libc calls fd count c
            ≡ some (ret, record { area = b; here = sought.1 }))
          × Sent c.area after.errno ret sought.0 sought.1.buf b
    unfolding read_master
    read_master-Sent small =
        let w = copy_to_shm-writes calls shm_dat 0 c.area (omega arith) ok mapped in
        elim (Bool-cases (ltb_ℤ (pos 0) ret)) [
          | inl e ↦
              let content = read_cells (pos_part ret) 0 sought.1.buf in
              let many = length-read_cells (pos_part ret) 0 sought.1.buf in
              let v =
                copy_to_shm-writes calls content shm_data_size w.0 (omega (arith, many, small)) ok
                  w.3 in
              (
                v.0,
                rw (w.1, e, v.1, read_master, ◌>>=◌) refl,
                record {
                  header =
                      ap (read_cells 3 0) (v.2 ∙ ap (write_cells 3 content) w.2)
                      ∙ read_header shm_dat content c.area.cells;
                  body = λ _.
                      ap (read_cells (pos_part ret) 3) v.2
                      ∙ read_copied (pos_part ret) 3 0 sought.1.buf w.0.cells;
                  grown = omega (arith, v.4, w.4);
                  room = omega (arith, v.4, w.5, w.6);
                  body_room = λ _. omega (arith, many, v.5, v.6);
                },
              )
          | inr e ↦ (
            w.0,
            rw (w.1, e, read_master, ◌>>=◌) refl,
            record {
              header = ap (read_cells 3 0) w.2 ∙ read_cells-write_cells 0 shm_dat c.area.cells;
              body = λ t. absurd (false≢true (sym e ∙ t));
              grown = w.4;
              room = omega (arith, w.5, w.6);
              body_room = λ t. absurd (false≢true (sym e ∙ t));
            },
          )
        ]

    -- What `_read` returns to the master is what `read` returns in every process: the master's action and
    -- the part of a slave come to an end, the slave takes the return value and the `errno` that the
    -- master had right after `_read`, its buffer gets the same data, and its file offset is the
    -- master's, if the call has not failed. It is assumed that the system calls for shared memory
    -- succeed, and of `lseek` that it moves the offset and leaves the buffer alone.
    read_agrees :
        (slave : Caller W)
        → Mapped (seen_by slave.area c.area)
        → shm_data_size + pos_part ret < 2147483648
        → (m t : Caller W) × (read_master libc calls fd count c ≡ some (ret, m))
          × (read_slave libc calls' fd (record slave { area = seen_by slave.area m.area })
              ≡ some (ret, t))
          × (t.here.errno ≡ after.errno)
          × (tell t.here.world
              ≡ (if eq_ℤ ret (negsuc 0) then tell slave.here.world else tell m.here.world))
          × (read_cells (pos_part ret) 0 t.here.buf ≡ read_cells (pos_part ret) 0 m.here.buf)
    read_agrees slave mapped' small =
        let (b, done, sent) = read_master-Sent small in
        let at = offset_after-tell ret (tell slave.here.world) after in
        let s =
          read_slave-Sent slave after.errno ret sought.0 sought.1.buf c.area b sent
            (omega (arith, mapped'.0, sent.grown), mapped'.1) at.0 in
        (record { area = b; here = sought.1 }, s.0, done, s.1, s.2, s.3 ∙ at.1, s.4)

  module _ {ℓ} {O : Type ℓ} (output : W → O)
      (quiet : (offs : ℤ) (whence : Whence) (l : Local W)
        → output (libc.libc_lseek fd offs whence l).1.world ≡ output l.world) where
    pub offset_after-output :
        (ret : ℤ) (l : Local W) → output (offset_after libc calls fd ret l).1.world ≡ output l.world
    unfolding offset_after
    offset_after-output ret l = elim (Bool-cases (eq_ℤ ret (negsuc 0))) [
      | inl e ↦ rw (e, offset_after) refl
      | inr e ↦ rw (e, offset_after) (quiet (pos 0) seek_cur l)
    ]

    pub follow_master-output :
        (err ret offs : ℤ) (l : Local W)
        → output (follow_master libc calls' fd err ret offs l).world ≡ output l.world
    unfolding follow_master
    follow_master-output err ret offs l = elim (Bool-cases (eq_ℤ ret (negsuc 0))) [
      | inl e ↦ rw (e, follow_master) refl
      | inr e ↦ rw (e, follow_master) (quiet offs seek_set l)
    ]

    -- `write` writes once: the master's action changes the output as one call of `_write` does, and the
    -- part of a slave does not change it; the slave returns the master's value and the `errno` that
    -- `_write` left there, with the master's file offset if the call has not failed. It is assumed that
    -- the system calls for shared memory succeed, and of `lseek` that it moves the offset and changes
    -- neither the buffer nor the output.
    write_once :
        (count : ℕ) (c slave : Caller W)
        → Mapped c.area
        → Mapped (seen_by slave.area c.area)
        → (m t : Caller W) × (write_master libc calls fd count c
            ≡ some ((libc.libc_write fd count c.here).0, m))
          × (write_slave libc calls' fd (record slave { area = seen_by slave.area m.area })
              ≡ some ((libc.libc_write fd count c.here).0, t))
          × (output m.here.world ≡ output (libc.libc_write fd count c.here).1.world)
          × (output t.here.world ≡ output slave.here.world)
          × (t.here.errno ≡ (libc.libc_write fd count c.here).1.errno)
          × (tell t.here.world ≡ (
              if eq_ℤ (libc.libc_write fd count c.here).0 (negsuc 0)
              then tell slave.here.world
              else tell m.here.world))
    unfolding write_master write_slave follow_master
    write_once count c slave mapped mapped' =
        let ret = (libc.libc_write fd count c.here).0 in
        let after = (libc.libc_write fd count c.here).1 in
        let sought = offset_after libc calls fd ret after in
        let shm_dat = after.errno ∷ ret ∷ sought.0 ∷ [] in
        let w = copy_to_shm-writes calls shm_dat 0 c.area (omega arith) ok mapped in
        let m : Caller W = record { area = w.0; here = sought.1 } in
        let waiting : Caller W = record slave { area = seen_by slave.area w.0 } in
        let r =
          copy_from_shm-reads calls' 3 0 waiting.area (omega (arith, w.5, w.6)) ok'
            (omega (arith, mapped'.0, w.4), mapped'.1) in
        let header = ap (read_cells 3 0) w.2 ∙ read_cells-write_cells 0 shm_dat c.area.cells in
        let got = r.1 ∙ ap (λ xs. some (xs, r.0)) header in
        let at = offset_after-tell ret (tell slave.here.world) after in
        let f = follow_master-tell after.errno ret sought.0 slave.here at.0 in
        let t : Caller W = record {
          area = r.0;
          here = follow_master libc calls' fd after.errno ret sought.0 slave.here;
        } in
        (
          m,
          t,
          rw (w.1, write_master, ◌>>=◌) refl,
          rw (got, write_slave, ◌>>=◌) refl,
          offset_after-output ret after,
          follow_master-output after.errno ret sought.0 slave.here,
          refl,
          f.1 ∙ at.1,
        )
