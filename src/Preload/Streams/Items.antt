-- ===== src/Preload/Streams/Items.antt =====
-- `fread` in the whole group.
use plr.Prelude.{
  ◌+◌, ◌<◌, ℕ, ◌≤◌, ◌≡◌, refl, inl, inr, Bool-cases, none, some, List, ◌∷◌, All, All-map, All-zip,
  Both, Both-map, if-true, if-false, ℤ, pos, pos_part, eq_ℤ, ltb_ℤ, ◌≤ℤ◌, arith, ap, ◌∙◌, sym,
}
use mathlib.Core.Path.{subst}
use plr.SharedData.{PlrData}
use plr.SharedData.ExtraShm.{SystemCalls, Area, read_cells, write_cells}
use plr.SharedData.ExtraShm.Laws.{
  length-read_cells, Succeed, Mapped, copy_to_shm-writes, copy_from_shm-reads, read_header,
  read_copied,
}
use plr.Preload.Wrapper.{Local, Libc, Caller, ◌>>=◌}
use plr.Preload.Group.{run_group, Serves, run_slaves-Both}
use plr.Preload.ReadWrite.Laws.{seen_by}
use plr.Preload.Streams.{StreamDat, stream_data_size, to_cells, stream_dat, stream_publish_data}
use plr.Preload.Streams.Blocks.{fread_master, fread_data, fread_slave}
use plr.Preload.Streams.Keeps.{Keeps, stream_dat-Keeps, stream_return-Keeps, stream_follow-Keeps}
use plr.Preload.Streams.Agree.{
  StreamView, StreamLaws, seen_in, exit_args, Ends, stream_dat-view, stream_return-Leaves,
  stream_follow-Leaves,
}

module _ {W : Type 0} (libc : Libc W) (stream : ℕ) (view : W → StreamView)
    (laws : StreamLaws libc stream view) (keep : Keeps libc stream (λ (l : Local W). l.buf)) where
  -- What the master has put into the area: the structure, and as many bytes of `buf` as `ret` says.
  pub record Filled (d : StreamDat) (buf : ℕ → ℤ) (a : Area) : Type 0 where
    pub header : read_cells stream_data_size 0 a.cells ≡ to_cells d
    pub body :
        read_cells (pos_part d.ret) stream_data_size a.cells ≡ read_cells (pos_part d.ret) 0 buf
    pub room : stream_data_size + pos_part d.ret ≤ (a.plr).extra_shm_size

  -- How a slave comes out.
  pub record Followed (d : StreamDat) (buf : ℕ → ℤ) (out : ℤ × Caller W) : Type 0 where
    pub value : out.0 ≡ d.ret
    pub number : out.1.here.errno ≡ d.err
    pub sees : view out.1.here.world ≡ seen_in d
    pub compared : out.1.area.proc.syscall_args ≡ exit_args (seen_in d)
    pub taken : read_cells (pos_part d.ret) 0 out.1.here.buf ≡ read_cells (pos_part d.ret) 0 buf

  fread_data-takes :
      (calls : SystemCalls) (ret : ℤ) (buf : ℕ → ℤ) (c : Caller W)
      → Succeed calls
      → Mapped c.area
      → stream_data_size + pos_part ret ≤ (c.area.plr).extra_shm_size
      → read_cells (pos_part ret) stream_data_size c.area.cells ≡ read_cells (pos_part ret) 0 buf
      → (t : Caller W) × (fread_data libc calls ret c ≡ some t)
        × (t.here.world ≡ c.here.world)
        × (read_cells (pos_part ret) 0 t.here.buf ≡ read_cells (pos_part ret) 0 buf)
        × (t.area.plr ≡ c.area.plr)
        × (t.area.cells ≡ c.area.cells)
  unfolding fread_data read_cells
  fread_data-takes calls ret buf c ok mapped room body = elim (Bool-cases (ltb_ℤ (pos 0) ret)) [
    | inl e ↦
        let q = copy_from_shm-reads calls (pos_part ret) stream_data_size c.area room ok mapped in
        let content = read_cells (pos_part ret) 0 buf in
        (
          record { area = q.0; here = record (c.here) { buf = write_cells 0 content c.here.buf } },
          rw (e, q.1 ∙ ap (λ xs. some (xs, q.0)) body, fread_data, ◌>>=◌) refl,
          refl,
          read_copied (pos_part ret) 0 0 buf c.here.buf,
          q.4,
          q.3,
        )
    | inr e ↦
        let empty : pos_part ret ≡ 0 = ground arith in
        (c, if-false _ _ e, refl, rw empty refl, refl, refl)
  ]

  fread_slave-Followed :
      (calls : SystemCalls) (d : StreamDat) (buf : ℕ → ℤ) (c : Caller W)
      → Succeed calls
      → Mapped c.area
      → Filled d buf c.area
      → d.ferr ≡ pos 0
      → pos 0 ≤ℤ d.offs
      → (view c.here.world).error ≡ pos 0
      → Ends libc stream view laws (seen_in d)
      → (out : ℤ × Caller W) × (fread_slave libc calls stream c ≡ some out)
        × Followed d buf out
        × (out.1.area.plr ≡ c.area.plr)
        × (out.1.area.cells ≡ c.area.cells)
  unfolding fread_slave
  fread_slave-Followed calls d buf c ok mapped filled clear start own ends =
      let r =
        copy_from_shm-reads calls stream_data_size 0 c.area (omega (arith, filled.room)) ok
          mapped in
      let r_size = ap (λ (p : PlrData). p.extra_shm_size) r.4 in
      let told = r.1 ∙ ap (λ xs. some (xs, r.0)) filled.header in
      let (e, took, world, body, e_plr, e_cells) =
        fread_data-takes calls d.ret buf (record c { area = r.0 }) ok r.2
          (omega (arith, filled.room, r_size))
          (ap (read_cells (pos_part d.ret) stream_data_size) r.3 ∙ filled.body) in
      let own' = ap (λ w. (view w).error) world ∙ own in
      let (t, out, cells, shared) =
        stream_follow-Leaves libc stream view laws calls d e clear start own' ends in
      let kept =
        stream_follow-Keeps libc calls stream (λ (l : Local W). l.buf) keep d e t d.ret out.value in
      (
        (d.ret, t),
        rw (told, took, fread_slave, ◌>>=◌) out.value,
        record {
          value = refl;
          number = out.number;
          sees = out.sees;
          compared = out.compared;
          taken = ap (read_cells (pos_part d.ret) 0) kept.1 ∙ body;
        },
        shared ∙ e_plr ∙ r.4,
        cells ∙ e_cells ∙ r.3,
      )

  module _ (calls calls' : SystemCalls) (ok : Succeed calls) (ok' : Succeed calls') (c : Caller W)
      (slaves : List (Caller W)) (mapped : Mapped c.area)
      (all_mapped : All (λ s. Mapped (seen_by s.area c.area)) slaves)
      (no_error : All (λ s. (view s.here.world).error ≡ pos 0) slaves) where
    fread_master-Filled :
        (size nmemb : ℕ)
        → let (ret, after) = libc.libc_fread size nmemb stream c.here in
          let d = (stream_dat libc calls stream ret after).0 in
          d.ferr ≡ pos 0
          → stream_data_size + pos_part ret < 2147483648
          → (m : Caller W) × (fread_master libc calls size nmemb stream c ≡ some (ret, m))
            × (m.here.errno ≡ after.errno)
            × (view m.here.world ≡ view after.world)
            × (m.here.buf ≡ after.buf)
            × (m.area.proc.syscall_args ≡ exit_args (view after.world))
            × Filled d after.buf m.area
            × ((c.area.plr).extra_shm_size ≤ (m.area.plr).extra_shm_size)
    unfolding fread_master stream_publish_data stream_dat
    fread_master-Filled size nmemb clear small =
        let (ret, after) = libc.libc_fread size nmemb stream c.here in
        let (d, l) = stream_dat libc calls stream ret after in
        let seen = stream_dat-view libc stream view laws calls ret after in
        let part : Local W → ℕ → ℤ = λ l. l.buf in
        let kept : l.buf ≡ after.buf = stream_dat-Keeps libc calls stream part keep ret after in
        let text = read_cells (pos_part ret) 0 l.buf in
        let w = copy_to_shm-writes calls (to_cells d) 0 c.area (omega arith) ok mapped in
        let many = length-read_cells (pos_part ret) 0 l.buf in
        let v =
          copy_to_shm-writes calls text stream_data_size w.0 (omega (arith, many, small)) ok w.3 in
        let opened : Caller W = record { area = v.0; here = l } in
        let (m, led, cells, shared) =
          stream_return-Leaves libc stream view laws calls d opened (seen.1 ∙ sym seen.0) in
        let stays = stream_return-Keeps libc calls stream part keep d opened m ret led.value in
        let at_end = cells ∙ v.2 ∙ ap (write_cells stream_data_size text) w.2 in
        let grown = ap (λ (p : PlrData). p.extra_shm_size) shared in
        (
          m,
          rw (w.1, v.1, fread_master, ◌>>=◌)
              (if-true _ none (ap (λ k. eq_ℤ k (pos 0)) clear) ∙ led.value),
          led.number,
          led.sees ∙ seen.0,
          stays.1 ∙ kept,
          led.compared ∙ ap exit_args seen.0,
          record {
            header =
                ap (read_cells stream_data_size 0) at_end
                ∙ read_header (to_cells d) text c.area.cells;
            body =
                ap (read_cells (pos_part ret) stream_data_size) at_end
                ∙ read_copied (pos_part ret) stream_data_size 0 l.buf
                    (write_cells 0 (to_cells d) c.area.cells)
                ∙ ap (read_cells (pos_part ret) 0) kept;
            room = omega (arith, many, v.5, v.6, grown);
          },
          omega (arith, w.4, v.4, grown),
        )

    slaves_fread :
        (d : StreamDat) (buf : ℕ → ℤ) (a : Area)
        → Filled d buf a
        → (c.area.plr).extra_shm_size ≤ (a.plr).extra_shm_size
        → d.ferr ≡ pos 0
        → pos 0 ≤ℤ d.offs
        → Ends libc stream view laws (seen_in d)
        → All (Serves (λ _. Followed d buf) (fread_slave libc calls' stream) a) slaves
    slaves_fread d buf a filled grown clear start ends =
        All-map
          {P = λ (s : Caller W).
            Mapped (seen_by s.area c.area) × ((view s.here.world).error ≡ pos 0)}
          slaves
          (λ s h.
            fread_slave-Followed calls' d buf (record s { area = seen_by s.area a }) ok'
              (omega (arith, h.0.0, grown), h.0.1)
              (record { header = filled.header; body = filled.body; room = filled.room }) clear
              start h.1 ends)
          (All-zip (λ s. Mapped (seen_by s.area c.area)) (λ s. (view s.here.world).error ≡ pos 0)
            slaves all_mapped no_error)

    -- `fread` in a group of any size, the slaves in any order, where no two processes
    -- share the offset of an open file: every process returns what the call of libc by the master returned. All leave `errno` and the stream, its offset and
    -- its two indicators, as the call left them, and all have recorded the same arguments for the
    -- comparison at the end. The first `r` bytes of all buffers are those that the call has read, where
    -- `r` is the value returned: so all of them, where the elements have one byte. The stream has no
    -- error, its offset is known, a slave that is brought to the end of the file meets it with
    -- `fgetc`, and the functions that ask for the state of the stream or set it leave the buffers
    -- alone; the system calls for shared memory succeed, and what is read fits the extra area, whose
    -- size is an `int`.
    pub fread_together :
        (size nmemb : ℕ)
        → let (ret, after) = libc.libc_fread size nmemb stream c.here in
          (view after.world).error ≡ pos 0
          → pos 0 ≤ℤ (view after.world).offset
          → Ends libc stream view laws (view after.world)
          → stream_data_size + pos_part ret < 2147483648
          → (m : Caller W) × (others : List (ℤ × Caller W)) × (run_group
                (fread_master libc calls size nmemb stream)
                (fread_slave libc calls' stream)
                c
                slaves
              ≡ some ((ret, m) ∷ others))
            × (m.here.errno ≡ after.errno)
            × (view m.here.world ≡ view after.world)
            × (m.here.buf ≡ after.buf)
            × Both
                (λ s out.
                  (out.0 ≡ ret)
                  × (out.1.here.errno ≡ after.errno)
                  × (view out.1.here.world ≡ view after.world)
                  × (read_cells (pos_part ret) 0 out.1.here.buf
                      ≡ read_cells (pos_part ret) 0 after.buf)
                  × (out.1.area.proc.syscall_args ≡ m.area.proc.syscall_args))
                slaves
                others
    unfolding run_group stream_dat
    fread_together size nmemb clear start ends small =
        let (ret, after) = libc.libc_fread size nmemb stream c.here in
        let d = (stream_dat libc calls stream ret after).0 in
        let seen = (stream_dat-view libc stream view laws calls ret after).0 in
        let no_ferr : d.ferr ≡ pos 0 = ap (λ (v : StreamView). v.error) seen ∙ clear in
        let (m, led, number, sees, buf, compared, filled, grown) =
          fread_master-Filled size nmemb no_ferr small in
        let (others, rest, follow) =
          run_slaves-Both (λ _. Followed d after.buf) (fread_slave libc calls' stream) m.area slaves
            m.area refl refl
            (slaves_fread d after.buf m.area filled grown no_ferr
              (subst (λ (v : StreamView). pos 0 ≤ℤ v.offset) (sym seen) start)
              (subst (Ends libc stream view laws) (sym seen) ends)) in
        (
          m,
          others,
          rw (led, rest, run_group, ◌>>=◌) refl,
          number,
          sees,
          buf,
          Both-map slaves others
              (λ s out f. (
                f.value,
                f.number,
                f.sees ∙ seen,
                f.taken,
                f.compared ∙ ap exit_args seen ∙ sym compared,
              ))
              follow,
        )
