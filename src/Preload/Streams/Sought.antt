-- ===== src/Preload/Streams/Sought.antt =====
-- `fseek` in the whole group.
use plr.Prelude.{
  ℕ, ◌≡◌, refl, none, some, List, [], ◌∷◌, All, All-map, All-zip, Both, Both-map, ◌≤◌, if-true, ℤ,
  pos, eq_ℤ, ◌≤ℤ◌, arith, ap, ◌∙◌, sym,
}
use plr.SharedData.ExtraShm.{SystemCalls, Area, copy_from_shm, read_cells}
use plr.SharedData.ExtraShm.Laws.{
  Succeed, Mapped, copy_to_shm-writes, copy_from_shm-reads, read_cells-write_cells,
}
use plr.Preload.Wrapper.{Local, Libc, Whence, seek_set, Caller, ◌>>=◌}
use plr.Preload.Group.{run_group, Serves, run_slaves-Both}
use plr.Preload.ReadWrite.Laws.{seen_by}
use plr.Preload.Streams.{exit_state}
use plr.Preload.Streams.Seek.{seek_data_size, fseek_master, fseek_slave}
use plr.Preload.Streams.Agree.{StreamView, StreamLaws, exit_args, view_eq, exit_state-args}

-- The view after a seek that has worked.
abbrev pub not_at_eof : StreamView → StreamView
not_at_eof v = record v { at_eof = pos 0 }

module _ {W : Type 0} (libc : Libc W) (stream : ℕ) (view : W → StreamView)
    (laws : StreamLaws libc stream view) where
  -- How a slave comes out.
  pub record Followed (ret err : ℤ) (v : StreamView) (out : ℤ × Caller W) : Type 0 where
    pub value : out.0 ≡ ret
    pub number : out.1.here.errno ≡ err
    pub sees : view out.1.here.world ≡ not_at_eof v
    pub compared : out.1.area.proc.syscall_args ≡ exit_args (not_at_eof v)

  abbrev Sought : ℤ → ℤ → StreamView → Caller W → ℤ × Caller W → Type 0
  Sought ret err v s out = Followed ret err v out

  fseek_slave-Sought :
      (calls : SystemCalls) (ret err : ℤ) (v : StreamView) (s : Caller W) (b : Area)
      → copy_from_shm calls seek_data_size 0 s.area ≡ some (err ∷ ret ∷ v.offset ∷ v.error ∷ [], b)
      → v.error ≡ pos 0
      → pos 0 ≤ℤ v.offset
      → (view s.here.world).error ≡ pos 0
      → (out : ℤ × Caller W) × (fseek_slave libc calls stream s ≡ some out)
        × Sought ret err v s out
        × (out.1.area.plr ≡ b.plr)
        × (out.1.area.cells ≡ b.cells)
  unfolding fseek_slave exit_state
  fseek_slave-Sought calls ret err v s b got clear start own =
      let l = (libc.libc_fseek stream v.offset seek_set s.here).1 in
      let e = exit_state libc calls stream (record { area = b; here = l }) in
      let x = exit_state-args libc stream view laws calls (record { area = b; here = l }) in
      let sought : view l.world ≡ not_at_eof v =
        laws.seek v.offset s.here start ∙ view_eq refl refl (own ∙ sym clear) in
      (
        (ret, record e { here = record (e.here) { errno = err } }),
        rw (got, fseek_slave, ◌>>=◌) (if-true _ none (ap (λ k. eq_ℤ k (pos 0)) clear)),
        record {
          value = refl;
          number = refl;
          sees = x.1 ∙ sought;
          compared = x.0 ∙ ap exit_args sought;
        },
        refl,
        refl,
      )

  module _ (calls calls' : SystemCalls) (ok : Succeed calls) (ok' : Succeed calls') (c : Caller W)
      (slaves : List (Caller W)) (mapped : Mapped c.area)
      (all_mapped : All (λ s. Mapped (seen_by s.area c.area)) slaves)
      (no_error : All (λ s. (view s.here.world).error ≡ pos 0) slaves) where
    -- The call of libc by the master, between two calls of `ftell`.
    abbrev fseek_call : ℤ → Whence → ℤ × Local W
    fseek_call offset whence =
        let (ret, l) = libc.libc_fseek stream offset whence (libc.libc_ftell stream c.here).1 in
        (ret, (libc.libc_ftell stream l).1)

    fseek_master-view :
        (offset : ℤ) (whence : Whence)
        → let (ret, after) = fseek_call offset whence in
          let v = view after.world in
          v.error ≡ pos 0
          → (m : Caller W) × (fseek_master libc calls stream offset whence c ≡ some (ret, m))
            × (view m.here.world ≡ v)
            × (m.area.proc.syscall_args ≡ exit_args v)
            × (read_cells seek_data_size 0 m.area.cells
                ≡ after.errno ∷ ret ∷ v.offset ∷ v.error ∷ [])
            × ((c.area.plr).extra_shm_size ≤ (m.area.plr).extra_shm_size)
            × (seek_data_size ≤ (m.area.plr).extra_shm_size)
    unfolding fseek_master exit_state
    fseek_master-view offset whence clear =
        let (ret, after) = fseek_call offset whence in
        let (offs, l1) = libc.libc_ftell stream after in
        let (ferr, l2) = libc.libc_ferror stream l1 in
        let shm_dat = after.errno ∷ ret ∷ offs ∷ ferr ∷ [] in
        let no_ferr =
          laws.ferror_value l1 ∙ ap (λ (u : StreamView). u.error) (laws.ftell_keeps after) in
        let w = copy_to_shm-writes calls shm_dat 0 c.area (omega arith) ok mapped in
        let told =
          ap (read_cells seek_data_size 0) w.2 ∙ read_cells-write_cells 0 shm_dat c.area.cells in
        let opened : Caller W = record { area = w.0; here = l2 } in
        let x = exit_state-args libc stream view laws calls opened in
        let same = laws.ferror_keeps l1 ∙ laws.ftell_keeps after in
        (
          exit_state libc calls stream opened,
          rw (w.1, fseek_master, ◌>>=◌)
              (if-true _ none (ap (λ k. eq_ℤ k (pos 0)) (no_ferr ∙ clear))),
          x.1 ∙ same,
          x.0 ∙ ap exit_args same,
          told ∙ (λ i. after.errno ∷ ret ∷ laws.ftell_value after i ∷ no_ferr i ∷ []),
          w.4,
          omega (arith, w.5, w.6),
        )

    slaves_seek :
        (ret err : ℤ) (v : StreamView) (a : Area)
        → read_cells seek_data_size 0 a.cells ≡ err ∷ ret ∷ v.offset ∷ v.error ∷ []
        → (c.area.plr).extra_shm_size ≤ (a.plr).extra_shm_size
        → seek_data_size ≤ (a.plr).extra_shm_size
        → v.error ≡ pos 0
        → pos 0 ≤ℤ v.offset
        → All (Serves (Sought ret err v) (fseek_slave libc calls' stream) a) slaves
    slaves_seek ret err v a told grown room clear start =
        All-map
          {P = λ (s : Caller W).
            Mapped (seen_by s.area c.area) × ((view s.here.world).error ≡ pos 0)}
          slaves
          (λ s h.
            let waiting : Caller W = record s { area = seen_by s.area a } in
            let r =
              copy_from_shm-reads calls' seek_data_size 0 waiting.area room ok'
                (omega (arith, h.0.0, grown), h.0.1) in
            let (out, done, good, p, q) =
              fseek_slave-Sought calls' ret err v waiting r.0 (r.1 ∙ ap (λ xs. some (xs, r.0)) told)
                clear start h.1 in
            (out, done, good, p ∙ r.4, q ∙ r.3))
          (All-zip (λ s. Mapped (seen_by s.area c.area)) (λ s. (view s.here.world).error ≡ pos 0)
            slaves all_mapped no_error)

    -- `fseek` in a group of any size, the slaves in any order, where no two processes share the offset of an
    -- open file: the slaves go to the offset where the master's call of libc has left the stream.
    -- Every process returns what that call returned, and every slave has the `errno` of the master
    -- after the call and the `ftell` that follows it. The streams of
    -- all have the same offset; but the slaves are not at the end of the file any more, even where the
    -- master still is, because its call has failed, and then the arguments that are recorded for the
    -- comparison at the end differ too. The stream has no error and its offset is known; the system
    -- calls for shared memory succeed.
    pub fseek_together :
        (offset : ℤ) (whence : Whence)
        → let (ret, after) = fseek_call offset whence in
          (view after.world).error ≡ pos 0
          → pos 0 ≤ℤ (view after.world).offset
          → (m : Caller W) × (others : List (ℤ × Caller W)) × (run_group
                (fseek_master libc calls stream offset whence)
                (fseek_slave libc calls' stream)
                c
                slaves
              ≡ some ((ret, m) ∷ others))
            × (view m.here.world ≡ view after.world)
            × (m.area.proc.syscall_args ≡ exit_args (view after.world))
            × Both
                (λ s out.
                  (out.0 ≡ ret)
                  × (out.1.here.errno ≡ after.errno)
                  × (view out.1.here.world ≡ not_at_eof (view after.world))
                  × (out.1.area.proc.syscall_args ≡ exit_args (not_at_eof (view after.world))))
                slaves
                others
    unfolding run_group
    fseek_together offset whence clear start =
        let (ret, after) = fseek_call offset whence in
        let v = view after.world in
        let (m, led, seen, compared, told, grown, room) = fseek_master-view offset whence clear in
        let (others, rest, follow) =
          run_slaves-Both (Sought ret after.errno v) (fseek_slave libc calls' stream) m.area slaves
            m.area refl refl (slaves_seek ret after.errno v m.area told grown room clear start) in
        (
          m,
          others,
          rw (led, rest, run_group, ◌>>=◌) refl,
          seen,
          compared,
          Both-map slaves others (λ s out f. (f.value, f.number, f.sees, f.compared)) follow,
        )
