-- ===== src/Preload/Files/Together.antt =====
-- A call on a path in the whole group: the slaves go by the outcome of the master's call.
use plr.Prelude.{
  ℕ, ◌≤◌, ◌≡◌, refl, some, List, [], ◌∷◌, All, All-map, Both, if◌then◌else◌, ℤ, pos, eq_ℤ, ltb_ℤ,
  arith, ap, ◌∙◌,
}
use plr.SharedData.ExtraShm.{SystemCalls, Area, copy_to_shm, copy_from_shm, read_cells}
use plr.SharedData.ExtraShm.Laws.{
  Succeed, Mapped, copy_to_shm-writes, copy_from_shm-reads, read_cells-write_cells,
}
use plr.Preload.Wrapper.{Local, Libc, Act, Caller, ◌>>=◌}
use plr.Preload.Group.{run_slaves, run_group, run_slaves-Both}
use plr.Preload.ReadWrite.Laws.{seen_by}
use plr.Preload.Files.{
  without_excl, open_master, open_slave, fopen_master, fopen_slave, unlink_master, unlink_slave,
}
use plr.Preload.Files.Follows.{Yields, unlink_slave-Yields, open_slave-Yields, fopen_slave-Yields}

module _ {W : Type 0} (libc : Libc W) (calls calls' : SystemCalls) (ok : Succeed calls)
    (ok' : Succeed calls') (c : Caller W) (slaves : List (Caller W)) (mapped : Mapped c.area)
    (all_mapped : All (λ s. Mapped (seen_by s.area c.area)) slaves) where
  -- Every slave returns with what `result` makes of its own memory.
  abbrev Returns : (Local W → ℤ × Local W) → Caller W → ℤ × Caller W → Type 0
  Returns result s out = ◌≡◌ {A = ℤ × Local W} (out.0, out.1.here) (result s.here)

  -- The slaves after the master has copied `err` and `ret` to the area `z`.
  slaves_follow :
      (result : Local W → ℤ × Local W) (act : Act W) (err ret : ℤ) (z : Area)
      → Mapped z
      → (c.area.plr).extra_shm_size ≤ (z.plr).extra_shm_size
      → ((s : Caller W) (b : Area)
          → copy_from_shm calls' 2 0 s.area ≡ some (err ∷ ret ∷ [], b)
          → Yields act s (result s.here) b)
      → (a : Area) × (others : List (ℤ × Caller W)) × (copy_to_shm calls (err ∷ ret ∷ []) 0 z
          ≡ some a)
        × (run_slaves act slaves a ≡ some others)
        × Both (Returns result) slaves others
  slaves_follow result act err ret z m grown step =
      let w = copy_to_shm-writes calls (err ∷ ret ∷ []) 0 z (omega arith) ok m in
      let told = ap (read_cells 2 0) w.2 ∙ read_cells-write_cells 0 (err ∷ ret ∷ []) z.cells in
      let (others, rest, follow) = run_slaves-Both (Returns result) act w.0 slaves w.0 refl refl (
        All-map slaves
          (λ s mapped'.
            let waiting : Caller W = record s { area = seen_by s.area w.0 } in
            let r =
              copy_from_shm-reads calls' 2 0 waiting.area (omega (arith, w.5, w.6)) ok'
                (omega (arith, mapped'.0, w.4, grown), mapped'.1) in
            let (value, here) = result s.here in
            (
              (value, record { area = r.0; here = here }),
              step waiting r.0 (r.1 ∙ ap (λ xs. some (xs, r.0)) told),
              refl,
              r.4,
              r.3,
            ))
          all_mapped) in
      (w.0, others, w.1, rest, follow)

  -- `unlink` in a group of any size, the slaves in any order: it is done once, by the master. A slave leaves
  -- everything outside of the program alone and returns the value and the `errno` of the master's
  -- call. It is assumed that the system calls for shared memory succeed.
  pub unlink_together :
      (pathname : List ℕ)
      → let (ret, after) = libc.libc_unlink pathname c.here in
        (m : Caller W) × (others : List (ℤ × Caller W)) × (run_group
            (unlink_master libc calls pathname)
            (unlink_slave libc calls')
            c
            slaves
          ≡ some ((ret, m) ∷ others))
        × (m.here ≡ after)
        × Both
            (λ s out.
              ◌≡◌ {A = ℤ × Local W}
                (out.0, out.1.here)
                (ret, record (s.here) { errno = after.errno }))
            slaves
            others
  unfolding run_group unlink_master
  unlink_together pathname =
      let (ret, after) = libc.libc_unlink pathname c.here in
      let (a, others, sent, rest, follow) =
        slaves_follow (λ l. (ret, record l { errno = after.errno })) (unlink_slave libc calls')
          after.errno ret c.area mapped (omega arith)
          (λ s b got. unlink_slave-Yields libc calls' after.errno ret s b got) in
      (
        record { area = a; here = after },
        others,
        rw (sent, rest, run_group, unlink_master, ◌>>=◌) refl,
        refl,
        follow,
      )

  -- `open` in a group of any size, the slaves in any order: where the master's call has failed, the slaves
  -- open nothing and return the same value and `errno`; else each opens the file for itself with the
  -- same arguments but for `O_EXCL`, and returns what that call does. It is assumed that the system
  -- calls for shared memory succeed.
  pub open_together :
      (pathname : List ℕ) (flags mode : ℕ)
      → let (ret, after) = libc.libc_open pathname flags mode c.here in
        (m : Caller W) × (others : List (ℤ × Caller W)) × (run_group
            (open_master libc calls pathname flags mode)
            (open_slave libc calls' pathname flags mode)
            c
            slaves
          ≡ some ((ret, m) ∷ others))
        × (m.here ≡ after)
        × Both
            (λ s out.
              ◌≡◌ {A = ℤ × Local W}
                (out.0, out.1.here)
                (if ltb_ℤ ret (pos 0)
                  then (ret, record (s.here) { errno = after.errno })
                  else libc.libc_open pathname (without_excl flags) mode s.here))
            slaves
            others
  unfolding run_group open_master
  open_together pathname flags mode =
      let (ret, after) = libc.libc_open pathname flags mode c.here in
      let z = copy_to_shm-writes calls [] 0 c.area (omega arith) ok mapped in
      let (a, others, sent, rest, follow) =
        slaves_follow
          (λ l.
            if ltb_ℤ ret (pos 0)
            then (ret, record l { errno = after.errno })
            else libc.libc_open pathname (without_excl flags) mode l)
          (open_slave libc calls' pathname flags mode) after.errno ret z.0 z.3 z.4
          (λ s b got. open_slave-Yields libc calls' after.errno ret s b got pathname flags mode) in
      (
        record { area = a; here = after },
        others,
        rw (z.1, sent, rest, run_group, open_master, ◌>>=◌) refl,
        refl,
        follow,
      )

  -- `fopen` in a group of any size, the slaves in any order: where the master's call has succeeded, each slave
  -- opens the file for itself; where the master has got `NULL`, the slaves take the `errno` and return
  -- whatever their local variable `ret` held before, which need not be `NULL`. It is assumed that the
  -- system calls for shared memory succeed.
  pub fopen_together :
      (unset : ℤ) (path mode : List ℕ)
      → let (ret, after) = libc.libc_fopen path mode c.here in
        (m : Caller W) × (others : List (ℤ × Caller W)) × (run_group
            (fopen_master libc calls path mode)
            (fopen_slave libc calls' unset path mode)
            c
            slaves
          ≡ some ((ret, m) ∷ others))
        × (m.here ≡ after)
        × Both
            (λ s out.
              ◌≡◌ {A = ℤ × Local W}
                (out.0, out.1.here)
                (if eq_ℤ ret (pos 0)
                  then (unset, record (s.here) { errno = after.errno })
                  else libc.libc_fopen path mode s.here))
            slaves
            others
  unfolding run_group fopen_master
  fopen_together unset path mode =
      let (ret, after) = libc.libc_fopen path mode c.here in
      let is_null = if eq_ℤ ret (pos 0) then pos 1 else pos 0 in
      let z = copy_to_shm-writes calls [] 0 c.area (omega arith) ok mapped in
      let (a, others, sent, rest, follow) =
        slaves_follow
          (λ l.
            if eq_ℤ ret (pos 0)
            then (unset, record l { errno = after.errno })
            else libc.libc_fopen path mode l)
          (fopen_slave libc calls' unset path mode) after.errno is_null z.0 z.3 z.4
          (λ s b. fopen_slave-Yields libc calls' after.errno ret s b unset path mode) in
      (
        record { area = a; here = after },
        others,
        rw (z.1, sent, rest, run_group, fopen_master, ◌>>=◌) refl,
        refl,
        follow,
      )
