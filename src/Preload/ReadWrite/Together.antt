-- ===== src/Preload/ReadWrite/Together.antt =====
-- `read` and `write` in the whole group: one call of libc, and every process goes on with its outcome.
use plr.Prelude.{
  ℕ, ◌≡◌, refl, some, List, [], ◌∷◌, All, All-map, Both, if◌then◌else◌, ℤ, negsuc, eq_ℤ, arith, ap,
  ◌∙◌,
}
use plr.SharedData.ExtraShm.{SystemCalls, read_cells}
use plr.SharedData.ExtraShm.Laws.{
  Succeed, Mapped, copy_to_shm-writes, copy_from_shm-reads, read_cells-write_cells,
}
use plr.Preload.Wrapper.{Local, Libc, Whence, Caller, ◌>>=◌}
use plr.Preload.Group.{run_group, run_slaves-Both}
use plr.Preload.ReadWrite.{offset_after, follow_master, write_master, write_slave}
use plr.Preload.ReadWrite.Laws.{
  seen_by, SeekLaws, offset_after-tell, follow_master-tell, offset_after-output,
  follow_master-output,
}

module _ {W : Type 0} (libc : Libc W) (fd : ℤ) (tell : W → ℤ) (laws : SeekLaws libc fd tell)
    (calls calls' : SystemCalls) (ok : Succeed calls) (ok' : Succeed calls') (count : ℕ)
    (c : Caller W) (slaves : List (Caller W)) (mapped : Mapped c.area)
    (all_mapped : All (λ s. Mapped (seen_by s.area c.area)) slaves) where
  module _ {O : Type 0} (output : W → O)
      (quiet : (offs : ℤ) (whence : Whence) (l : Local W)
        → output (libc.libc_lseek fd offs whence l).1.world ≡ output l.world) where
    -- `write` in a group of any size, the slaves in any order, where no two processes share the offset of an
    -- open file: the output changes as by one call of libc, that of
    -- the master, and every process returns what that call returned. Every slave has the `errno` of
    -- the call, and its file offset is the master's, if the call has not failed. It is assumed that
    -- the system calls for shared memory succeed, and of `lseek` that it moves the offset and changes
    -- neither the buffer nor the output.
    pub write_together :
        let (ret, after) = libc.libc_write fd count c.here in
        (m : Caller W) × (others : List (ℤ × Caller W)) × (run_group
            (write_master libc calls fd count)
            (write_slave libc calls' fd)
            c
            slaves
          ≡ some ((ret, m) ∷ others))
        × (output m.here.world ≡ output after.world)
        × Both
            (λ s out.
              (out.0 ≡ ret)
              × (output out.1.here.world ≡ output s.here.world)
              × (out.1.here.errno ≡ after.errno)
              × (tell out.1.here.world
                  ≡ (if eq_ℤ ret (negsuc 0) then tell s.here.world else tell m.here.world)))
            slaves
            others
    unfolding run_group write_master write_slave follow_master
    write_together =
        let (ret, after) = libc.libc_write fd count c.here in
        let sought = offset_after libc calls fd ret after in
        let shm_dat = after.errno ∷ ret ∷ sought.0 ∷ [] in
        let w = copy_to_shm-writes calls shm_dat 0 c.area (omega arith) ok mapped in
        let header = ap (read_cells 3 0) w.2 ∙ read_cells-write_cells 0 shm_dat c.area.cells in
        let m : Caller W = record { area = w.0; here = sought.1 } in
        let Q : Caller W → ℤ × Caller W → Type 0 = λ s out.
          (out.0 ≡ ret)
          × (output out.1.here.world ≡ output s.here.world)
          × (out.1.here.errno ≡ after.errno)
          × (tell out.1.here.world
              ≡ (if eq_ℤ ret (negsuc 0) then tell s.here.world else tell m.here.world)) in
        let (others, rest, good) =
          run_slaves-Both Q (write_slave libc calls' fd) w.0 slaves w.0 refl refl (
            All-map slaves
              (λ s mapped'.
                let waiting : Caller W = record s { area = seen_by s.area w.0 } in
                let r =
                  copy_from_shm-reads calls' 3 0 waiting.area (omega (arith, w.5, w.6)) ok'
                    (omega (arith, mapped'.0, w.4), mapped'.1) in
                let got = r.1 ∙ ap (λ xs. some (xs, r.0)) header in
                let at =
                  offset_after-tell libc fd tell laws calls calls' ok ok' ret (tell s.here.world)
                    after in
                let f =
                  follow_master-tell libc fd tell laws calls calls' ok ok' after.errno ret sought.0
                    s.here at.0 in
                let t : Caller W = record {
                  area = r.0;
                  here = follow_master libc calls' fd after.errno ret sought.0 s.here;
                } in
                (
                  (ret, t),
                  rw (got, write_slave, ◌>>=◌) refl,
                  (
                    refl,
                    follow_master-output libc fd tell laws calls calls' ok ok' output quiet
                        after.errno ret sought.0 s.here,
                    refl,
                    f.1 ∙ at.1,
                  ),
                  r.4,
                  r.3,
                ))
              all_mapped) in
        (
          m,
          others,
          rw (w.1, rest, run_group, write_master, ◌>>=◌) refl,
          offset_after-output libc fd tell laws calls calls' ok ok' output quiet ret after,
          good,
        )
