-- ===== src/Preload/ReadWrite/Masked.antt =====
-- One wrong byte in the buffer of one process, from the call of `write` over the vote and the
-- replacement to the output.
use plr.Prelude.{
  ℕ, zero, suc, ◌<◌, ◌≡◌, ◌≢◌, Option, some, List, [], ◌∷◌, ◌++◌, All, Both, Both-map, ℤ, pos,
  arith, ap, sym, ◌∙◌, ◌==◌, if◌then◌else◌, if-true, if-false, eq→==, ne→==, ℕ_discrete, false,
  Bool, true, ltb_ℤ, ◌≤◌,
}
use plr.Compare.{SyscallArgs}
use plr.SharedData.ExtraShm.{SystemCalls}
use plr.SharedData.ExtraShm.Laws.{Succeed, Mapped}
use plr.Core.State.{System, done}
use plr.Core.Vote.{find_bad_proc}
use plr.Core.Wait.{resume, wait_loop, rounds}
use plr.Core.Recovery.{OneBad, check_call, recovers}
use plr.Preload.Wrapper.{Local, Libc, Whence, Caller, bytes}
use plr.Preload.Group.{run_group}
use plr.Preload.ReadWrite.{write_master, write_slave}
use plr.Preload.ReadWrite.Laws.{SeekLaws}
use plr.Preload.ReadWrite.Together.{write_together}
use plr.Preload.ReadWrite.Detects.{recorded, recorded_same, write_wrapper-find_bad_proc}

-- Whose memory process `j` has, after process `me` has forked a child for the place of `bad`.
abbrev pub memory_of : (me bad j : ℕ) → ℕ
memory_of me bad j = if j == bad then me else j

module _ {W : Type 0} (libc : Libc W) (calls : SystemCalls) (off_write : ℕ) (fd : ℤ) (count : ℕ)
    (who : ℕ → Local W) (before after : List ℕ) (x y : ℕ) (byte_x : x < 256) (byte_y : y < 256)
    (differ : x ≢ y) where
  abbrev record_of : Local W → SyscallArgs
  record_of = recorded libc calls off_write fd count

  abbrev IsGood : Local W → Type 0
  IsGood l = bytes count l ≡ before ++ x ∷ after

  abbrev IsWrong : Local W → Type 0
  IsWrong l = bytes count l ≡ before ++ y ∷ after

  vote_finds :
      (bad : ℕ)
      → bad < 3
      → ((j : ℕ) → j < 3 → j ≢ bad → IsGood (who j))
      → IsWrong (who bad)
      → find_bad_proc 3 (record_of (who 0)) (record_of (who 1)) (record_of (who 2)) ≡ pos bad
  vote_finds zero h good wrong =
      (write_wrapper-find_bad_proc libc calls off_write fd count (who 1) (who 2) (who 0) before
        after x y (good 1 (omega arith) (λ e. absurd (ground arith)))
        (good 2 (omega arith) (λ e. absurd (ground arith))) wrong byte_x byte_y differ).0
  vote_finds (suc zero) h good wrong =
      (write_wrapper-find_bad_proc libc calls off_write fd count (who 0) (who 2) (who 1) before
        after x y (good 0 (omega arith) (λ e. absurd (ground arith)))
        (good 2 (omega arith) (λ e. absurd (ground arith))) wrong byte_x byte_y differ).1
  vote_finds (suc (suc zero)) h good wrong =
      (write_wrapper-find_bad_proc libc calls off_write fd count (who 0) (who 1) (who 2) before
        after x y (good 0 (omega arith) (λ e. absurd (ground arith)))
        (good 1 (omega arith) (λ e. absurd (ground arith))) wrong byte_x byte_y differ).2
  vote_finds (suc (suc (suc b))) h good wrong = absurd (omega arith)

  module _ (fork : ℕ → Option ℕ) (me bad w pid : ℕ) (expired : Bool) (s : System) where
    -- The state at the vote of process `me`, in barrier `w`, on a call of `write` by three processes, after
    -- each of them has recorded its arguments. One of the other two, `bad`, has a wrong byte in its
    -- buffer.
    pub record OneFault : Type 0 where
      pub three : s.plr.n_proc ≡ 3
      pub voter : me < 3
      pub other : me ≢ bad
      pub inside : bad < 3
      pub started : (s.all_proc bad).pid ≢ 0
      pub apart : (s.process me).self ≢ (s.all_proc bad).pid
      pub forked : fork s.forks ≡ some pid
      pub full : s.plr.cond_wait_cnt w ≡ 3
      pub flag : ltb_ℤ (s.all_proc me).wait_idx (pos 0) ≡ false
      pub stored : (j : ℕ) → j < 3 → (s.all_proc j).syscall_args ≡ record_of (who j)
      pub good : (j : ℕ) → j < 3 → j ≢ bad → IsGood (who j)
      pub wrong : IsWrong (who bad)

    module _ (h : OneFault) where
      open h use {
        three, voter, other, inside, started, apart, forked, full, flag, stored, good, wrong,
      }

      one_bad : OneBad fork me bad w pid expired s
      one_bad = record {
        three = three;
        voter = voter;
        other = other;
        found =
            rw (stored 0 (omega arith), stored 1 (omega arith), stored 2 (omega arith))
              (vote_finds bad inside good wrong);
        inside = inside;
        started = started;
        apart = apart;
        forked = forked;
        full = full;
        flag = flag;
      }

      memory_of-IsGood : (j : ℕ) → j < 3 → IsGood (who (memory_of me bad j))
      memory_of-IsGood j lt = elim (ℕ_discrete j bad) [
        | yes e ↦ ap (λ k. bytes count (who k)) (if-true _ _ (eq→== _ _ e)) ∙ good me voter other
        | no n ↦ ap (λ k. bytes count (who k)) (if-false _ _ (ne→== _ _ n)) ∙ good j lt n
      ]

      same_record : (j : ℕ) → j < 3 → record_of (who me) ≡ record_of (who (memory_of me bad j))
      same_record j lt =
          recorded_same libc calls off_write fd count (who me) (who (memory_of me bad j))
            (good me voter other ∙ sym (memory_of-IsGood j lt))

      module _ (tell : W → ℤ) (laws : SeekLaws libc fd tell) (calls' : SystemCalls)
          (ok : Succeed calls) (ok' : Succeed calls') (valid : ℕ → Bool) (cells : ℕ → ℤ)
          (mapped : (j : ℕ)
            → ((s.all_proc j).extra_shm_mapped ≤ s.plr.extra_shm_size)
              × (0 < (s.all_proc j).extra_shm_mapped → valid j ≡ true))
          (output : W → List ℕ)
          (quiet : (offs : ℤ) (whence : Whence) (l : Local W)
            → output (libc.libc_lseek fd offs whence l).1.world ≡ output l.world)
          (writes : (l : Local W)
            → output (libc.libc_write fd count l).1.world ≡ output l.world ++ bytes count l) where
        -- Process `j` in state `u`: the shared record and its own, and the memory and the pointer to the
        -- area that it has, which the child has from the process that forked it.
        abbrev member : System → ℕ → Caller W
        member u j = record {
          area = record {
            plr = u.plr;
            proc = u.all_proc j;
            extra_shm_valid = valid (memory_of me bad j);
            cells = cells;
          };
          here = who (memory_of me bad j);
        }

        member-Mapped :
            (u : System) (j : ℕ)
            → (u.all_proc j).extra_shm_mapped
              ≡ (if j == bad then 0 else (s.all_proc j).extra_shm_mapped)
            → u.plr.extra_shm_size ≡ s.plr.extra_shm_size
            → Mapped (member u j).area
        member-Mapped u j e size = elim (ℕ_discrete j bad) [
          | yes q ↦
              let none_of : (u.all_proc j).extra_shm_mapped ≡ 0 = e ∙ if-true _ _ (eq→== _ _ q) in
              (omega (arith, none_of), λ h. absurd (omega (arith, none_of, h)))
          | no n ↦
              let as_before : (u.all_proc j).extra_shm_mapped ≡ (s.all_proc j).extra_shm_mapped =
                e ∙ if-false _ _ (ne→== _ _ n) in
              (
                omega (arith, as_before, size, (mapped j).0),
                λ h.
                    ap valid (if-false _ _ (ne→== _ _ n))
                    ∙ (mapped j).1 (omega (arith, as_before, h)),
              )
        ]

        -- Three processes are counted in the barrier of the vote on a call of `write` with one descriptor
        -- and count, each with the arguments of its own call stored, and one of them, the master or a
        -- slave, has one wrong byte in its buffer. The section of one of the other two that votes
        -- replaces it and leaves the barrier; if the child is the next to take the lock, it leaves the
        -- barrier under the pid of the fork; then every place holds the arguments of its process,
        -- where the child has the memory of the process that has forked it. When these three go on
        -- with `write`, with their records as they are then, the slaves in any order, the output grows
        -- by the right bytes, once: the slaves change no output, and all return what the master's call
        -- of libc returned. It is assumed that the bad process is alive under the pid in its place,
        -- that the fork and the system calls for shared memory succeed, that no process has mapped
        -- more than there is, that libc writes all bytes of the buffer, and of `lseek` that it moves
        -- the offset and changes neither the buffer nor the output.
        pub write_masked :
            (i k j : ℕ)
            → j < 3
            → let memory : ℕ → Local W = λ n. who (memory_of me bad n) in
              (t u : System) × (m : Caller W) × (others : List (ℤ × Caller W)) × (wait_loop fork
                  rounds me w expired check_call s
                ≡ done tt t)
              × (resume fork bad false t ≡ done tt u)
              × ((u.process bad).self ≡ pid)
              × ((u.all_proc j).syscall_args ≡ record_of (memory j))
              × (run_group
                    (write_master libc calls fd count)
                    (write_slave libc calls' fd)
                    (member u 0)
                    (member u i ∷ member u k ∷ [])
                  ≡ some (((libc.libc_write fd count (memory 0)).0, m) ∷ others))
              × (output m.here.world ≡ output (memory 0).world ++ (before ++ x ∷ after))
              × Both
                  (λ s out.
                    (out.0 ≡ (libc.libc_write fd count (memory 0)).0)
                    × (output out.1.here.world ≡ output s.here.world))
                  (member u i ∷ member u k ∷ [])
                  others
        unfolding All
        write_masked i k j lt =
            let memory : ℕ → Local W = λ n. who (memory_of me bad n) in
            let (t, u, voted, joined, agreed, self, proc, size) =
              recovers fork me bad w pid expired s one_bad in
            let (m, others, done_by_all, out, follow) =
              write_together libc fd tell laws calls calls' ok ok' count (member u 0)
                (member u i ∷ member u k ∷ []) (member-Mapped u 0 (proc 0) size)
                (member-Mapped u i (proc i) size, (member-Mapped u k (proc k) size, tt)) output
                quiet in
            (
              t,
              u,
              m,
              others,
              voted,
              joined,
              self,
              agreed j lt ∙ stored me voter ∙ same_record j lt,
              done_by_all,
              out
                  ∙ writes (memory 0)
                  ∙ ap (λ bs. output (memory 0).world ++ bs) (memory_of-IsGood 0 (omega arith)),
              Both-map (member u i ∷ member u k ∷ []) others (λ s out f. (f.0, f.1)) follow,
            )
