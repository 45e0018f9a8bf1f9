-- ===== src/Core/Vote.antt =====
-- plrCommon/plr.c: `plr_checkSyscallArgs_act`, the vote of three processes on their arguments.
use plr.Prelude.{ℕ, Option, ◌==◌, ltb, if◌then◌else◌, ◌&&◌}
use plr.Prelude.{ℤ, pos, negsuc, eq_ℤ, ltb_ℤ, pos_part}
use plr.Compare.{SyscallArgs, compare_args}
use plr.SharedData.{PerProcData}
use plr.Core.State.{Phase, M, done, ◌>>=◌, pure, exit_locked}
use plr.Core.Replace.{replace_process_idx}

-- The value of `badProc`: -1 if all agree, the index of the one that disagrees, or `nProc`.
unfoldable pub find_bad_proc : ℕ → SyscallArgs → SyscallArgs → SyscallArgs → ℤ
find_bad_proc n_proc args0 args1 args2 =
    let comp0vs1 = compare_args args0 args1 in
    let comp1vs2 = compare_args args1 args2 in
    if (comp0vs1 == 0) && (comp1vs2 == 0)
    then negsuc 0
    else (let comp0vs2 = compare_args args0 args2 in
        if ltb 0 comp0vs1 && (comp1vs2 == 0)
        then pos 0
        else (if ltb 0 comp0vs1 && (comp0vs2 == 0)
            then pos 1
            else (if ltb 0 comp0vs2 && (comp0vs1 == 0) then pos 2 else pos n_proc)))

module _ (fork : ℕ → Option ℕ) where
  -- What is done about the value of `badProc`.
  unfoldable pub act_on_bad_proc : ℕ → (PerProcData → Phase) → ℤ → M ℤ
  act_on_bad_proc me born bad_proc s =
      if eq_ℤ bad_proc (negsuc 0)
      then done (pos 0) s
      else (if ltb_ℤ (negsuc 0) bad_proc && ltb_ℤ bad_proc (pos s.plr.n_proc)
          then (if me == pos_part bad_proc
              then done (pos 1) s
              else (do
                ret ← replace_process_idx fork me born (pos_part bad_proc)
                if ltb_ℤ ret (pos 0) then pure (negsuc 0) else pure (pos 0))
                  s)
          else done (negsuc 0) s)

  -- `plr_checkSyscallArgs_act`, run by process `me`
  unfoldable pub check_syscall_args_act : ℕ → (PerProcData → Phase) → M ℤ
  unfolding act_on_bad_proc
  check_syscall_args_act me born s =
      if s.plr.n_proc == 3
      then act_on_bad_proc me born
          (find_bad_proc s.plr.n_proc (s.all_proc 0).syscall_args (s.all_proc 1).syscall_args
            (s.all_proc 2).syscall_args)
          s
      else exit_locked me s
