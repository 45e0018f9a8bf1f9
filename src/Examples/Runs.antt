-- ===== src/Examples/Runs.antt =====
-- Tests of the barrier.
use plr.Prelude.{ℕ, ◌≡◌, true, false, refl}
use plr.Core.State.{System}
use plr.Core.Wait.{wait_barrier, resume}
use plr.Core.Barrier.{release, find_not_waiting}
use plr.Core.Replace.{replace_process_idx}
use plr.SharedData.{init_proc_data_as_copy}
use plr.Compare.{compare_element, compare_args}
use plr.Core.Vote.{find_bad_proc, check_syscall_args_act}
use plr.Examples.Scenario.{fork_from_100, check_call, state_of, two_waiting}

abbrev counts : System → ℕ × ℕ × ℕ
counts s = (s.plr.cond_wait_cnt 0, s.plr.cond_wait_cnt 1, s.plr.cur_wait_idx)

two_waiting-counts : counts two_waiting ≡ (2, 0, 0)
unfolding wait_barrier
two_waiting-counts = refl

three_came-counts :
    counts (state_of (wait_barrier fork_from_100 2 check_call two_waiting)) ≡ (2, 0, 1)
unfolding wait_barrier check_syscall_args_act find_bad_proc compare_args compare_element release
three_came-counts = refl

-- Process 1 has been released and has not left; processes 0 and 2 wait in the next barrier.
abbrev one_late : System
one_late =
    let came = state_of (wait_barrier fork_from_100 2 check_call two_waiting) in
    let left = state_of (resume fork_from_100 0 false came) in
    let next = state_of (wait_barrier fork_from_100 0 check_call left) in
    state_of (wait_barrier fork_from_100 2 check_call next)

-- The watchdog of process 0 replaces process 1, whose child completes the next barrier: one process is counted
-- in the first barrier though none stands in it.
one_late-counts :
    counts
      (state_of (resume fork_from_100 1 false (state_of (resume fork_from_100 0 true one_late))))
    ≡ (1, 2, 0)
unfolding wait_barrier resume check_syscall_args_act find_bad_proc compare_args compare_element
    find_not_waiting replace_process_idx init_proc_data_as_copy
one_late-counts = refl
