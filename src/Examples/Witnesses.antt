-- ===== src/Examples/Witnesses.antt =====
-- Instances of the theorems at concrete inputs.
use plr.Prelude.{
  ◌≤◌, ◌≡◌, ◌≢◌, ◌↔◌, refl, true, false, arith, [], ◌∷◌, total, pos, negsuc, ◌+ℤ◌, ◌*ℤ◌, ◌≤ℤ◌,
}
use plr.Compare.{SyscallArgs, zero_args, compare_args}
use plr.Compare.Laws.{differs, compare_args_mask}
use plr.Core.State.{System, signal}
use plr.Core.Vote.{find_bad_proc}
use plr.Prelude.{div_ℤ, if◌then◌else◌, ◌==◌, ◌+◌}
use plr.Compare.{compare_element}
use plr.Core.State.{done, waiting, outside}
use plr.Core.Vote.{check_syscall_args_act}
use plr.Core.Majority.{find_bad_proc_majority}
use plr.Core.Barrier.{timed_wait, exit_barrier}
use plr.Core.Wait.{wait_barrier, resume}
use plr.Core.Deadline.{slave_exits}
use plr.Core.Places.{weight, places}
use plr.Core.Reach.{Ends}
use plr.Core.Reach.Safety.{counters_exact, resume-Ends, no_early_exit, other_counter_zero}
use plr.Util.Strings.{expand_escapes}
use plr.Util.Strings.Laws.{read_escapes, read-expand_escapes}
use plr.Util.Time.{Timespec, tspec_add_ms, million}
use plr.Util.Time.Laws.{total_ns, IsNormal, tspec_add_ms_deadline}
use plr.Util.Log.{check_log_settings, value, unset, log_none, log_all}
use plr.Util.Log.Laws.{check_log_settings_stable}
use plr.Prelude.{All, Any, ℕ_discrete, ℕ, List, Bool, ◌<◌, inl, inr}
use plr.Core.State.{◌>>◌}
use plr.Core.Reach.Drain.{resume_all}
use plr.Core.Reach.Progress.{last_releases}
use plr.Examples.Scenario.{
  proc_at, three_running, fork_from_100, limit_from_100, fresh_from_100, check_call, master_call,
  three_running-Good, one_waiting, one_waiting-Reach, one_waiting-AllPrompt, two_waiting,
  two_waiting-Reach, two_waiting-AllPrompt, all_waiting, all_waiting-Reach, all_waiting-AllPrompt,
}

abbrev write_2 : SyscallArgs
write_2 = record zero_args { addr = 1000; arg0 = 2; arg2 = 8 }

abbrev write_3 : SyscallArgs
write_3 = record zero_args { addr = 1000; arg0 = 3; arg2 = 7 }

compare_args_mask_example : compare_args write_2 write_3 ≡ 10
unfolding differs
compare_args_mask_example = compare_args_mask write_2 write_3

find_bad_proc_majority_example :
    ((find_bad_proc 3 write_2 write_3 write_2 ≡ negsuc 0)
      ↔ ((write_2 ≡ write_3) × (write_3 ≡ write_2)))
    × ((find_bad_proc 3 write_2 write_3 write_2 ≡ pos 0)
        ↔ ((write_2 ≢ write_3) × (write_3 ≡ write_2)))
    × ((find_bad_proc 3 write_2 write_3 write_2 ≡ pos 1)
        ↔ ((write_2 ≢ write_3) × (write_2 ≡ write_2)))
    × ((find_bad_proc 3 write_2 write_3 write_2 ≡ pos 2)
        ↔ ((write_2 ≡ write_3) × (write_2 ≢ write_2)))
    × ((find_bad_proc 3 write_2 write_3 write_2 ≡ pos 3)
        ↔ ((write_2 ≢ write_3) × (write_2 ≢ write_2) × (write_3 ≢ write_2)))
find_bad_proc_majority_example = find_bad_proc_majority write_2 write_3 write_2

no_early_exit_example :
    resume fork_from_100 0 false one_waiting ≡ timed_wait 0 0 false check_call one_waiting
unfolding wait_barrier
no_early_exit_example =
    no_early_exit fork_from_100 limit_from_100 fresh_from_100 three_running-Good one_waiting-Reach
      one_waiting-AllPrompt refl 0 1 0 false check_call (omega arith) (omega arith) refl refl
      (λ e. absurd (ground arith))

counters_exact_example :
    (two_waiting.plr.cond_wait_cnt 0
      ≡ total (weight 0) two_waiting.plr.n_proc (places two_waiting).place)
    × (two_waiting.plr.cond_wait_cnt 0 ≤ two_waiting.plr.n_proc)
unfolding wait_barrier
counters_exact_example =
    counters_exact fork_from_100 limit_from_100 fresh_from_100 three_running-Good two_waiting-Reach
      two_waiting-AllPrompt refl 0

resume-Ends_example : (t : System) × Ends (resume fork_from_100 0 false one_waiting) t
unfolding wait_barrier
resume-Ends_example =
    resume-Ends fork_from_100 limit_from_100 fresh_from_100 three_running-Good one_waiting-Reach
      one_waiting-AllPrompt refl 0 false (omega arith) tt (λ e. absurd (ground arith))

other_counter_zero_example : all_waiting.plr.cond_wait_cnt 1 ≡ 0
unfolding wait_barrier
other_counter_zero_example =
    other_counter_zero fork_from_100 limit_from_100 fresh_from_100 three_running-Good
      all_waiting-Reach all_waiting-AllPrompt refl 1 refl (λ e. absurd (ground arith))

slave_exits_example :
    resume fork_from_100 1 true all_waiting ≡ exit_barrier 1 0 (signal 0 0 all_waiting)
unfolding wait_barrier
slave_exits_example =
    slave_exits fork_from_100 1 0 all_waiting master_call.action
      (record {
        slave = λ e. absurd (ground arith);
        acts = λ e. absurd (ground arith);
        inside = omega arith;
        current = refl;
        full = refl;
        flags = λ j p. ground arith;
        calm = refl;
      })
      false true false refl refl

read-expand_escapes_example : read_escapes (expand_escapes (10 ∷ 92 ∷ [])) ≡ 10 ∷ 92 ∷ []
read-expand_escapes_example = read-expand_escapes (10 ∷ 92 ∷ [])

abbrev early : Timespec
early = record { sec = pos 5; nsec = pos 900000000 }

abbrev late : Timespec
late = record { sec = pos 8; nsec = pos 300000000 }

tspec_add_ms_deadline_example :
    IsNormal (tspec_add_ms early (pos 200))
    × (total_ns (tspec_add_ms early (pos 200)) ≡ total_ns early +ℤ pos 200 *ℤ million)
unfolding ◌+ℤ◌ ◌*ℤ◌ div_ℤ
tspec_add_ms_deadline_example =
    tspec_add_ms_deadline early (pos 200) (omega arith, omega arith, omega arith) (omega arith)
      (omega arith) (omega arith)

check_log_settings_stable_example :
    (log_none ≤ℤ check_log_settings (value (pos 3)) (negsuc 0))
    × (check_log_settings (value (pos 3)) (negsuc 0) ≤ℤ log_all)
    × (check_log_settings unset (check_log_settings (value (pos 3)) (negsuc 0))
        ≡ check_log_settings (value (pos 3)) (negsuc 0))
check_log_settings_stable_example = check_log_settings_stable (value (pos 3)) unset

-- The three processes have recorded a call, process 1 another one than the other two; processes 0 and 1
-- wait for the vote, and process 2, the last to come, is at the top of the wait loop.
abbrev voting : System
voting = record three_running {
  plr = record (three_running.plr) { cond_wait_cnt = λ k. if k == 0 then 3 else 0 };
  all_proc = λ i. record (proc_at i) {
    wait_idx = pos 0;
    syscall_args = if i == 1 then write_3 else write_2;
  };
  process = λ i. record {
    self = 10 + i;
    phase = if i == 2 then outside else waiting 0 false false check_call;
  };
}

-- Process 0 gets the lock by a signal, process 1 by a timeout.
abbrev both_others : List (ℕ × Bool)
both_others = (0, false) ∷ (1, true) ∷ []

serves_both : (j : ℕ) → j < 3 → j ≢ 2 → Any (λ x. x.0 ≡ j) both_others
unfolding Any
serves_both j p q = elim (ℕ_discrete 0 j) [ yes e ↦ inl e | no e ↦ inr (inl (omega arith)) ]

last_releases_example :
    (t : System) × ((wait_barrier fork_from_100 2 check_call
          >> resume_all fork_from_100 both_others)
        two_waiting
      ≡ done tt t)
    × ((j : ℕ) → j < t.plr.n_proc → (t.process j).phase ≡ outside)
    × ((k : ℕ) → t.plr.cond_wait_cnt k ≡ 0)
    × (t.plr.n_proc ≡ 3)
    × (t.plr.cur_wait_idx ≡ 1)
unfolding wait_barrier All check_syscall_args_act find_bad_proc compare_args compare_element
last_releases_example =
    last_releases fork_from_100 limit_from_100 fresh_from_100 three_running-Good two_waiting-Reach
      two_waiting-AllPrompt refl 2 check_call (omega arith) refl tt refl refl both_others
      (omega arith, (omega arith, tt)) serves_both
