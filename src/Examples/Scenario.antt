-- ===== src/Examples/Scenario.antt =====
-- Three processes that have just been started, and some calls of the barrier.
use plr.Prelude.{ℕ, ◌+◌, Option, some, false, true, refl, arith, sym, total-zero}
use plr.Prelude.{pos, negsuc}
use plr.SharedData.{PerProcData, zero_proc}
use plr.Core.State.{
  any, master, check_syscall_args, run, returns, Call, outside, System, Run, done, ended,
  out_of_fuel,
}
use plr.Core.Wait.{wait_barrier}
use plr.Core.Places.{weight, places, Good, FreshPids}
use plr.Core.Invariant.Exit.{ActionOk}
use plr.Core.Reach.{Reach, AllPrompt, here, next, enter}

-- The kernel gives the pids 100, 101, ... to new children.
abbrev pub fork_from_100 : ℕ → Option ℕ
fork_from_100 n = some (100 + n)

abbrev pub limit_from_100 : ℕ → ℕ
limit_from_100 n = 100 + n

pub fresh_from_100 : FreshPids fork_from_100 limit_from_100
fresh_from_100 = record {
  range = λ k p e. (ground arith, ground arith);
  mono = λ k. omega arith;
  positive = omega arith;
}

abbrev pub check_call : Call
check_call = record { action = check_syscall_args; action_type = any }

-- A master action that changes nothing.
abbrev pub master_call : Call
master_call = record { action = run (λ plr proc. returns (pos 0) plr proc); action_type = master }

abbrev pub proc_at : ℕ → PerProcData
proc_at i = record zero_proc { pid = 10 + i; wait_idx = negsuc 0 }

abbrev pub three_running : System
three_running = record {
  plr = record {
    figurehead_pid = 9;
    n_proc = 3;
    watchdog_timeout = pos 200;
    cur_wait_idx = 0;
    cond_wait_cnt = λ _. 0;
    restoring = false;
    extra_shm_size = 0;
    inside_plr_init_true = 0;
    did_process_init = true;
  };
  all_proc = proc_at;
  process = λ i. record { self = 10 + i; phase = outside };
  forks = 0;
  lock_lost = false;
}

pub three_running-Good : Good limit_from_100 (places three_running)
three_running-Good = record {
  index = omega arith;
  count = λ k. sym (total-zero (weight k) 3 (places three_running).place (λ j p. refl));
  fits = λ i p. (refl, refl);
  distinct = λ i j p q n e. n (omega arith);
  known = λ i p. (omega arith, omega arith);
  one_child = λ i j w v w' v' p q e e'. absurd (ground arith);
}

-- The state in which a section ends.
abbrev pub state_of : Run (Unit {0}) → System
state_of (done _ s) = s
state_of (ended s) = s
state_of out_of_fuel = three_running

-- Process 0 waits for the vote, the others have not come yet.
abbrev pub one_waiting : System
one_waiting = state_of (wait_barrier fork_from_100 0 check_call three_running)

pub one_waiting-Reach : Reach fork_from_100 three_running one_waiting
unfolding wait_barrier
one_waiting-Reach = next here (enter 0 check_call (omega arith) refl refl tt refl)

pub one_waiting-AllPrompt : AllPrompt one_waiting-Reach
unfolding one_waiting-Reach
one_waiting-AllPrompt = (tt, tt)

abbrev pub two_waiting : System
two_waiting = state_of (wait_barrier fork_from_100 1 check_call one_waiting)

pub two_waiting-Reach : Reach fork_from_100 three_running two_waiting
unfolding wait_barrier
two_waiting-Reach = next one_waiting-Reach (enter 1 check_call (omega arith) refl refl tt refl)

pub two_waiting-AllPrompt : AllPrompt two_waiting-Reach
unfolding one_waiting-Reach two_waiting-Reach
two_waiting-AllPrompt = ((tt, tt), tt)

pub master_call-ActionOk : ActionOk master_call.action
master_call-ActionOk = record { keeps = λ plr plr' proc proc' ret e. (cc, cc, cc, cc, cc, cc) }

-- All processes have come, the slaves after the master, and wait for its action.
abbrev pub all_waiting : System
all_waiting = state_of (
    wait_barrier fork_from_100 2 master_call (
      state_of (
        wait_barrier fork_from_100 1 master_call
          (state_of (wait_barrier fork_from_100 0 master_call three_running)))))

pub all_waiting-Reach : Reach fork_from_100 three_running all_waiting
unfolding wait_barrier
all_waiting-Reach =
    next
      (next (next here (enter 0 master_call (omega arith) refl refl master_call-ActionOk refl))
        (enter 1 master_call (omega arith) refl refl master_call-ActionOk refl))
      (enter 2 master_call (omega arith) refl refl master_call-ActionOk refl)

pub all_waiting-AllPrompt : AllPrompt all_waiting-Reach
unfolding all_waiting-Reach
all_waiting-AllPrompt = (((tt, tt), tt), tt)
