-- ===== src/Core/Deadline.antt =====
-- A watchdog that expires while all processes wait for the master.
use plr.Prelude.{
  ℕ, zero, suc, ◌+◌, ◌<◌, ◌≡◌, ◌≢◌, refl, Option, none, Bool, true, false, ◌||◌, ne→==, eq→==, ltb,
  if-false, arith, pos, negsuc, ltb_ℤ, ◌∙◌, ap,
}
use mathlib.Core.Bool.{false≢true}
use plr.SharedData.{PerProcData}
use plr.Core.State.{
  Action, null, check_syscall_args, run, Call, master, waiting, System, M, done, ◌>>=◌, signal,
}
use plr.Core.Barrier.{find_not_waiting, exit_barrier}
use plr.Core.Wait.{
  barrier_action, check_exit, may_run, replace_missing, watchdog_expired, watchdog_round, wait_loop,
  rounds, resume, resume_phase,
}

find_not_waiting-none :
    (left i : ℕ) (all_proc : ℕ → PerProcData)
    → ((j : ℕ) → j < i + left → ltb_ℤ (all_proc j).wait_idx (pos 0) ≡ false)
    → find_not_waiting left i all_proc ≡ none
unfolding find_not_waiting
find_not_waiting-none zero i all_proc h = refl
find_not_waiting-none (suc left) i all_proc h =
    if-false _ _ (h i (omega arith))
    ∙ find_not_waiting-none left (i + 1) all_proc (λ j p. h j (omega arith))

module _ (fork : ℕ → Option ℕ) (me w : ℕ) (s : System) (action : Action) where
  abbrev call : Call
  call = record { action = action; action_type = master }

  -- Process `me` is a slave, all processes wait in barrier `w`, and none is being replaced.
  pub record AllWait : Type 0 where
    pub slave : me ≢ 0
    pub acts : action ≢ null
    pub inside : me < s.plr.n_proc
    pub current : s.plr.cur_wait_idx ≡ w
    pub full : s.plr.cond_wait_cnt w ≡ s.plr.n_proc
    pub flags : (j : ℕ) → j < s.plr.n_proc → ltb_ℤ (s.all_proc j).wait_idx (pos 0) ≡ false
    pub calm : s.plr.restoring ≡ false

  module _ (h : AllWait) where
    open h use {slave, acts, inside, current, full, flags, calm}

    woken : System
    woken = signal w 0 s

    no_action :
        (a : Action)
        → a ≢ null
        → barrier_action fork me w (record { action = a; action_type = master }) s
          ≡ done false woken
    unfolding barrier_action may_run woken
    no_action null n = absurd (n refl)
    no_action check_syscall_args n = rw (ne→== me 0 slave, ◌>>=◌) refl
    no_action (run act) n = rw (ne→== me 0 slave, ◌>>=◌) refl

    no_exit : check_exit fork me w call s ≡ done false woken
    unfolding check_exit
    no_exit = rw (flags me inside, eq→== _ _ full, no_action action acts, ◌>>=◌, check_exit) refl

    missing : find_not_waiting s.plr.n_proc 0 s.all_proc ≡ none
    missing = find_not_waiting-none s.plr.n_proc 0 s.all_proc (λ j p. flags j (omega arith))

    enough : ltb (s.plr.cond_wait_cnt s.plr.cur_wait_idx + 1) s.plr.n_proc ≡ false
    enough = let e = ap s.plr.cond_wait_cnt current ∙ full in ground arith

    none_missing : replace_missing fork me w call woken ≡ done (negsuc 0) woken
    unfolding replace_missing woken signal
    none_missing = rw (enough, missing, replace_missing) refl

    gives_up : watchdog_expired fork me w call woken ≡ done (negsuc 0) woken
    unfolding watchdog_expired woken signal
    gives_up = if-false _ _ calm ∙ none_missing

    round :
        (again : M (Unit {0})) → watchdog_round fork me w call again woken ≡ exit_barrier me w woken
    unfolding watchdog_round
    round again = rw (gives_up, ◌>>=◌) refl

    exits :
        (expired : Bool)
        → expired ≡ true
        → wait_loop fork rounds me w expired call s ≡ exit_barrier me w woken
    exits false e = absurd (false≢true e)
    exits true e = unfold wait_loop in rw (no_exit, ◌>>=◌) (round (wait_loop fork 1 me w true call))

    -- A slave whose watchdog has expired once, and that takes the lock while all processes wait for
    -- the master to run its action, ends with `exit(1)` and takes back its count: no process is
    -- missing, and so `plr_watchdogExpired` returns -1.
    pub slave_exits :
        (expired timed_out k : Bool)
        → (expired || timed_out) ≡ true
        → (s.process me).phase ≡ waiting w expired k call
        → resume fork me timed_out s ≡ exit_barrier me w (signal w 0 s)
    unfolding resume resume_phase woken
    slave_exits expired timed_out k e ph =
        ap (λ p. resume_phase fork me timed_out p s) ph ∙ exits (expired || timed_out) e
