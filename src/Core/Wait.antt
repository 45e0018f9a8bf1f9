-- ===== src/Core/Wait.antt =====
-- plrCommon/plr.c: `plr_watchdogExpired` and the wait loop of `plr_waitBarrier`.
use plr.Prelude.{ℕ, zero, suc, ◌+◌, Bool, true, false, Option, none, some, ◌==◌, ltb}
use plr.Prelude.{if◌then◌else◌, ◌&&◌, ◌||◌, not, update, ℤ, pos, negsuc, ltb_ℤ, eq_ℤ}
use plr.SharedData.{init_proc_data_as_copy}
use plr.Core.State.{
  WaitActionType, any, master, slave, Reply, returns, exits, Action, null, check_syscall_args, run,
  Call, Phase, gone, outside, waiting, forked_in_action, forked_in_watchdog, M, done, out_of_fuel,
  ◌>>=◌, pure, modify_proc, add_wait_cnt, exit_locked, signal,
}
use plr.Core.Replace.{replace_process_idx}
use plr.Core.Vote.{check_syscall_args_act}
use plr.Core.Barrier.{
  is_master_process, find_not_waiting, signal_all, signal_other, set_restoring, set_wait_idx,
  exit_barrier, release, leave, timed_wait,
}

-- The switch on `actionType`: whether this process runs the action, and the signals if not.
unfoldable pub may_run : ℕ → ℕ → WaitActionType → M Bool
may_run me w any s = done true s
may_run me w master s = if is_master_process me then done true s else done false (signal w 0 s)
may_run me w slave s = if is_master_process me then done false (signal w 1 s) else done true s

-- A process with a reply of an action function of the caller.
unfoldable pub take_reply : ℕ → Reply → M ℤ
take_reply me (returns ret plr proc) s =
    done ret (record s { plr = plr; all_proc = update s.all_proc me proc })
take_reply me exits s = exit_locked me s

-- The use of the action's return value: whether the action has succeeded.
unfoldable pub use_result : ℕ → ℕ → ℤ → M Bool
use_result me w ret s =
    if ltb_ℤ ret (pos 0)
    then exit_barrier me w s
    else (if eq_ℤ ret (pos 0) then done true s else done false (signal_other me w s))

-- Rounds of the loop in one section: after a replacement `restoring` is set and stops a second.
abbrev pub rounds : ℕ
rounds = 2

module _ (fork : ℕ → Option ℕ) where
  -- The call `actionPtr()` of process `me`, with its result.
  unfoldable pub call_action : ℕ → ℕ → Action → M Bool
  unfolding take_reply use_result
  call_action me w null = pure true
  call_action me w check_syscall_args = do
    ret ← check_syscall_args_act fork me (λ parent. forked_in_action parent w)
    use_result me w ret
  call_action me w (run act) =
      λ s. (do ret ← take_reply me (act s.plr (s.all_proc me)); use_result me w ret) s

  -- The part of the loop that is reached when all processes wait: `actionSuccess`.
  unfoldable pub barrier_action : ℕ → ℕ → Call → M Bool
  unfolding call_action may_run
  barrier_action me w call = elim call.action [
    | null ↦ pure true
    | other ↦ do
      runs ← may_run me w call.action_type
      if runs then call_action me w other else pure false
  ]

  -- The exit conditions at the top of the loop: whether the process leaves it.
  unfoldable pub check_exit : ℕ → ℕ → Call → M Bool
  unfolding barrier_action
  check_exit me w call s =
      if ltb_ℤ (s.all_proc me).wait_idx (pos 0)
      then done true s
      else (if s.plr.cond_wait_cnt w == s.plr.n_proc
          then (do
            success ← barrier_action me w call
            if success then (λ t. done true (release me w t)) else pure false)
              s
          else done false s)

  -- The part of `plr_watchdogExpired` behind its first return.
  unfoldable pub replace_missing : ℕ → ℕ → Call → M ℤ
  replace_missing me w call s =
      let wait_idx = s.plr.cur_wait_idx in
      if ltb (s.plr.cond_wait_cnt wait_idx + 1) s.plr.n_proc
      then done (negsuc 0) s
      else elim (find_not_waiting s.plr.n_proc 0 s.all_proc) [
        | none ↦ done (negsuc 0) s
        | some i ↦
            (do
              ret ←
                  replace_process_idx fork me (λ parent. forked_in_watchdog parent w wait_idx call)
                    i
              if ltb_ℤ ret (pos 0) then pure (negsuc 0) else pure (pos 1))
              (set_restoring true s)
      ]

  -- `plr_watchdogExpired` in the process that calls it; its child goes on in `resume`.
  unfoldable pub watchdog_expired : ℕ → ℕ → Call → M ℤ
  unfolding replace_missing
  watchdog_expired me w call s =
      if s.plr.restoring then done (pos 0) s else replace_missing me w call s

  -- The rest of a round when the watchdog has expired; `again` is the next round.
  unfoldable pub watchdog_round : ℕ → ℕ → Call → M (Unit {0}) → M (Unit {0})
  unfolding watchdog_expired exit_barrier timed_wait
  watchdog_round me w call again s =
      (do
        ret ← watchdog_expired me w call
        if ltb_ℤ ret (pos 0)
            then exit_barrier me w
            else (if eq_ℤ ret (pos 1) then again else timed_wait me w true call))
        s

  -- The loop of `plr_waitBarrier`, at most `fuel` rounds of it up to the next wait.
  unfoldable pub wait_loop : (fuel me w : ℕ) → Bool → Call → M (Unit {0})
  unfolding check_exit watchdog_round leave timed_wait
  wait_loop zero me w expired call = λ _. out_of_fuel
  wait_loop (suc fuel) me w expired call =
      let again = wait_loop fuel me w expired call in
      λ s.
        (do
          exit ← check_exit me w call
          if exit
              then leave me w
              else (if expired
                  then watchdog_round me w call again
                  else timed_wait me w expired call))
          s

  -- `plr_waitBarrier` of process `me`, up to its first wait.
  unfoldable pub wait_barrier : ℕ → Call → M (Unit {0})
  unfolding wait_loop signal_all
  wait_barrier me call s =
      if not ((s.all_proc me).pid == (s.process me).self)
      then done tt s
      else (let w = s.plr.cur_wait_idx in
          if ltb s.plr.n_proc (s.plr.cond_wait_cnt w)
          then exit_locked me s
          else (let t = add_wait_cnt w (set_wait_idx me (pos w) s) in
              let n = t.plr.n_proc in
              let u =
                if ltb 1 (t.plr.cond_wait_cnt w) && ltb (t.plr.cond_wait_cnt w) n
                then signal_all n w t
                else t in
              wait_loop rounds me w false call u))

  -- The section that begins when a process in the given phase has the lock again: after its wait,
  -- or as a new child after its `pthread_mutex_lock`. In other phases nothing waits for the lock.
  unfoldable pub resume_phase : ℕ → Bool → Phase → M (Unit {0})
  unfolding wait_loop release leave
  resume_phase me timed_out gone s = done tt s
  resume_phase me timed_out outside s = done tt s
  resume_phase me timed_out (waiting w expired woken call) s =
      wait_loop rounds me w (expired || timed_out) call s
  resume_phase me timed_out (forked_in_action parent w) s =
      let t = modify_proc me (λ p. init_proc_data_as_copy (s.process me).self p parent) s in
      leave me w (release me w t)
  resume_phase me timed_out (forked_in_watchdog parent w captured call) s =
      let t = modify_proc me (λ p. init_proc_data_as_copy (s.process me).self p parent) s in
      let u = add_wait_cnt captured (set_wait_idx me (pos t.plr.cur_wait_idx) t) in
      wait_loop rounds me w true call (set_restoring false u)

  unfoldable pub resume : ℕ → Bool → M (Unit {0})
  unfolding resume_phase
  resume me timed_out s = resume_phase me timed_out (s.process me).phase s
