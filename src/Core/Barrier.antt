-- ===== src/Core/Barrier.antt =====
-- plrCommon/plr.c: `plr_watchdogExpired` and `plr_waitBarrier`. Each section begins with the lock
-- held and ends when the process waits on its condition variable, leaves the barrier or ends.
use plr.Prelude.{ℕ, zero, suc, ◌+◌, Bool, false, Option, none, some, ◌==◌, ltb, if◌then◌else◌}
use plr.Prelude.{ℤ, pos, negsuc, ltb_ℤ}
use plr.SharedData.{PerProcData}
use plr.Core.State.{
  Call, gone, outside, waiting, System, M, done, ended, set_phase, modify_proc, sub_wait_cnt,
  signal,
}

-- `plr_isMasterProcess`
abbrev pub is_master_process : ℕ → Bool
is_master_process me = me == 0

-- The first `i` from `i` on, among `left` places, whose wait flag is negative.
unfoldable pub find_not_waiting : (left i : ℕ) → (ℕ → PerProcData) → Option ℕ
find_not_waiting zero i all_proc = none
find_not_waiting (suc left) i all_proc =
    let rest = find_not_waiting left (i + 1) all_proc in
    if ltb_ℤ (all_proc i).wait_idx (pos 0) then some i else rest

-- `for (i = 0; i < n; ++i) pthread_cond_signal(&allProcShm[i].cond[w]);`
unfoldable pub signal_all : ℕ → ℕ → System → System
unfolding signal
signal_all zero w s = s
signal_all (suc n) w s = signal w n (signal_all n w s)

-- The loop of the barrier's exit: signal each process and reset its wait flag.
unfoldable pub reset_all : ℕ → ℕ → System → System
unfolding signal
reset_all zero w s = s
reset_all (suc n) w s =
    modify_proc n (λ p. record p { wait_idx = negsuc 0 }) (signal w n (reset_all n w s))

-- The first process other than `me`.
abbrev pub other_process : ℕ → ℕ
other_process me = if me == 0 then 1 else 0

unfoldable pub signal_other : ℕ → ℕ → System → System
unfolding signal
signal_other me w s =
    if ltb (other_process me) s.plr.n_proc then signal w (other_process me) s else s

abbrev pub set_restoring : Bool → System → System
set_restoring b s = record s { plr = record (s.plr) { restoring = b } }

abbrev pub set_wait_idx : ℕ → ℤ → System → System
set_wait_idx me v s = modify_proc me (λ p. record p { wait_idx = v }) s

-- An exit of the barrier by `exit(1)`, after the flag and the counter are taken back.
unfoldable pub exit_barrier {ℓ} : {A : Type ℓ} → ℕ → ℕ → M A
exit_barrier me w s = ended (set_phase me gone (sub_wait_cnt w (set_wait_idx me (negsuc 0) s)))

-- What follows a successful action: if the wait flag still stands, the other condition variable
-- becomes the current one and all are woken.
unfoldable pub release : ℕ → ℕ → System → System
unfolding reset_all
release me w s =
    if ltb_ℤ (s.all_proc me).wait_idx (pos 0)
    then s
    else reset_all s.plr.n_proc w (record s {
      plr = record (s.plr) { cur_wait_idx = if s.plr.cur_wait_idx == 0 then 1 else 0 };
    })

-- The end of `plr_waitBarrier`: the counter is taken back and the lock is released.
unfoldable pub leave : ℕ → ℕ → M (Unit {0})
leave me w s = done tt (set_phase me outside (sub_wait_cnt w s))

-- `pthread_cond_timedwait`
unfoldable pub timed_wait : ℕ → ℕ → Bool → Call → M (Unit {0})
timed_wait me w expired call s = done tt (set_phase me (waiting w expired false call) s)
