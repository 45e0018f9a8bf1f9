-- ===== src/Core/State.antt =====
-- The state that the functions of plrCommon/plr.c work on: shared memory, and for each place of
-- `allProcShm` the process that it belongs to (the one whose `myProcShm` points there).
--
-- A process runs one critical section at a time, from taking `plrShm->lock` to the next release of
-- it (in `pthread_mutex_unlock` or in `pthread_cond_timedwait`), so a section is one function from
-- state to state, and `Phase` says where a process stands between two sections.
use plr.Prelude.{ℕ, ◌+◌, ◌-◌, Bool, true, ◌==◌, if◌then◌else◌, update, ℤ}
use plr.SharedData.{PerProcData, PlrData}

-- `waitActionType_t`
pub data WaitActionType : Type 0 where
  any master slave : WaitActionType

-- How an action function comes back: by its return value, with the shared records as it leaves
-- them, or not at all, because it has called `exit(1)`.
pub data Reply : Type 0 where
  returns : ℤ → PlrData → PerProcData → Reply
  exits : Reply

-- The action of a barrier: none, `plr_checkSyscallArgs_act`, or a function of the caller, which is
-- given the shared record and the record of the process that runs it.
pub data Action : Type 0 where
  null check_syscall_args : Action
  run : (PlrData → PerProcData → Reply) → Action

-- The arguments of `plr_waitBarrier`.
pub record Call : Type 0 where
  pub action : Action
  pub action_type : WaitActionType

pub data Phase : Type 0 where
  -- no process: not started yet, killed, or exited
  gone : Phase
  -- in code that does not hold the lock, outside of `plr_waitBarrier`
  outside : Phase
  -- in `pthread_cond_timedwait`, with the local `waitIdx` and `watchdogExpired`; `woken` is set by
  -- a signal to the condition variable
  waiting : (wait_idx : ℕ) (expired woken : Bool) (call : Call) → Phase
  -- a child of `plr_forkNewProcess` in front of its `pthread_mutex_lock`, with `parentProcShmCpy`,
  -- the local `waitIdx` of `plr_waitBarrier` and, where the fork was made by
  -- `plr_watchdogExpired`, the local `waitIdx` of that
  forked_in_action : (parent : PerProcData) (wait_idx : ℕ) → Phase
  forked_in_watchdog : (parent : PerProcData) (wait_idx captured : ℕ) (call : Call) → Phase

-- A process: what `getpid` returns to it, and where it stands.
pub record Process : Type 0 where
  pub self : ℕ
  pub phase : Phase

pub record System : Type 0 where
  pub plr : PlrData
  pub all_proc : ℕ → PerProcData
  pub process : ℕ → Process
  -- forks made so far
  pub forks : ℕ
  -- a process has ended while it held `plrShm->lock`
  pub lock_lost : Bool

-- How a section or a part of one comes to an end in the process that runs it: it goes on with a
-- value; the process has ended; or the bound on the rounds of the wait loop has run out.
pub data Run {ℓ} (A : Type ℓ) : Type ℓ where
  done : A → System → Run A
  ended : System → Run A
  out_of_fuel : Run A

abbrev pub M {ℓ} : Type ℓ → Type ℓ
M A = System → Run A

infixl 5 ◌>>=◌ ◌>>◌
abbrev pub ◌>>=◌ {ℓ κ} : {A : Type ℓ} {B : Type κ} → M A → (A → M B) → M B
◌>>=◌ m k s = elim (m s) [ done a t ↦ k a t | ended t ↦ ended t | out_of_fuel ↦ out_of_fuel ]

abbrev pub ◌>>◌ {ℓ} : {B : Type ℓ} → M (Unit {0}) → M B → M B
m >> k = m >>= λ _. k

abbrev pub pure {ℓ} : {A : Type ℓ} → A → M A
pure a s = done a s

abbrev pub set_phase : ℕ → Phase → System → System
set_phase i ph s = record s {
  process = update s.process i (record { self = (s.process i).self; phase = ph });
}

abbrev pub modify_proc : ℕ → (PerProcData → PerProcData) → System → System
modify_proc i f s = record s { all_proc = update s.all_proc i (f (s.all_proc i)) }

abbrev pub add_wait_cnt : ℕ → System → System
add_wait_cnt w s = record s {
  plr = record (s.plr) { cond_wait_cnt = update s.plr.cond_wait_cnt w (s.plr.cond_wait_cnt w + 1) };
}

-- The counter is an `int`; that it is never 0 here is a theorem about the barrier.
abbrev pub sub_wait_cnt : ℕ → System → System
sub_wait_cnt w s = record s {
  plr = record (s.plr) { cond_wait_cnt = update s.plr.cond_wait_cnt w (s.plr.cond_wait_cnt w - 1) };
}

-- `exit(1)` or a failed `assert` of process `me` while it holds the lock.
unfoldable pub exit_locked {ℓ} : {A : Type ℓ} → ℕ → M A
exit_locked me s = ended (record (set_phase me gone s) { lock_lost = true })

-- `pthread_cond_signal(&allProcShm[i].cond[w])`: only process `i` waits on its variables.
abbrev pub wake : ℕ → Phase → Phase
wake w (waiting v e k c) = if v == w then waiting v e true c else waiting v e k c
wake w gone = gone
wake w outside = outside
wake w (forked_in_action p v) = forked_in_action p v
wake w (forked_in_watchdog p v u c) = forked_in_watchdog p v u c

unfoldable pub signal : ℕ → ℕ → System → System
signal w i s = set_phase i (wake w (s.process i).phase) s
