-- ===== src/FaultInjection.antt =====
-- pinFaultInject/pinFaultInject.cpp: the Pin tool that injects faults, and plrCommon/plrSharedData.h:
-- its fields of `plrData_t`. Pin and the random numbers are parameters. A function under `toolLock` is
-- one step.
pub mod Registers
pub mod Instrument
pub mod Images
pub mod Turns
pub mod Flips
use plr.Prelude.{
  ℕ, ◌+◌, ◌%◌, ◌^◌, ◌&&◌, Bool, true, false, not, Option, none, some, ◌==◌, ltb, leb, if◌then◌else◌,
}
use plr.SharedData.{PerProcData}
use plr.Core.Entry.{refresh_shared_data}

infixl 5 ◌>>=◌
abbrev pub ◌>>=◌ : {A B : Type 0} → Option A → (A → Option B) → Option B
o >>= k = elim o [ none ↦ none | some a ↦ k a ]

-- The fields of `plrData_t` for the tool.
pub record ToolData : Type 0 where
  pub fault_injected : ℕ
  pub next_fault_idx : ℕ
  pub next_fault_pid : ℕ
  pub event_count : ℕ
  pub target_count : ℕ

-- What the tool sees of the shared area.
pub record Tool : Type 0 where
  pub n_proc : ℕ
  pub all_proc : ℕ → PerProcData
  pub plr : ToolData

-- What `g_procDist` and `g_eventDist` give, if they are asked.
pub record Drawn : Type 0 where
  pub idx : ℕ
  pub target : ℕ

-- The process that runs the tool: its pid, and its `myProcShm` as the index of a place, none for `NULL`.
pub record ToolProcess : Type 0 where
  pub self : ℕ
  pub my_proc : Option ℕ

-- A choice of the next process, where one is to be made.
unfoldable pub choose_next : (chooses : Bool) → Drawn → Tool → ToolData
choose_next chooses drawn s =
    let next_pid = (s.all_proc drawn.idx).pid in
    if chooses && not (next_pid == s.plr.next_fault_pid) && not (next_pid == 0)
    then record (s.plr) {
      next_fault_pid = next_pid;
      next_fault_idx = drawn.idx;
      fault_injected = 0;
    }
    else s.plr

-- `updateNextProcToFault`: the place of the process and the shared data after it; none for `exit(1)`.
unfoldable pub update_next_proc_to_fault :
    (initial_call : Bool) → Drawn → ToolProcess → Tool → Option (ℕ × Tool)
unfolding choose_next refresh_shared_data
update_next_proc_to_fault initial_call drawn c s = do
  me ← refresh_shared_data s.n_proc c.self s.all_proc c.my_proc
  let chooses = if s.plr.next_fault_pid == 0 then true else not initial_call
  let next = choose_next chooses drawn s
  some (me, record s { plr = record next { event_count = 0; target_count = drawn.target } })

-- The start of `shouldInjectFault`: a new target if the last one has been replaced.
unfoldable pub retarget : Drawn → ToolProcess → Tool → Option (Option ℕ × Tool)
unfolding update_next_proc_to_fault
retarget drawn c s =
    if (s.plr.fault_injected == 1)
      && not ((s.all_proc s.plr.next_fault_idx).pid == s.plr.next_fault_pid)
    then (do (me, t) ← update_next_proc_to_fault false drawn c s; some (some me, t))
    else some (c.my_proc, s)

-- `shouldInjectFault`; `eventCount` is an `unsigned long`.
unfoldable pub should_inject_fault : Drawn → ToolProcess → Tool → Option (Bool × Tool)
unfolding retarget refresh_shared_data
should_inject_fault drawn c s = do
  (my_proc, t) ← retarget drawn c s
  if not (t.plr.next_fault_pid == c.self) then some (false, t) else (do
    me ← refresh_shared_data t.n_proc c.self t.all_proc my_proc
    if (t.all_proc me).inside_plr
        then some (false, t)
        else (let count = (t.plr.event_count + 1) % 2 ^ 64 in
            some (
              ltb 0 t.plr.target_count && leb t.plr.target_count count,
              record t { plr = record (t.plr) { event_count = count } },
            )))

-- `injectFault_trace`: whether the process is ended.
unfoldable pub inject_fault_trace : Drawn → ToolProcess → Tool → Option (Bool × Tool)
unfolding should_inject_fault
inject_fault_trace drawn c s = do
  (should, t) ← should_inject_fault drawn c s
  some (should, if should then record t { plr = record (t.plr) { fault_injected = 1 } } else t)
