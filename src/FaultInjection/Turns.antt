-- ===== src/FaultInjection/Turns.antt =====
-- When the tool ends a process: `injectFault_trace`, called by the processes in any order.
use plr.Prelude.{
  ℕ, zero, suc, ◌+◌, ◌%◌, ◌^◌, ◌≤◌, ◌<◌, ◌≡◌, ◌≢◌, refl, inl, inr, Bool, true, false, Bool-cases,
  Option, none, some, List, [], ◌∷◌, ◌++◌, length, replicate, All, ◌==◌, eq→==, ne→==, ltb, leb,
  if◌then◌else◌, if-true, if-false, ℕ_discrete, arith, ap, ◌∙◌, sym,
}
use plr.SharedData.{PerProcData}
use plr.Core.Entry.{find_pid, refresh_shared_data}
use plr.FaultInjection.{
  Tool, Drawn, ToolProcess, retarget, should_inject_fault, inject_fault_trace, ◌>>=◌,
}

-- Calls of `injectFault_trace` one after the other: for each whether it ends its process.
unfoldable pub run_traces : List (Drawn × ToolProcess) → Tool → Option (List Bool × Tool)
run_traces [] s = some ([], s)
run_traces (x ∷ rest) s = do
  (ends, t) ← inject_fault_trace x.0 x.1 s
  (others, end) ← run_traces rest t
  some (ends ∷ others, end)

-- How many of the calls are made by the process with pid `p`.
unfoldable pub calls_of : ℕ → List (Drawn × ToolProcess) → ℕ
calls_of p [] = 0
calls_of p (x ∷ rest) = let others = calls_of p rest in if x.1.self == p then suc others else others

find_pid-found :
    (left i p k : ℕ) (all_proc : ℕ → PerProcData)
    → i ≤ k
    → k < i + left
    → (all_proc k).pid ≡ p
    → ((j : ℕ) → j < i + left → (all_proc j).pid ≡ p → j ≡ k)
    → find_pid left i p all_proc ≡ some k
unfolding find_pid
find_pid-found zero i p k all_proc low high at only = absurd (omega arith)
find_pid-found (suc left) i p k all_proc low high at only = elim (ℕ_discrete (all_proc i).pid p) [
  | yes e ↦ if-true _ _ (eq→== _ _ e) ∙ ap some (only i (omega arith) e)
  | no n ↦
      let later : i ≢ k = λ e. n (ap (λ j. (all_proc j).pid) e ∙ at) in
      if-false _ _ (ne→== _ _ n)
      ∙ find_pid-found left (i + 1) p k all_proc (omega arith) (omega arith) at
          (λ j h. only j (omega arith))
]

-- The process with pid `p` is at place `k`, at no other, and not inside of PLR.
pub record Place (n_proc : ℕ) (all_proc : ℕ → PerProcData) (p k : ℕ) : Type 0 where
  pub inside : k < n_proc
  pub at : (all_proc k).pid ≡ p
  pub only : (j : ℕ) → j < n_proc → (all_proc j).pid ≡ p → j ≡ k
  pub runs_program : (all_proc k).inside_plr ≡ false

abbrev pub Runs : Tool → ℕ → ℕ → Type 0
Runs s p k = Place s.n_proc s.all_proc p k

-- A `myProcShm` that is set points into `allProcShm`.
abbrev pub Points : Tool → Drawn × ToolProcess → Type 0
Points s x = (j : ℕ) → x.1.my_proc ≡ some j → j < s.n_proc

find_place : (s : Tool) (p k : ℕ) → Runs s p k → find_pid s.n_proc 0 p s.all_proc ≡ some k
find_place s p k r =
    find_pid-found s.n_proc 0 p k s.all_proc (omega arith) (omega (arith, r.inside)) r.at
      (λ j h. r.only j (omega (arith, h)))

refresh_shared_data-found :
    (s : Tool) (p k : ℕ) (my_proc : Option ℕ)
    → Runs s p k
    → ((j : ℕ) → my_proc ≡ some j → j < s.n_proc)
    → refresh_shared_data s.n_proc p s.all_proc my_proc ≡ some k
unfolding refresh_shared_data
refresh_shared_data-found s p k none r h = find_place s p k r
refresh_shared_data-found s p k (some i) r h = elim (ℕ_discrete (s.all_proc i).pid p) [
  | yes e ↦ if-true _ _ (eq→== _ _ e) ∙ ap some (r.only i (h i refl) e)
  | no n ↦ rw (ne→== _ _ n, find_place s p k r, refresh_shared_data) refl
]

-- Nobody is to be chosen anew.
abbrev KeepsTarget : Tool → Type 0
KeepsTarget s = (drawn : Drawn) (c : ToolProcess) → retarget drawn c s ≡ some (c.my_proc, s)

no_fault_yet : (s : Tool) → s.plr.fault_injected ≡ 0 → KeepsTarget s
unfolding retarget
no_fault_yet s h drawn c = rw (h, retarget) refl

not_replaced :
    (s : Tool) → (s.all_proc s.plr.next_fault_idx).pid ≡ s.plr.next_fault_pid → KeepsTarget s
unfolding retarget
not_replaced s h drawn c = elim (Bool-cases (s.plr.fault_injected == 1)) [
  | inl e ↦ rw (e, eq→== _ _ h, retarget) refl
  | inr e ↦ rw (e, retarget) refl
]

-- A call of another process.
other_call :
    (s : Tool) (drawn : Drawn) (c : ToolProcess)
    → KeepsTarget s
    → c.self ≢ s.plr.next_fault_pid
    → inject_fault_trace drawn c s ≡ some (false, s)
unfolding inject_fault_trace should_inject_fault
other_call s drawn c keeps n =
    rw (keeps drawn c, ne→== s.plr.next_fault_pid c.self (λ e. n (sym e)), inject_fault_trace) refl

-- The state after `n` more events.
abbrev counted : ℕ → Tool → Tool
counted n s = record s { plr = record (s.plr) { event_count = s.plr.event_count + n } }

-- A call of the process itself, before the last event and at it.
own_call :
    (s : Tool) (k : ℕ) (drawn : Drawn) (c : ToolProcess)
    → s.plr.fault_injected ≡ 0
    → Runs s s.plr.next_fault_pid k
    → c.self ≡ s.plr.next_fault_pid
    → Points s (drawn, c)
    → s.plr.event_count + 1 < 2 ^ 64
    → 0 < s.plr.target_count
    → should_inject_fault drawn c s
      ≡ some (leb s.plr.target_count (s.plr.event_count + 1), counted 1 s)
unfolding should_inject_fault
own_call s k drawn c fresh runs self points small positive =
    let found =
      ap (λ q. refresh_shared_data s.n_proc q s.all_proc c.my_proc) self
      ∙ refresh_shared_data-found s s.plr.next_fault_pid k c.my_proc runs points in
    let same = eq→== _ _ (sym self) in
    let count : (s.plr.event_count + 1) % 2 ^ 64 ≡ s.plr.event_count + 1 = omega (arith, small) in
    let some_target : ltb 0 s.plr.target_count ≡ true = ground arith in
    rw
      (
        no_fault_yet s fresh drawn c,
        same,
        found,
        runs.runs_program,
        count,
        some_target,
        should_inject_fault,
      )
      refl

counted_twice : (n : ℕ) (s : Tool) → counted n (counted 1 s) ≡ counted (suc n) s
counted_twice n s =
    let sum : s.plr.event_count + 1 + n ≡ s.plr.event_count + suc n = omega arith in
    ap (λ m. record s { plr = record (s.plr) { event_count = m } }) sum

counted_none : (s : Tool) → s ≡ counted 0 s
counted_none s =
    let sum : s.plr.event_count ≡ s.plr.event_count + 0 = omega arith in
    ap (λ m. record s { plr = record (s.plr) { event_count = m } }) sum

-- Before its last event the process goes on; `later` are the calls after it.
not_yet :
    (calls later : List (Drawn × ToolProcess)) (s : Tool) (k : ℕ) (cs : List Bool) (u : Tool)
    → s.plr.fault_injected ≡ 0
    → Runs s s.plr.next_fault_pid k
    → All (Points s) calls
    → s.plr.event_count + calls_of s.plr.next_fault_pid calls < s.plr.target_count
    → s.plr.target_count < 2 ^ 64
    → run_traces later (counted (calls_of s.plr.next_fault_pid calls) s) ≡ some (cs, u)
    → run_traces (calls ++ later) s ≡ some (replicate (length calls) false ++ cs, u)
unfolding run_traces calls_of All inject_fault_trace
not_yet [] later s k cs u fresh runs points less small end =
    ap (run_traces later) (counted_none s) ∙ end
not_yet (x ∷ rest) later s k cs u fresh runs points less small end =
    let others = calls_of s.plr.next_fault_pid rest in
    elim (ℕ_discrete x.1.self s.plr.next_fault_pid) [
      | yes e ↦
          let more : calls_of s.plr.next_fault_pid (x ∷ rest) ≡ suc others =
            if-true (suc others) others (eq→== _ _ e) in
          let own =
            own_call s k x.0 x.1 fresh runs e points.0 (omega (arith, less, more, small))
              (omega (arith, less)) in
          let early : leb s.plr.target_count (s.plr.event_count + 1) ≡ false =
            ground (arith, less, more) in
          let next =
            not_yet rest later (counted 1 s) k cs u fresh runs points.1 (omega (arith, less, more))
              small
              (ap (run_traces later) (counted_twice others s ∙ ap (λ n. counted n s) (sym more))
                ∙ end) in
          rw (own, early, next, run_traces, inject_fault_trace) refl
      | no n ↦
          let more : calls_of s.plr.next_fault_pid (x ∷ rest) ≡ others =
            if-false (suc others) others (ne→== _ _ n) in
          let next =
            not_yet rest later s k cs u fresh runs points.1 (omega (arith, less, more)) small
              (ap (λ m. run_traces later (counted m s)) (sym more) ∙ end) in
          let here = other_call s x.0 x.1 (no_fault_yet s fresh) n in
          rw (here, next, run_traces) refl
    ]

-- The process that was to be ended calls no more.
afterwards :
    (calls : List (Drawn × ToolProcess)) (s : Tool)
    → KeepsTarget s
    → All (λ x. x.1.self ≢ s.plr.next_fault_pid) calls
    → run_traces calls s ≡ some (replicate (length calls) false, s)
unfolding run_traces All
afterwards [] s keeps others = refl
afterwards (x ∷ rest) s keeps others =
    let rest' = afterwards rest s keeps others.1 in
    let here = other_call s x.0 x.1 keeps others.0 in rw (here, rest', run_traces) refl

-- In the trace mode, where a process has been chosen and no fault injected yet, the calls of all
-- processes in any order end that process and no other: it is ended at the call with which its number
-- of events reaches the target, calls of other processes do not count, and after it, as long as its
-- place has not been given to a new process, nobody is ended. The process is at one place, is not
-- inside of PLR while it calls, and does not call again after its end.
pub run_traces-ends_one :
    (calls rest : List (Drawn × ToolProcess)) (last : Drawn × ToolProcess) (s : Tool)
    → s.plr.fault_injected ≡ 0
    → Runs s s.plr.next_fault_pid s.plr.next_fault_idx
    → All (Points s) calls
    → Points s last
    → last.1.self ≡ s.plr.next_fault_pid
    → All (λ x. x.1.self ≢ s.plr.next_fault_pid) rest
    → s.plr.event_count + calls_of s.plr.next_fault_pid calls + 1 ≡ s.plr.target_count
    → s.plr.target_count < 2 ^ 64
    → run_traces (calls ++ last ∷ rest) s
      ≡ some (
        replicate (length calls) false ++ true ∷ replicate (length rest) false,
        record s { plr = record (s.plr) { event_count = s.plr.target_count; fault_injected = 1 } },
      )
unfolding run_traces inject_fault_trace
run_traces-ends_one calls rest last s fresh runs points point self others reached small =
    let n = calls_of s.plr.next_fault_pid calls in
    let t = counted n s in
    let own =
      own_call t s.plr.next_fault_idx last.0 last.1 fresh runs self point
        (omega (arith, reached, small)) (omega (arith, reached)) in
    let now : leb s.plr.target_count (s.plr.event_count + n + 1) ≡ true = ground (arith, reached) in
    let end : Tool = record s {
      plr = record (s.plr) { event_count = s.plr.target_count; fault_injected = 1 };
    } in
    let gone = afterwards rest end (not_replaced end runs.at) others in
    not_yet calls (last ∷ rest) s s.plr.next_fault_idx (true ∷ replicate (length rest) false) end
      fresh runs points (omega (arith, reached)) small
      (rw (own, now, reached, gone, run_traces, inject_fault_trace) refl)
