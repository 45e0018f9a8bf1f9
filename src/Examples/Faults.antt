-- ===== src/Examples/Faults.antt =====
-- The fault injection tool on three processes, the second one of which is the target.
use plr.Prelude.{
  ℕ, ◌<◌, ◌≡◌, ◌↔◌, refl, zero, suc, true, false, Option, none, some, [], ◌∷◌, All, arith,
}
use plr.SharedData.{PerProcData, zero_proc}
use plr.FaultInjection.{Tool, Drawn, ToolProcess}
use plr.FaultInjection.Registers.{flip_bit}
use plr.FaultInjection.Flips.{bit, changes, flip_bit_lem}
use plr.FaultInjection.Turns.{run_traces, calls_of, Runs, run_traces-ends_one}

abbrev numbered : ℕ → PerProcData
numbered zero = record zero_proc { pid = 100 }
numbered (suc zero) = record zero_proc { pid = 101 }
numbered _ = record zero_proc { pid = 102 }

abbrev second_chosen : Tool
second_chosen = record {
  n_proc = 3;
  all_proc = numbered;
  plr = record {
    fault_injected = 0;
    next_fault_idx = 1;
    next_fault_pid = 101;
    event_count = 0;
    target_count = 2;
  };
}

abbrev call_by : ℕ → Drawn × ToolProcess
call_by pid = (record { idx = 0; target = 7 }, record { self = pid; my_proc = none })

second_Runs : Runs second_chosen 101 1
second_Runs = record {
  inside = omega arith;
  at = refl;
  only = λ j h e. place j e;
  runs_program = refl;
}
  where
    place : (j : ℕ) → (numbered j).pid ≡ 101 → j ≡ 1
    place zero e = absurd (omega arith)
    place (suc zero) e = refl
    place (suc (suc j)) e = absurd (omega arith)

nowhere : (j : ℕ) → ◌≡◌ {A = Option ℕ} none (some j) → j < 3
nowhere j e = absurd (ground arith)

run_traces-ends_one_example :
    run_traces
      (call_by 100 ∷ call_by 101 ∷ call_by 102 ∷ call_by 101 ∷ call_by 100 ∷ [])
      second_chosen
    ≡ some (
      false ∷ false ∷ false ∷ true ∷ false ∷ [],
      record second_chosen {
        plr = record (second_chosen.plr) { event_count = 2; fault_injected = 1 };
      },
    )
unfolding calls_of All
run_traces-ends_one_example =
    run_traces-ends_one (call_by 100 ∷ call_by 101 ∷ call_by 102 ∷ []) (call_by 100 ∷ [])
      (call_by 101) second_chosen refl second_Runs (nowhere, (nowhere, (nowhere, tt))) nowhere refl
      ((λ e. absurd (omega arith)), tt) refl (omega arith)

flip_bit_example : (w : ℕ) × (flip_bit 5 9 ≡ some w) × ((bit 3 w ≡ bit 3 9) ↔ (changes 5 3 ≡ false))
flip_bit_example = flip_bit_lem 5 9 3 (omega arith) (omega arith)
