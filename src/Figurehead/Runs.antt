-- ===== src/Figurehead/Runs.antt =====
-- How `main` ends.
use plr.Prelude.{
  ℕ, zero, suc, ◌≡◌, ◌≢◌, refl, ◌⊎◌, inl, inr, false, Option, none, some, List, [], ◌<◌,
  if◌then◌else◌, ℤ, pos, ltb_ℤ, arith,
}
use plr.Figurehead.{Text, Config, goes_on, returns, Part, ◌>>=◌, ◌>>◌}
use plr.Figurehead.Outcomes.{then_zero}
use plr.Figurehead.Options.{Parsed, config, returns}
use plr.Figurehead.Command.{preload_library, child_argv, ExecCalls, start_first_process}
use plr.Figurehead.Main.{
  Waited, child, no_child, failed, MainCalls, redirect, wait_children, init_figurehead, run_program,
}

Waited-cases : (x : Waited) → (x ≡ no_child) ⊎ ((x ≡ failed) ⊎ (x ≡ child))
Waited-cases no_child = inl refl
Waited-cases failed = inr (inl refl)
Waited-cases child = inr (inr refl)

module _ {W : Type 0} (os : MainCalls W) (exec : ExecCalls W) where
  -- `execvp` has replaced the child by the command.
  abbrev pub Launched : Config → List Text → Type 0
  Launched c argv =
      (args : List Text) × (child_argv c argv (some exec.malloc) ≡ some args)
      × (exec.execvp preload_library args ≡ none)

  -- What a value of `startFirstProcess` that is not negative says.
  abbrev Reports : Config → List Text → ℤ → Type 0
  Reports c argv ret = ltb_ℤ ret (pos 0) ≡ false → Launched c argv

  -- The steps of `main` behind the check of `LD_PRELOAD`.
  abbrev checked : Option Text → (fuel : ℕ) → Config → List Text → Part W (Unit {0})
  checked env fuel c argv = do
    redirect os exec c.output_file 1
    redirect os exec c.error_file 2
    init_figurehead os exec c
    ret ← start_first_process exec c argv env
    λ w.
        (if ltb_ℤ ret (pos 0)
          then returns 1 (os.at_exit w)
          else wait_children os exec fuel (os.at_exit w))

  abbrev run_with : Option Text → (fuel : ℕ) → Config → List Text → Part W (Unit {0})
  run_with env fuel c argv =
      let go = checked env fuel c argv in elim env [ some value ↦ returns 1 | none ↦ go ]

  -- What an accepted program says when `main` returns 0.
  abbrev Ran : Config → List Text → Type 0
  Ran c argv = (os.ld_preload ≡ none) × (argv ≢ []) × Launched c argv

  abbrev main_with : Parsed → (fuel : ℕ) → List Text → Part W (Unit {0})
  main_with p fuel argv = elim p [
    | returns status ↦ returns status
    | config c ↦ λ w. then_zero (run_program os exec fuel c argv w)
  ]

  -- The loop of `wait` comes to an end, with no child left to wait for or with an error, on fuel of more
  -- than a measure of the children that each `wait` that finds one makes smaller.
  wait_children-Ends :
      (children : W → ℕ)
      → ((w : W) → (os.wait w).0 ≡ child → children (os.wait w).1 < children w)
      → (fuel : ℕ) (w : W) → children w < fuel
      → (v : W) × ((wait_children os exec fuel w ≡ goes_on tt v)
          ⊎ (wait_children os exec fuel w ≡ returns 1 v))
  unfolding wait_children
  wait_children-Ends children less zero w lt = absurd (omega arith)
  wait_children-Ends children less (suc fuel) w lt = elim (Waited-cases (os.wait w).0) [
    | inl e ↦ ((os.wait w).1, inl (rw (e, wait_children) refl))
    | inr (inl e) ↦ ((os.wait w).1, inr (rw (e, wait_children) refl))
    | inr (inr e) ↦
        let fewer = less w e in
        let (v, rest) =
          wait_children-Ends children less fuel (os.wait w).1 (omega (arith, fewer, lt)) in
        (
          v,
          elim rest [
            | inl h ↦ inl (rw (e, wait_children) h)
            | inr h ↦ inr (rw (e, wait_children) h)
          ],
        )
  ]
