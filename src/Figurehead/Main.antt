-- ===== src/Figurehead/Main.antt =====
-- plrMain.c: `main`
use plr.Prelude.{
  ℕ, zero, suc, Option, none, some, List, [], ◌∷◌, if◌then◌else◌, ℤ, pos, negsuc, eq_ℤ, ltb_ℤ,
}
use plr.Figurehead.{Text, PintoolMode, Config, goes_on, returns, out_of_fuel, Part, ◌>>=◌, ◌>>◌}
use plr.Figurehead.Options.{default_config, config, returns, Strtol, parse_options}
use plr.Figurehead.Command.{ExecCalls, start_first_process}

-- What `wait` comes to: a child has ended, `ECHILD`, or another error.
pub data Waited : Type 0 where
  child no_child failed : Waited

-- The system calls of `main`; `figurehead_init` are those of `plr_figureheadInit`, with its value.
pub record MainCalls (W : Type 0) : Type 0 where
  pub ld_preload : Option Text
  pub open_output : Text → W → ℤ × W
  pub dup2 : ℤ → ℕ → W → ℤ × W
  pub close : ℤ → W → W
  pub figurehead_init : ℤ → PintoolMode → ℤ → W → ℤ × W
  pub at_exit : W → W
  pub wait : W → Waited × W

module _ {W : Type 0} (os : MainCalls W) (exec : ExecCalls W) where
  -- The option for a file: it takes the place of the descriptor `fd`.
  unfoldable pub redirect : (file : Option Text) (fd : ℕ) → Part W (Unit {0})
  redirect none fd w = goes_on tt w
  redirect (some file) fd w =
      let (out_fd, v) = os.open_output file w in
      let (r, u) = os.dup2 out_fd fd v in
      if eq_ℤ out_fd (negsuc 0)
      then returns 1 v
      else if ltb_ℤ r (pos 0)
      then returns 1 u
      else goes_on tt (os.close out_fd u)

  -- The loop at the end of `main`, at most `fuel` rounds of it
  unfoldable pub wait_children : (fuel : ℕ) → Part W (Unit {0})
  wait_children zero w = out_of_fuel
  wait_children (suc fuel) w =
      let (waited, v) = os.wait w in
      let rest = wait_children fuel v in
      elim waited [ no_child ↦ goes_on tt v | failed ↦ returns 1 v | child ↦ rest ]

  -- `plr_figureheadInit`, with the message
  unfoldable pub init_figurehead : Config → Part W (Unit {0})
  init_figurehead c w =
      let (r, v) = os.figurehead_init c.num_redun_proc c.pintool_mode c.watchdog_timeout w in
      if ltb_ℤ r (pos 0) then returns 1 v else goes_on tt v

  -- The part of `main` behind the options, with the arguments that `optind` points to.
  unfoldable pub run_program : (fuel : ℕ) → Config → List Text → Part W (Unit {0})
  unfolding redirect wait_children init_figurehead start_first_process
  run_program fuel c [] = returns 1
  run_program fuel c (prog ∷ args) = elim os.ld_preload [
    | some value ↦ returns 1
    | none ↦ do
      redirect c.output_file 1
      redirect c.error_file 2
      init_figurehead c
      ret ← start_first_process exec c (prog ∷ args) os.ld_preload
      λ w.
          (if ltb_ℤ ret (pos 0)
            then returns 1 (os.at_exit w)
            else wait_children fuel (os.at_exit w))
  ]

  -- `main`: its value and the world after it.
  unfoldable pub main :
      (strtol : Text → Strtol) (fuel : ℕ) → List (ℕ × Text) → List Text → Part W (Unit {0})
  unfolding parse_options run_program
  main strtol fuel options prog_argv = elim (parse_options strtol options default_config) [
    | returns status ↦ returns status
    | config c ↦ λ w. (do run_program fuel c prog_argv; returns 0) w
  ]
