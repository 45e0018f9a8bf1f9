-- ===== src/Figurehead.antt =====
-- plrMain.c: the figurehead, which reads the options, starts the first process and waits for all.
pub mod Options
pub mod Command
pub mod Main
pub mod Argv
pub mod Settings
pub mod Outcomes
pub mod Runs
use plr.Prelude.{ℕ, List, Option, ℤ, pos}

-- A text is the list of its bytes.
abbrev pub Text : Type 0
Text = List ℕ

-- `PINTOOL_MODE`
pub data PintoolMode : Type 0 where
  off trace ins : PintoolMode

-- The global variables and the locals of `main` that options set.
pub record Config : Type 0 where
  pub pintool_mode : PintoolMode
  pub num_redun_proc : ℤ
  pub inject_event_mean : ℤ
  pub inject_event_mean_str : Option Text
  pub watchdog_timeout : ℤ
  pub output_file : Option Text
  pub error_file : Option Text

-- How a part of `main` ends, with the world as it leaves it: it goes on, `main` returns or the process
-- exits with a status, or the bound on the rounds of the wait loop has run out.
pub data Outcome (W A : Type 0) : Type 0 where
  goes_on : A → W → Outcome W A
  returns : ℕ → W → Outcome W A
  out_of_fuel : Outcome W A

abbrev pub Part : Type 0 → Type 0 → Type 0
Part W A = W → Outcome W A

infixl 5 ◌>>=◌ ◌>>◌
abbrev pub ◌>>=◌ : {W A B : Type 0} → Part W A → (A → Part W B) → Part W B
◌>>=◌ m k w = elim (m w) [
  | goes_on a v ↦ k a v
  | returns n v ↦ returns n v
  | out_of_fuel ↦ out_of_fuel
]

abbrev pub ◌>>◌ : {W B : Type 0} → Part W (Unit {0}) → Part W B → Part W B
m >> k = m >>= λ _. k
