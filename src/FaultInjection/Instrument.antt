-- ===== src/FaultInjection/Instrument.antt =====
-- pinFaultInject/pinFaultInject.cpp: what is instrumented, and the modes of `main`.
use plr.Prelude.{
  ℕ, ◌-◌, ◌&&◌, ◌||◌, Bool, false, Option, none, some, List, [], ◌∷◌, length, drop, ltb, leb,
  if◌then◌else◌, ℤ, div_ℤ,
}
use plr.SharedData.{PerProcData}
use plr.Core.Entry.{refresh_shared_data}
use plr.Figurehead.Options.{same_text}
use plr.FaultInjection.{ToolProcess, Tool, ◌>>=◌}

-- "libplrPreload.so"
abbrev pub target_lib : List ℕ
target_lib =
    b'l' ∷ b'i' ∷ b'b' ∷ b'p' ∷ b'l' ∷ b'r' ∷ b'P' ∷ b'r' ∷ b'e' ∷ b'l' ∷ b'o' ∷ b'a' ∷ b'd' ∷ b'.'
    ∷ b's' ∷ b'o' ∷ []

-- The test of the name of an image in `ImageLoad`.
unfoldable pub is_target_lib : List ℕ → Bool
unfolding same_text
is_target_lib image_name =
    leb (length target_lib) (length image_name)
    && same_text (drop (length image_name - length target_lib) image_name) target_lib

-- `plrLoAddr` and `plrHiAddr`
pub record Bounds : Type 0 where
  pub lo : ℕ
  pub hi : ℕ

-- `ImageLoad`, for an image at the given addresses
unfoldable pub image_load : (image_name : List ℕ) → (image : Bounds) → Bounds → Bounds
unfolding is_target_lib
image_load image_name image bounds = if is_target_lib image_name then image else bounds

-- The tests of `InstrumentInstr` and `InstrumentTrace`
unfoldable pub instruments : (original : Bool) → (addr : ℕ) → Bounds → Bool
instruments original addr bounds = original && (ltb addr bounds.lo || ltb bounds.hi addr)

-- `ApplicationStart`: the record of the process after it; none for `exit(1)` or a failed assertion.
unfoldable pub application_start : ToolProcess → Tool → Option (ℕ × PerProcData)
unfolding refresh_shared_data
application_start c s = do
  me ← refresh_shared_data s.n_proc c.self s.all_proc c.my_proc
  if (s.all_proc me).inside_plr
      then some (me, record (s.all_proc me) { inside_plr = false })
      else none

-- The switches of the command line.
pub record Knobs : Type 0 where
  pub trace_fault_mode : Bool
  pub trace_event_mean : ℤ
  pub instr_fault_mode : Bool
  pub instr_event_mean : ℤ

-- What `main` sets up: the mean and the deviation of the number of events, and what is instrumented.
pub data Mode : Type 0 where
  traces instrs : (mean std_dev : ℤ) → Mode

-- The choice in `main`; none where it ends the program
unfoldable pub select_mode : Knobs → Option Mode
select_mode k =
    if k.trace_fault_mode
    then some (traces k.trace_event_mean (div_ℤ k.trace_event_mean 5))
    else if k.instr_fault_mode
    then some (instrs k.instr_event_mean (div_ℤ k.instr_event_mean 5))
    else none
