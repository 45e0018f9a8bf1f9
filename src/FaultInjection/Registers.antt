-- ===== src/FaultInjection/Registers.antt =====
-- pinFaultInject/pinFaultInject.cpp: `injectFault_ins`, which flips a bit of a register.
use Prim.Native.Nat.{bit_xor}
use plr.Prelude.{ℕ, ◌-◌, ◌^◌, ◌==◌, Option, none, some, ltb, if◌then◌else◌}
use plr.FaultInjection.{Drawn, ToolProcess, Tool, should_inject_fault, ◌>>=◌}

-- `1 << bitToFlip` as an `ADDRINT`. The 1 is an `int`: 31 places make the number negative, and more are
-- not defined (none).
unfoldable pub shifted_one : ℕ → Option ℕ
shifted_one bit_to_flip =
    if ltb bit_to_flip 31
    then some (2 ^ bit_to_flip)
    else if bit_to_flip == 31
    then some (2 ^ 64 - 2 ^ 31)
    else none

-- `regValue ^= 1 << bitToFlip`
unfoldable pub flip_bit : (bit_to_flip reg_value : ℕ) → Option ℕ
unfolding shifted_one
flip_bit bit_to_flip reg_value = shifted_one bit_to_flip >>= λ mask. some (bit_xor reg_value mask)

-- The registers by their places in `faultRegSet`.
abbrev pub Registers : Type 0
Registers = ℕ → ℕ

-- What is drawn behind the decision: the next target, the register and the bit.
pub record Fault : Type 0 where
  pub target : ℕ
  pub reg : ℕ
  pub bit_to_flip : ℕ

-- `injectFault_ins`: the registers with which the process goes on.
unfoldable pub inject_fault_ins :
    Drawn → Fault → ToolProcess → Registers → Tool → Option (Registers × Tool)
unfolding should_inject_fault flip_bit
inject_fault_ins drawn f c regs s = do
  (should, t) ← should_inject_fault drawn c s
  if should
      then (do
        value ← flip_bit f.bit_to_flip (regs f.reg)
        some (
          λ r. if r == f.reg then value else regs r,
          record t {
            plr = record (t.plr) { fault_injected = 1; event_count = 0; target_count = f.target };
          },
        ))
      else some (regs, t)
