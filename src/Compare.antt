-- ===== src/Compare.antt =====
-- plrCommon/plrCompare.h and plrCommon/plrCompare.c: the recorded call of one process, and the
-- comparison of two of them as a mask with one bit for each element.
pub mod Laws
use Prim.Native.Nat.{bit_or}
use plr.Prelude.{ℕ, ◌^◌, ◌==◌, if◌then◌else◌}

-- `syscallArgs_t`: the address is an offset, and the six arguments are `unsigned long`.
pub record SyscallArgs : Type 0 where
  pub addr : ℕ
  pub arg0 : ℕ
  pub arg1 : ℕ
  pub arg2 : ℕ
  pub arg3 : ℕ
  pub arg4 : ℕ
  pub arg5 : ℕ

-- An argument structure whose elements are left out of its initialiser.
abbrev pub zero_args : SyscallArgs
zero_args = record { addr = 0; arg0 = 0; arg1 = 0; arg2 = 0; arg3 = 0; arg4 = 0; arg5 = 0 }

-- The macro `CompareElement(elem, faultBit)`; `x` and `y` are the element in the two structures.
unfoldable pub compare_element : ℕ → ℕ → ℕ → ℕ → ℕ
compare_element x y fault_bit fault_val =
    if x == y then fault_val else bit_or fault_val (2 ^ fault_bit)

-- `plrC_compareArgs`
unfoldable pub compare_args : SyscallArgs → SyscallArgs → ℕ
compare_args a b =
    let v0 = compare_element a.addr b.addr 0 0 in
    let v1 = compare_element a.arg0 b.arg0 1 v0 in
    let v2 = compare_element a.arg1 b.arg1 2 v1 in
    let v3 = compare_element a.arg2 b.arg2 3 v2 in
    let v4 = compare_element a.arg3 b.arg3 4 v3 in
    let v5 = compare_element a.arg4 b.arg4 5 v4 in compare_element a.arg5 b.arg5 6 v5
