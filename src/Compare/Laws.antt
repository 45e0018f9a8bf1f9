-- ===== src/Compare/Laws.antt =====
-- What the mask of `plrC_compareArgs` says.
use plr.Prelude.{ℕ, ◌+◌, ◌*◌, ◌^◌, ◌≤◌, ◌<◌, ◌≡◌, ◌↔◌, ◌==◌, if◌then◌else◌, arith}
use plr.Prelude.Bits.{bit_or-high}
use plr.Compare.{SyscallArgs, compare_element, compare_args}

-- 1 where two elements differ.
unfoldable pub differs : ℕ → ℕ → ℕ
differs x y = if x == y then 0 else 1

pub differs-le : (x y : ℕ) → differs x y ≤ 1
unfolding differs
differs-le x y = ground arith

pub differs_self : (x : ℕ) → differs x x ≡ 0
unfolding differs
differs_self x = ground arith

pub eq_of_differs : (x y : ℕ) → differs x y ≡ 0 → x ≡ y
unfolding differs
eq_of_differs x y h = ground arith

pub differs_comm : (x y : ℕ) → differs x y ≡ differs y x
unfolding differs
differs_comm x y = ground arith

-- One use of the macro, on a mask that has only lower bits.
compare_element_sum :
    (x y k v : ℕ)
    → v < 2 ^ k
    → (compare_element x y k v ≡ v + differs x y * 2 ^ k) × (compare_element x y k v < 2 * 2 ^ k)
unfolding compare_element differs
compare_element_sum x y k v h = ground (arith, bit_or-high k v h)

abbrev mask_sum : SyscallArgs → SyscallArgs → ℕ
mask_sum a b =
    differs a.addr b.addr
    + differs a.arg0 b.arg0 * 2
    + differs a.arg1 b.arg1 * 4
    + differs a.arg2 b.arg2 * 8
    + differs a.arg3 b.arg3 * 16
    + differs a.arg4 b.arg4 * 32
    + differs a.arg5 b.arg5 * 64

-- The mask of `plrC_compareArgs` is the sum of the weights of the elements that differ, 1 for the
-- address and `2 ^ (i + 1)` for argument `i`: no bit is lost or reported twice.
pub compare_args_mask :
    (a b : SyscallArgs)
    → compare_args a b
      ≡ differs a.addr b.addr
        + differs a.arg0 b.arg0 * 2
        + differs a.arg1 b.arg1 * 4
        + differs a.arg2 b.arg2 * 8
        + differs a.arg3 b.arg3 * 16
        + differs a.arg4 b.arg4 * 32
        + differs a.arg5 b.arg5 * 64
unfolding compare_args
compare_args_mask a b =
    let s0 = compare_element_sum a.addr b.addr 0 0 (omega arith) in
    let s1 = compare_element_sum a.arg0 b.arg0 1 _ s0.1 in
    let s2 = compare_element_sum a.arg1 b.arg1 2 _ s1.1 in
    let s3 = compare_element_sum a.arg2 b.arg2 3 _ s2.1 in
    let s4 = compare_element_sum a.arg3 b.arg3 4 _ s3.1 in
    let s5 = compare_element_sum a.arg4 b.arg4 5 _ s4.1 in
    let s6 = compare_element_sum a.arg5 b.arg5 6 _ s5.1 in
    omega (arith, s0.0, s1.0, s2.0, s3.0, s4.0, s5.0, s6.0)

compare_args_self : (a : SyscallArgs) → compare_args a a ≡ 0
compare_args_self a = omega (arith, compare_args_mask a a, differs_self)

eq_of_compare_args : (a b : SyscallArgs) → compare_args a b ≡ 0 → a ≡ b
eq_of_compare_args a b h = ground (
  arith,
  compare_args_mask a b,
  eq_of_differs a.addr b.addr,
  eq_of_differs a.arg0 b.arg0,
  eq_of_differs a.arg1 b.arg1,
  eq_of_differs a.arg2 b.arg2,
  eq_of_differs a.arg3 b.arg3,
  eq_of_differs a.arg4 b.arg4,
  eq_of_differs a.arg5 b.arg5,
)

-- `plrC_compareArgs` returns 0 exactly when the two structures are equal.
pub compare_args-eq_zero : (a b : SyscallArgs) → (compare_args a b ≡ 0) ↔ (a ≡ b)
compare_args-eq_zero a b = (eq_of_compare_args a b, λ e. rw (← e) (compare_args_self a))

pub compare_args_comm : (a b : SyscallArgs) → compare_args a b ≡ compare_args b a
compare_args_comm a b = omega (arith, compare_args_mask a b, compare_args_mask b a, differs_comm)
