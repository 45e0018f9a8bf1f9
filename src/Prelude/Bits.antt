-- ===== src/Prelude/Bits.antt =====
-- `|` with a single higher bit, and `^`, at variables.
use Prim.Native.Nat.{
  ℕ, zero, suc, ◌+◌, ◌*◌, ◌/◌, ◌%◌, ◌^◌, ◌≤◌, ◌<◌, max, differ, bit_or, bit_xor, digits, bitwise,
  bit_or-bitwise, bit_xor-bitwise,
}
use mathlib.Core.Path.{◌≡◌, refl, ap, ◌∙◌}
use native.Mathlib.Nat.{pow-suc}
use native.Mathlib.Omega.{arith}

-- Both operations stand for a loop over the binary digits that is given the first number as its
-- count of rounds: further rounds find no digit and change nothing.
module _ (end : ℕ → ℕ) (op : ℕ → ℕ → ℕ) where
  idle_rounds :
      (given used : ℕ)
      → used ≤ given
      → (a b : ℕ) → a ≤ used
      → digits end op given a b ≡ digits end op used a b
  idle_rounds given zero enough (suc a) b h = absurd (omega arith)
  idle_rounds zero (suc used) enough a b h = absurd (omega arith)
  idle_rounds zero zero enough zero b h = refl
  idle_rounds (suc given) zero enough zero b h = refl
  idle_rounds (suc given) (suc used) enough zero b h = refl
  idle_rounds (suc given) (suc used) enough (suc a) b h =
      omega (arith, idle_rounds given used (omega arith) (suc a / 2) (b / 2) (omega arith))

  pub lowest_digit :
      (a b : ℕ)
      → bitwise end op (suc a) b ≡ op (suc a % 2) (b % 2) + 2 * bitwise end op (suc a / 2) (b / 2)
  lowest_digit a b =
      let half = suc a / 2 in
      omega (arith, idle_rounds a half (omega arith) half (b / 2) (omega arith))

pub bit_or-lowest : (a b : ℕ) → bit_or a b ≡ max (a % 2) (b % 2) + 2 * bit_or (a / 2) (b / 2)
bit_or-lowest zero b = simp bit_or-bitwise (omega arith)
bit_or-lowest (suc a) b = simp bit_or-bitwise (lowest_digit (λ rest. rest) max a b)

pub bit_xor-lowest : (a b : ℕ) → bit_xor a b ≡ differ (a % 2) (b % 2) + 2 * bit_xor (a / 2) (b / 2)
bit_xor-lowest zero b = simp bit_xor-bitwise (omega arith)
bit_xor-lowest (suc a) b = simp bit_xor-bitwise (lowest_digit (λ rest. rest) differ a b)

-- Setting a bit above all those of `x` is a sum.
pub bit_or-high : (k x : ℕ) → x < 2 ^ k → bit_or x (2 ^ k) ≡ x + 2 ^ k
bit_or-high zero x h = let e : x ≡ 0 = omega arith in rw e refl
bit_or-high (suc k) x h =
    let e : 2 ^ suc k / 2 ≡ 2 ^ k = omega (arith, pow-suc 2 k) in
    let low : x / 2 < 2 ^ k = omega (arith, pow-suc 2 k) in
    omega (
      arith,
      bit_or-lowest x (2 ^ suc k),
      ap (bit_or (x / 2)) e,
      pow-suc 2 k,
      bit_or-high k (x / 2) low,
    )

differ_twice : (x y : ℕ) → x < 2 → y < 2 → (differ (differ x y) y ≡ x) × (differ x y < 2)
differ_twice zero zero p q = (refl, omega arith)
differ_twice zero (suc zero) p q = (refl, omega arith)
differ_twice (suc zero) zero p q = (refl, omega arith)
differ_twice (suc zero) (suc zero) p q = (refl, omega arith)
differ_twice (suc (suc x)) y p q = absurd (omega arith)
differ_twice zero (suc (suc y)) p q = absurd (omega arith)
differ_twice (suc zero) (suc (suc y)) p q = absurd (omega arith)

xor_twice_below : (n a b : ℕ) → a + b ≤ n → bit_xor (bit_xor a b) b ≡ a
xor_twice_below zero a b h =
    let e : a ≡ 0 = omega arith in let e' : b ≡ 0 = omega arith in rw (e, e') refl
xor_twice_below (suc n) a b h =
    let rest = bit_xor (a / 2) (b / 2) in
    let digit = differ_twice (a % 2) (b % 2) (omega arith) (omega arith) in
    let whole = bit_xor-lowest a b in
    let low : bit_xor a b % 2 ≡ differ (a % 2) (b % 2) = omega (arith, whole, digit.1) in
    let high : bit_xor a b / 2 ≡ rest = omega (arith, whole, digit.1) in
    let again = bit_xor-lowest (bit_xor a b) b in
    let back = xor_twice_below n (a / 2) (b / 2) (omega arith) in
    omega (
      arith,
      again,
      ap (λ d. differ d (b % 2)) low ∙ digit.0,
      ap (λ r. bit_xor r (b / 2)) high ∙ back,
    )

pub bit_xor_twice : (a b : ℕ) → bit_xor (bit_xor a b) b ≡ a
bit_xor_twice a b = xor_twice_below (a + b) a b (omega arith)
