-- ===== src/Preload/Crc/Bits.antt =====
-- `^` and `& 0xff` on numbers of several bits.
use Prim.Native.Nat.{
  ℕ, zero, suc, ◌+◌, ◌*◌, ◌/◌, ◌%◌, ◌^◌, ◌≤◌, ◌<◌, min, differ, bit_and, bit_xor, bit_and-bitwise,
  bit_xor-bitwise,
}
use mathlib.Core.Path.{◌≡◌, refl, ap, sym, ◌∙◌}
use native.Mathlib.Nat.{pow-suc, div-div-eq-div-mul, mod-add-div, mul_assoc, pow-succ'}
use native.Mathlib.Omega.{arith}
use plr.Prelude.Bits.{lowest_digit, bit_xor-lowest, bit_xor_twice}

differ_comm : (x y : ℕ) → differ x y ≡ differ y x
differ_comm zero zero = refl
differ_comm zero (suc y) = refl
differ_comm (suc x) zero = refl
differ_comm (suc x) (suc y) = differ_comm x y

digit_below : (x y : ℕ) → x < 2 → y < 2 → differ x y < 2
digit_below zero y p q = q
digit_below (suc zero) zero p q = omega arith
digit_below (suc zero) (suc y) p q = omega arith
digit_below (suc (suc x)) y p q = absurd (omega arith)

pub lowest_bit : (a b : ℕ) → bit_xor a b % 2 ≡ differ (a % 2) (b % 2)
lowest_bit a b =
    omega (arith, bit_xor-lowest a b, digit_below (a % 2) (b % 2) (omega arith) (omega arith))

half_xor : (a b : ℕ) → bit_xor a b / 2 ≡ bit_xor (a / 2) (b / 2)
half_xor a b =
    omega (arith, bit_xor-lowest a b, digit_below (a % 2) (b % 2) (omega arith) (omega arith))

comm_below : (n a b : ℕ) → a + b ≤ n → bit_xor a b ≡ bit_xor b a
comm_below zero a b h =
    let e : a ≡ 0 = omega arith in let e' : b ≡ 0 = omega arith in rw (e, e') refl
comm_below (suc n) a b h = omega (
  arith,
  bit_xor-lowest a b,
  bit_xor-lowest b a,
  differ_comm (a % 2) (b % 2),
  comm_below n (a / 2) (b / 2) (omega arith),
)

pub bit_xor_comm : (a b : ℕ) → bit_xor a b ≡ bit_xor b a
bit_xor_comm a b = comm_below (a + b) a b (omega arith)

zero_xor : (b : ℕ) → bit_xor 0 b ≡ b
zero_xor b = simp bit_xor-bitwise refl

pub bit_xor_zero : (a : ℕ) → bit_xor a 0 ≡ a
bit_xor_zero a = bit_xor_comm a 0 ∙ zero_xor a

pub bit_xor_cancel : (a a' b : ℕ) → bit_xor a b ≡ bit_xor a' b → a ≡ a'
bit_xor_cancel a a' b h = sym (bit_xor_twice a b) ∙ ap (λ c. bit_xor c b) h ∙ bit_xor_twice a' b

pub bit_xor_cancel_left : (a b b' : ℕ) → bit_xor a b ≡ bit_xor a b' → b ≡ b'
bit_xor_cancel_left a b b' h = bit_xor_cancel b b' a (bit_xor_comm b a ∙ h ∙ bit_xor_comm a b')

-- The low bits and the high bits of a number that is one bit longer.
split_low : (k a : ℕ) → a % 2 ^ suc k ≡ a % 2 + 2 * (a / 2 % 2 ^ k)
split_low k a =
    let whole = mod-add-div a (2 * 2 ^ k) in
    let half = mod-add-div (a / 2) (2 ^ k) in
    let same = ap (λ q. 2 ^ k * q) (div-div-eq-div-mul a 2 (2 ^ k)) in
    let double = mul_assoc 2 (2 ^ k) (a / (2 * 2 ^ k)) in
    ap (λ m. a % m) (pow-succ' 2 k) ∙ omega (arith, whole, half, same, double)

split_high : (k a : ℕ) → a / 2 ^ suc k ≡ a / 2 / 2 ^ k
split_high k a = ap (λ m. a / m) (pow-succ' 2 k) ∙ sym (div-div-eq-div-mul a 2 (2 ^ k))

pub bit_xor-high : (k a b : ℕ) → bit_xor a b / 2 ^ k ≡ bit_xor (a / 2 ^ k) (b / 2 ^ k)
bit_xor-high zero a b =
    let e : a / 1 ≡ a = omega arith in
    let e' : b / 1 ≡ b = omega arith in
    omega (arith, ap (λ c. bit_xor c (b / 1)) e, ap (bit_xor a) e')
bit_xor-high (suc k) a b =
    split_high k (bit_xor a b)
    ∙ ap (λ c. c / 2 ^ k) (half_xor a b)
    ∙ bit_xor-high k (a / 2) (b / 2)
    ∙ rw (split_high k a, split_high k b) refl

pub bit_xor-low : (k a b : ℕ) → bit_xor a b % 2 ^ k ≡ bit_xor (a % 2 ^ k) (b % 2 ^ k)
bit_xor-low zero a b =
    let e : a % 1 ≡ 0 = omega arith in
    let e' : b % 1 ≡ 0 = omega arith in
    omega (arith, ap (λ c. bit_xor c (b % 1)) e, ap (bit_xor 0) e')
bit_xor-low (suc k) a b =
    let x = a % 2 ^ suc k in
    let y = b % 2 ^ suc k in
    let e : x % 2 ≡ a % 2 = omega (arith, split_low k a) in
    let e' : y % 2 ≡ b % 2 = omega (arith, split_low k b) in
    let f : x / 2 ≡ a / 2 % 2 ^ k = omega (arith, split_low k a) in
    let f' : y / 2 ≡ b / 2 % 2 ^ k = omega (arith, split_low k b) in
    let whole = bit_xor-lowest x y in
    let digit : differ (x % 2) (y % 2) ≡ differ (a % 2) (b % 2) = rw (e, e') refl in
    let rest : bit_xor (x / 2) (y / 2) ≡ bit_xor (a / 2 % 2 ^ k) (b / 2 % 2 ^ k) =
      rw (f, f') refl in
    omega (
      arith,
      whole,
      digit,
      rest,
      split_low k (bit_xor a b),
      lowest_bit a b,
      ap (λ c. c % 2 ^ k) (half_xor a b),
      bit_xor-low k (a / 2) (b / 2),
    )

pub bit_xor-below : (k a b : ℕ) → a < 2 ^ k → b < 2 ^ k → bit_xor a b < 2 ^ k
bit_xor-below zero a b h h' =
    let e : a ≡ 0 = omega arith in let e' : b ≡ 0 = omega arith in rw (e, e') (omega arith)
bit_xor-below (suc k) a b h h' = omega (
  arith,
  bit_xor-lowest a b,
  digit_below (a % 2) (b % 2) (omega arith) (omega arith),
  pow-suc 2 k,
  bit_xor-below k (a / 2) (b / 2) (omega (arith, pow-suc 2 k)) (omega (arith, pow-suc 2 k)),
)

-- The number of `k` ones.
abbrev pub ones : ℕ → ℕ
ones zero = 0
ones (suc k) = 1 + 2 * ones k

and_lowest : (a b : ℕ) → bit_and a b ≡ min (a % 2) (b % 2) + 2 * bit_and (a / 2) (b / 2)
and_lowest zero b = simp bit_and-bitwise (omega arith)
and_lowest (suc a) b = simp bit_and-bitwise (lowest_digit (λ rest. 0) min a b)

and_zero : (n a : ℕ) → a ≤ n → bit_and a 0 ≡ 0
and_zero zero a h = let e : a ≡ 0 = omega arith in rw e refl
and_zero (suc n) a h = omega (arith, and_lowest a 0, and_zero n (a / 2) (omega arith))

pub bit_and-ones : (k a : ℕ) → bit_and a (ones k) ≡ a % 2 ^ k
bit_and-ones zero a = omega (arith, and_zero a a (omega arith))
bit_and-ones (suc k) a =
    let e : ones (suc k) / 2 ≡ ones k = omega arith in
    let e' : ones (suc k) % 2 ≡ 1 = omega arith in
    omega (
      arith,
      and_lowest a (ones (suc k)),
      ap (bit_and (a / 2)) e,
      ap (min (a % 2)) e',
      bit_and-ones k (a / 2),
      split_low k a,
    )
