-- ===== src/FaultInjection/Flips.antt =====
-- Which bits of a register a fault changes.
use Prim.Native.Nat.{differ, bit_xor}
use plr.Prelude.{
  ℕ, zero, suc, ◌-◌, ◌/◌, ◌%◌, ◌^◌, ◌≤◌, ◌<◌, ◌≡◌, ◌↔◌, refl, none, some, ◌==◌, leb, ltb,
  if◌then◌else◌, Bool, true, false, dec_lt, sym, ==_iff, all_below, all_below-at, arith, ap, ◌∙◌,
}
use mathlib.Core.Bool.{false≢true}
use plr.Preload.Crc.Bits.{lowest_bit, bit_xor-high}
use plr.FaultInjection.Registers.{shifted_one, flip_bit}

-- Bit `j` of a register.
abbrev pub bit : ℕ → ℕ → ℕ
bit j value = value / 2 ^ j % 2

bit-xor : (j value mask : ℕ) → bit j (bit_xor value mask) ≡ differ (bit j value) (bit j mask)
bit-xor j value mask =
    ap (λ n. n % 2) (bit_xor-high j value mask) ∙ lowest_bit (value / 2 ^ j) (mask / 2 ^ j)

digit_kept : (x d : ℕ) → x < 2 → d < 2 → (differ x d ≡ x) ↔ (d ≡ 0)
digit_kept zero zero h p = (λ _. refl, λ _. refl)
digit_kept zero (suc d) h p = (λ e. e, λ e. e)
digit_kept (suc zero) zero h p = (λ _. refl, λ _. refl)
digit_kept (suc zero) (suc zero) h p = (λ e. absurd (omega arith), λ e. absurd (omega arith))
digit_kept (suc (suc x)) d h p = absurd (omega arith)
digit_kept (suc zero) (suc (suc d)) h p = absurd (omega arith)

bit_kept : (j value mask : ℕ) → (bit j (bit_xor value mask) ≡ bit j value) ↔ (bit j mask ≡ 0)
bit_kept j value mask =
    let k = digit_kept (bit j value) (bit j mask) (omega arith) (omega arith) in
    let e = bit-xor j value mask in (λ h. k.0 (omega (arith, e, h)), λ h. omega (arith, e, k.1 h))

powers_check :
    all_below 31 (λ k. all_below 64 (λ j. bit j (2 ^ k) == (if j == k then 1 else 0))) ≡ true
unfolding all_below
powers_check = refl

negative_check : all_below 64 (λ j. bit j (2 ^ 64 - 2 ^ 31) == (if leb 31 j then 1 else 0)) ≡ true
unfolding all_below
negative_check = refl

power_bit : (j k : ℕ) → k < 31 → j < 64 → bit j (2 ^ k) ≡ (if j == k then 1 else 0)
power_bit j k h p = (==_iff _ _).0 (all_below-at 64 _ j (all_below-at 31 _ k powers_check h) p)

negative_bit : (j : ℕ) → j < 64 → bit j (2 ^ 64 - 2 ^ 31) ≡ (if leb 31 j then 1 else 0)
negative_bit j p = (==_iff _ _).0 (all_below-at 64 _ j negative_check p)

-- The bits that a fault at bit `k` changes: that one, but for 31 all from there on.
unfoldable pub changes : (k j : ℕ) → Bool
changes k j = if ltb k 31 then j == k else leb 31 j

marks : (d : ℕ) (b : Bool) → d ≡ (if b then 1 else 0) → (d ≡ 0) ↔ (b ≡ false)
marks d true e = (λ h. absurd (omega (arith, e, h)), λ h. absurd (false≢true (sym h)))
marks d false e = (λ _. refl, λ _. e)

unchanged :
    (j value mask : ℕ) (b : Bool)
    → bit j mask ≡ (if b then 1 else 0)
    → (bit j (bit_xor value mask) ≡ bit j value) ↔ (b ≡ false)
unchanged j value mask b e =
    let m = marks (bit j mask) b e in
    let k = bit_kept j value mask in (λ same. m.0 (k.0 same), λ off. k.1 (m.1 off))

-- The fault of `injectFault_ins` at bit `k` of a register is defined for `k` below 32. Below 31 it
-- changes bit `k` and no other of the 64 bits; at 31 it changes all bits from 31 on and no other.
pub flip_bit_lem :
    (k value j : ℕ)
    → k < 32
    → j < 64
    → (w : ℕ) × (flip_bit k value ≡ some w) × ((bit j w ≡ bit j value) ↔ (changes k j ≡ false))
unfolding flip_bit shifted_one changes
flip_bit_lem k value j h p = elim (dec_lt k 31) [
  | yes low ↦
      let small : ltb k 31 ≡ true = ground arith in
      (
        bit_xor value (2 ^ k),
        rw (small, flip_bit, shifted_one) refl,
        rw (small, changes) (unchanged j value (2 ^ k) (j == k) (power_bit j k low p)),
      )
  | no high ↦
      let large : ltb k 31 ≡ false = ground arith in
      let last : (k == 31) ≡ true = ground arith in
      (
        bit_xor value (2 ^ 64 - 2 ^ 31),
        rw (large, last, flip_bit, shifted_one) refl,
        rw (large, changes) (unchanged j value (2 ^ 64 - 2 ^ 31) (leb 31 j) (negative_bit j p)),
      )
]

-- From 32 places on the shift is not defined, though the bit is drawn from 0 to 63.
pub flip_bit-none : (k value : ℕ) → 32 ≤ k → flip_bit k value ≡ none
unfolding flip_bit shifted_one
flip_bit-none k value h = ground arith
