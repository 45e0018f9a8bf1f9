-- ===== src/Prelude/Family.antt =====
-- Arrays of a fixed size as families `ℕ → A`: a write at one index, a loop over the first indices,
-- and sums over them.
use Prim.Native.Nat.{ℕ, zero, suc, ◌+◌, ◌≤◌, ◌<◌}
use mathlib.Core.Path.{◌≡◌, refl}
use mathlib.Core.Logic.{◌≢◌}
use native.Mathlib.Decide.{dec_lt}
use native.Mathlib.Omega.{arith}
use plr.Prelude.Tests.{◌==◌, if◌then◌else◌}

-- `f` with another value at place `i`.
abbrev pub update {ℓ} : {A : Type ℓ} → (ℕ → A) → ℕ → A → ℕ → A
update f i a j = if j == i then a else f j

module _ {ℓ} {A : Type ℓ} (w : A → ℕ) where
  pub total : ℕ → (ℕ → A) → ℕ
  total zero place = 0
  total (suc n) place = w (place n) + total n place

  pub total_ext :
      (n : ℕ) (f g : ℕ → A) → ((j : ℕ) → j < n → w (f j) ≡ w (g j)) → total n f ≡ total n g
  unfolding total
  total_ext zero f g h = refl
  total_ext (suc n) f g h =
      let rest = total_ext n f g (λ j p. h j (omega arith)) in
      omega (arith, rest, h n (omega arith))

  pub total_mono : (n : ℕ) (f : ℕ → A) → ((a : A) → w a ≤ 1) → total n f ≤ n
  unfolding total
  total_mono zero f h = omega arith
  total_mono (suc n) f h = omega (arith, total_mono n f h, h (f n))

  -- Two families that differ at one place only.
  pub total_change :
      (n : ℕ) (f g : ℕ → A) (i : ℕ)
      → ((j : ℕ) → j < n → j ≢ i → w (f j) ≡ w (g j))
      → i < n
      → total n g + w (f i) ≡ total n f + w (g i)
  unfolding total
  total_change zero f g i h p = absurd (omega arith)
  total_change (suc n) f g i h p = elim (dec_lt i n) [
    | yes below ↦
        let rest = total_change n f g i (λ j q. h j (omega arith)) below in
        omega (arith, rest, h n (omega arith) (omega arith))
    | no last ↦
        let e : i ≡ n = omega arith in
        let rest = total_ext n f g (λ j q. h j (omega arith) (omega arith)) in
        rw e (omega (arith, rest))
  ]

  pub total-full :
      (n : ℕ) (f : ℕ → A) → ((a : A) → w a ≤ 1) → total n f ≡ n → (i : ℕ) → i < n → w (f i) ≡ 1
  unfolding total
  total-full zero f h e i p = absurd (omega arith)
  total-full (suc n) f h e i p = elim (dec_lt i n) [
    | yes below ↦ total-full n f h (omega (arith, h (f n), total_mono n f h)) i below
    | no last ↦ let same : i ≡ n = omega arith in rw same (omega (arith, h (f n), total_mono n f h))
  ]

  pub total-zero : (n : ℕ) (f : ℕ → A) → ((i : ℕ) → i < n → w (f i) ≡ 0) → total n f ≡ 0
  unfolding total
  total-zero zero f h = refl
  total-zero (suc n) f h =
      omega (arith, h n (omega arith), total-zero n f (λ i p. h i (omega arith)))

  pub total-ge : (n : ℕ) (f : ℕ → A) (i : ℕ) → i < n → w (f i) ≤ total n f
  unfolding total
  total-ge zero f i p = absurd (omega arith)
  total-ge (suc n) f i p = elim (dec_lt i n) [
    | yes below ↦ omega (arith, total-ge n f i below)
    | no last ↦ let e : i ≡ n = omega arith in rw e (omega arith)
  ]
