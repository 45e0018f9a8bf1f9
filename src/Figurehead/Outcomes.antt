-- ===== src/Figurehead/Outcomes.antt =====
-- What is to be known of a part of `main` when it is a part of a run that returns 0.
use plr.Prelude.{ℕ, ◌≡◌, ◌≢◌, refl, Bool, true, false, if◌then◌else◌, arith, ap}
use plr.Figurehead.{Outcome, goes_on, returns, out_of_fuel, Part}

-- The program goes on only with a value for which `Q` holds, and no return before is one with 0.
unfoldable pub OnlyIf : {W A : Type 0} → (A → Type 0) → Outcome W A → Type 0
OnlyIf Q (goes_on a w) = Q a
OnlyIf Q (returns status w) = status ≢ 0
OnlyIf Q out_of_fuel = Unit {0}

abbrev pub Any : {A : Type 0} → A → Type 0
Any a = Unit {0}

pub after-OnlyIf :
    {W A B : Type 0} (Q : A → Type 0) (R : B → Type 0) (o : Outcome W A) (k : A → Part W B)
    → OnlyIf Q o
    → ((a : A) (v : W) → Q a → OnlyIf R (k a v))
    → OnlyIf R
        (elim o [ goes_on a v ↦ k a v | returns n v ↦ returns n v | out_of_fuel ↦ out_of_fuel ])
unfolding OnlyIf
after-OnlyIf Q R (goes_on a w) k h next = next a w h
after-OnlyIf Q R (returns status w) k h next = h
after-OnlyIf Q R out_of_fuel k h next = tt

one≢zero : ◌≢◌ {A = ℕ} 1 0
one≢zero e = absurd (omega arith)

pub weaken-OnlyIf :
    {W A : Type 0} (Q R : A → Type 0) (o : Outcome W A)
    → ((a : A) → Q a → R a)
    → OnlyIf Q o
    → OnlyIf R o
unfolding OnlyIf
weaken-OnlyIf Q R (goes_on a w) f h = f a h
weaken-OnlyIf Q R (returns status w) f h = h
weaken-OnlyIf Q R out_of_fuel f h = tt

-- What `return 0` behind a part says of it.
abbrev pub then_zero : {W : Type 0} → Outcome W (Unit {0}) → Outcome W (Unit {0})
then_zero o = elim o [
  | goes_on a v ↦ returns 0 v
  | returns n v ↦ returns n v
  | out_of_fuel ↦ out_of_fuel
]

abbrev pub status_of : {W : Type 0} → Outcome W (Unit {0}) → ℕ
status_of (goes_on a w) = 1
status_of (returns status w) = status
status_of out_of_fuel = 1

pub then_zero-OnlyIf :
    {W : Type 0} (Q : Type 0) (o : Outcome W (Unit {0})) (v : W)
    → OnlyIf (λ _. Q) o
    → then_zero o ≡ returns 0 v
    → Q
unfolding OnlyIf
then_zero-OnlyIf Q (goes_on a w) v h e = h
then_zero-OnlyIf Q (returns status w) v h e = absurd (h (ap status_of e))
then_zero-OnlyIf Q out_of_fuel v h e = absurd (one≢zero (ap status_of e))

pub if-OnlyIf :
    {W A : Type 0} (Q : A → Type 0) (b : Bool) (x y : Outcome W A)
    → (b ≡ true → OnlyIf Q x)
    → (b ≡ false → OnlyIf Q y)
    → OnlyIf Q (if b then x else y)
if-OnlyIf Q true x y f g = f refl
if-OnlyIf Q false x y f g = g refl

pub goes : {W A : Type 0} (Q : A → Type 0) (a : A) (w : W) → Q a → OnlyIf Q (goes_on a w)
unfolding OnlyIf
goes Q a w h = h

pub fails : {W A : Type 0} (Q : A → Type 0) (w : W) → OnlyIf Q (returns 1 w)
unfolding OnlyIf
fails Q w = λ e. absurd (omega arith)

-- A test that ends `main` with 1.
pub fails_if :
    {W A : Type 0} (Q : A → Type 0) (b : Bool) (w : W) (y : Outcome W A)
    → (b ≡ false → OnlyIf Q y)
    → OnlyIf Q (if b then returns 1 w else y)
fails_if Q b w y f = if-OnlyIf Q b (returns 1 w) y (λ _. fails Q w) f
