-- ===== src/FaultInjection/Images.antt =====
-- Which image `ImageLoad` takes for the library of the overriding functions.
use plr.Prelude.{
  ℕ, zero, suc, ◌+◌, ◌-◌, ◌≡◌, ◌↔◌, refl, true, List, [], ◌∷◌, ◌++◌, length, length-append, take,
  drop, leb, arith, ap, ◌∙◌, sym,
}
use plr.Figurehead.Options.{same_text}
use plr.FaultInjection.Instrument.{target_lib, is_target_lib}

same_text_self : (xs : List ℕ) → same_text xs xs ≡ true
unfolding same_text
same_text_self [] = refl
same_text_self (x ∷ xs) = ground (arith, same_text_self xs)

eq_of_same_text : (xs ys : List ℕ) → same_text xs ys ≡ true → xs ≡ ys
unfolding same_text
eq_of_same_text [] [] h = refl
eq_of_same_text [] (y ∷ ys) h = absurd (ground arith)
eq_of_same_text (x ∷ xs) [] h = absurd (ground arith)
eq_of_same_text (x ∷ xs) (y ∷ ys) h =
    let first : x ≡ y = ground arith in
    let rest : same_text xs ys ≡ true = ground arith in rw (first, eq_of_same_text xs ys rest) refl

take-drop : (n : ℕ) (xs : List ℕ) → take n xs ++ drop n xs ≡ xs
take-drop zero xs = refl
take-drop (suc n) [] = refl
take-drop (suc n) (x ∷ xs) = ap (λ ys. x ∷ ys) (take-drop n xs)

drop-append : (xs ys : List ℕ) → drop (length xs) (xs ++ ys) ≡ ys
drop-append [] ys = refl
drop-append (x ∷ xs) ys = drop-append xs ys

-- `ImageLoad` takes the addresses of an image exactly when its name ends in `libplrPreload.so`.
is_target_lib-suffix :
    (name : List ℕ) → (is_target_lib name ≡ true) ↔ ((path : List ℕ) × (name ≡ path ++ target_lib))
unfolding is_target_lib
is_target_lib-suffix name = (
  λ h.
      let n = length name - length target_lib in
      let same : same_text (drop n name) target_lib ≡ true = ground arith in
      (
        take n name,
        sym (take-drop n name) ∙ ap (λ ys. take n name ++ ys) (eq_of_same_text _ _ same),
      ),
  λ h.
      let (path, e) = h in
      let size : length name ≡ length path + 16 =
        ap (λ xs. length xs) e ∙ length-append path target_lib in
      let start : length name - 16 ≡ length path = omega (arith, size) in
      let end : drop (length name - 16) name ≡ target_lib =
        rw (start, e) (drop-append path target_lib) in
      let long : leb 16 (length name) ≡ true = ground (arith, size) in
      rw (long, end, is_target_lib) (same_text_self target_lib),
)
