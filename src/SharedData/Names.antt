-- ===== src/SharedData/Names.antt =====
-- plrCommon/plrSharedData.c: `plrSD_getShmName`, the name of the shared file.
use plr.Prelude.{
  ℕ, zero, suc, ◌+◌, ◌-◌, ◌*◌, ◌/◌, ◌%◌, ◌^◌, ◌≤◌, ◌<◌, ◌≡◌, ◌≢◌, refl, true, drop, inl, inr,
  Bool-cases, List, [], ◌∷◌, ◌++◌, length, length-append, ltb, if◌then◌else◌, if-true, if-false, ℤ,
  pos, negsuc, arith, ap, ◌∙◌, sym,
}
use native.Mathlib.Nat.{pow-suc}

-- `%d` of a number that is not negative, with at most the given number of digits behind the first.
unfoldable pub decimal : (more n : ℕ) → List ℕ
decimal zero n = (b'0' + n % 10) ∷ []
decimal (suc more) n =
    let rest = decimal more (n / 10) in
    if ltb n 10 then (b'0' + n % 10) ∷ [] else rest ++ (b'0' + n % 10) ∷ []

-- `NAME_MAX` of Linux
abbrev pub name_max : ℕ
name_max = 255

-- What `snprintf` writes, unless it is cut off; an `int` has ten digits at most.
unfoldable pub shm_name : (pgid : ℕ) → List ℕ
unfolding decimal
shm_name pgid = b'/' ∷ b'p' ∷ b'l' ∷ b'r' ∷ b'_' ∷ b'd' ∷ b'a' ∷ b't' ∷ b'a' ∷ b'.' ∷ decimal 9 pgid

-- `plrSD_getShmName`: its value and the name.
unfoldable pub get_shm_name : (pgid : ℕ) → ℤ × List ℕ
unfolding shm_name
get_shm_name pgid =
    let w = length (shm_name pgid) in (if ltb w name_max then pos 0 else negsuc 0, shm_name pgid)

-- The number that a list of digits stands for.
read_digits : (so_far : ℕ) → List ℕ → ℕ
read_digits so_far [] = so_far
read_digits so_far (d ∷ ds) = read_digits (so_far * 10 + (d - b'0')) ds

read_digits-last :
    (so_far : ℕ) (ds : List ℕ) (d : ℕ)
    → read_digits so_far (ds ++ d ∷ []) ≡ read_digits so_far ds * 10 + (d - b'0')
unfolding read_digits
read_digits-last so_far [] d = refl
read_digits-last so_far (e ∷ ds) d = read_digits-last (so_far * 10 + (e - b'0')) ds d

read_digits-decimal : (more n : ℕ) → n < 10 ^ suc more → read_digits 0 (decimal more n) ≡ n
unfolding read_digits decimal
read_digits-decimal zero n h = omega arith
read_digits-decimal (suc more) n h = elim (Bool-cases (ltb n 10)) [
  | inl e ↦
      let small : n < 10 = ground arith in
      ap (read_digits 0) (if-true _ (decimal more (n / 10) ++ (b'0' + n % 10) ∷ []) e) ∙ omega arith
  | inr e ↦
      let bound : n / 10 < 10 ^ suc more = omega (arith, pow-suc 10 (suc more)) in
      ap (read_digits 0) (if-false ((b'0' + n % 10) ∷ []) _ e)
      ∙ read_digits-last 0 (decimal more (n / 10)) (b'0' + n % 10)
      ∙ omega (arith, read_digits-decimal more (n / 10) bound)
]

length-decimal : (more n : ℕ) → length (decimal more n) ≤ suc more
unfolding decimal
length-decimal zero n = omega arith
length-decimal (suc more) n = elim (Bool-cases (ltb n 10)) [
  | inl e ↦ omega (
    arith,
    ap (λ ds. length ds)
        (if-true ((b'0' + n % 10) ∷ []) (decimal more (n / 10) ++ (b'0' + n % 10) ∷ []) e),
  )
  | inr e ↦ omega (
    arith,
    ap (λ ds. length ds)
        (if-false ((b'0' + n % 10) ∷ []) (decimal more (n / 10) ++ (b'0' + n % 10) ∷ []) e),
    length-append (decimal more (n / 10)) ((b'0' + n % 10) ∷ []),
    length-decimal more (n / 10),
  )
]

short : (n : ℕ) → n ≤ 20 → ltb n name_max ≡ true
short n h = ground arith

-- The name fits for every process group, and two groups have different names.
pub get_shm_name-distinct :
    (p q : ℕ)
    → p < 2 ^ 31
    → q < 2 ^ 31
    → p ≢ q
    → ((get_shm_name p).0 ≡ pos 0) × ((get_shm_name p).1 ≢ (get_shm_name q).1)
unfolding get_shm_name shm_name
get_shm_name-distinct p q h h' n =
    let size = length-decimal 9 p in
    let fits = short (length (shm_name p)) (omega (arith, size)) in
    (
      rw (fits, get_shm_name) refl,
      λ e. n (
          sym (read_digits-decimal 9 p (omega arith))
          ∙ ap (λ ds. read_digits 0 (drop 10 ds)) e
          ∙ read_digits-decimal 9 q (omega arith)),
    )
