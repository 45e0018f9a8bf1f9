-- ===== src/Util/Strings/Laws.antt =====
-- The escaped text fits its buffer and determines the text.
use plr.Prelude.{
  ℕ, ◌+◌, ◌*◌, ◌≤◌, ◌≡◌, ◌≢◌, refl, ◌==◌, if◌then◌else◌, List, [], ◌∷◌, ◌++◌, none, some, length,
  length-append, arith, ap, true, false, Option-cases, inl, inr, ◌∙◌,
}
use plr.Util.Strings.{escape_letter, escape_byte, expand_escapes}

escape_byte-length : (c : ℕ) → length (escape_byte c) ≤ 2
unfolding escape_byte
escape_byte-length c = ground arith

-- The text and its terminating 0 fit the `2 * strlen(src) + 1` bytes that are allocated.
expand_escapes-length : (src : List ℕ) → length (expand_escapes src) + 1 ≤ 2 * length src + 1
unfolding expand_escapes
expand_escapes-length [] = omega arith
expand_escapes-length (c ∷ src) = omega (
  arith,
  length-append (escape_byte c) (expand_escapes src),
  escape_byte-length c,
  expand_escapes-length src,
)

-- The byte that a letter behind a backslash stands for.
unfoldable pub unescape_letter : ℕ → ℕ
unescape_letter l =
    if l == b'a'
    then 7
    else (if l == b'b'
        then 8
        else (if l == b't'
            then 9
            else (if l == b'n'
                then 10
                else (if l == b'v'
                    then 11
                    else (if l == b'f' then 12 else (if l == b'r' then 13 else l))))))

-- The reader of escaped texts.
unfoldable pub read_escapes : List ℕ → List ℕ
unfolding unescape_letter
read_escapes [] = []
read_escapes (c ∷ []) = c ∷ []
read_escapes (c ∷ l ∷ rest) = elim (c == 92) [
  | true ↦ unescape_letter l ∷ read_escapes rest
  | false ↦ c ∷ read_escapes (l ∷ rest)
]

read_plain : (c : ℕ) (tl : List ℕ) → c ≢ 92 → read_escapes (c ∷ tl) ≡ c ∷ read_escapes tl
unfolding read_escapes
read_plain c [] h = refl
read_plain c (l ∷ rest) h = ground arith

read_letter :
    (l : ℕ) (tl : List ℕ) → read_escapes (92 ∷ l ∷ tl) ≡ unescape_letter l ∷ read_escapes tl
unfolding read_escapes
read_letter l tl = refl

letter-some : (c l : ℕ) → escape_letter c ≡ some l → unescape_letter l ≡ c
unfolding escape_letter unescape_letter
letter-some c l h = ground arith

letter-none : (c : ℕ) → escape_letter c ≡ none → c ≢ 92
unfolding escape_letter
letter-none c h = ground arith

read-escape_byte : (c : ℕ) (tl : List ℕ) → read_escapes (escape_byte c ++ tl) ≡ c ∷ read_escapes tl
unfolding escape_byte
read-escape_byte c tl = elim (Option-cases (escape_letter c)) [
  | inl e ↦ rw (e, escape_byte) (read_plain c tl (letter-none c e))
  | inr (l, e) ↦
      rw (e, escape_byte) (read_letter l tl ∙ ap (λ x. x ∷ read_escapes tl) (letter-some c l e))
]

-- Reading the escapes of the output of `str_expandEscapes` gives the text back, for every text: no
-- two texts are printed alike.
pub read-expand_escapes : (src : List ℕ) → read_escapes (expand_escapes src) ≡ src
unfolding expand_escapes read_escapes
read-expand_escapes [] = refl
read-expand_escapes (c ∷ src) =
    read-escape_byte c (expand_escapes src) ∙ ap (λ xs. c ∷ xs) (read-expand_escapes src)
