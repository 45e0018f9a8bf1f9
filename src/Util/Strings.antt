-- ===== src/Util/Strings.antt =====
-- plrCommon/stringUtil.c: the text that is printed for a text with control characters. A text is the
-- list of its bytes in front of the terminating 0.
pub mod Laws
use plr.Prelude.{ℕ, ◌==◌, if◌then◌else◌, List, [], ◌∷◌, ◌++◌, Option, none, some}

-- The switch: the letter behind the backslash, for the bytes that have one.
unfoldable pub escape_letter : ℕ → Option ℕ
escape_letter c =
    if c == 7
    then some b'a'
    else (if c == 8
        then some b'b'
        else (if c == 9
            then some b't'
            else (if c == 10
                then some b'n'
                else (if c == 11
                    then some b'v'
                    else (if c == 12
                        then some b'f'
                        else (if c == 13
                            then some b'r'
                            else (if c == 92
                                then some 92
                                else (if c == 34 then some 34 else none))))))))

-- What one round of the loop writes.
unfoldable pub escape_byte : ℕ → List ℕ
unfolding escape_letter
escape_byte c = elim (escape_letter c) [ some l ↦ 92 ∷ l ∷ [] | none ↦ c ∷ [] ]

-- `str_expandEscapes`
unfoldable pub expand_escapes : List ℕ → List ℕ
unfolding escape_byte
expand_escapes [] = []
expand_escapes (c ∷ src) = escape_byte c ++ expand_escapes src
