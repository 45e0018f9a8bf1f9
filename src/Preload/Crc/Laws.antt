-- ===== src/Preload/Crc/Laws.antt =====
-- The table against the shift register that it stands for, and buffers in parts.
use Prim.Native.Nat.{bit_xor}
use plr.Prelude.{
  ℕ, zero, suc, ◌/◌, ◌%◌, ◌<◌, ◌≡◌, refl, List, [], ◌∷◌, ◌++◌, true, ◌==◌, if◌then◌else◌, get_or,
  ==_iff, all_below, all_below-at, ap, sym, ◌∙◌,
}
use plr.Prelude.Bits.{bit_xor_twice}
use plr.Preload.Crc.{all_ones, crc_byte, crc_loop, crc32}
use plr.Preload.Crc.Table.{crc32_tab}

-- The shift register with the feedback polynomial 0xedb88320, lowest bit first.
unfoldable pub shift_register : ℕ → ℕ → ℕ
shift_register zero x = x
shift_register (suc rounds) x =
    shift_register rounds (if x % 2 == 1 then bit_xor (x / 2) 0xedb88320 else x / 2)

table_checks : all_below 256 (λ i. get_or crc32_tab i 0 == shift_register 8 i) ≡ true
unfolding all_below shift_register
table_checks = refl

-- Each of the 256 entries of the table is what eight rounds of the shift register make of its index.
pub crc32_tab-shift_register : (i : ℕ) → i < 256 → get_or crc32_tab i 0 ≡ shift_register 8 i
crc32_tab-shift_register i h = (==_iff _ _).0 (all_below-at 256 _ i table_checks h)

pub crc_loop-append :
    (crc : ℕ) (xs ys : List ℕ) → crc_loop crc (xs ++ ys) ≡ crc_loop (crc_loop crc xs) ys
unfolding crc_loop
crc_loop-append crc [] ys = refl
crc_loop-append crc (x ∷ xs) ys = crc_loop-append (crc_byte crc x) xs ys

-- A buffer can be hashed in parts: starting from the hash of the first part, the hash of the second
-- is that of the whole.
crc32-append : (crc : ℕ) (xs ys : List ℕ) → crc32 (crc32 crc xs) ys ≡ crc32 crc (xs ++ ys)
unfolding crc32
crc32-append crc xs ys =
    ap (λ c. bit_xor (crc_loop c ys) all_ones)
      (bit_xor_twice (crc_loop (bit_xor crc all_ones) xs) all_ones)
    ∙ ap (λ c. bit_xor c all_ones) (sym (crc_loop-append (bit_xor crc all_ones) xs ys))
