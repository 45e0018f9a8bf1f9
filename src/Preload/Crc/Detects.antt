-- ===== src/Preload/Crc/Detects.antt =====
-- What a changed byte does to the hash.
use Prim.Native.Nat.{◌^◌, bit_and, bit_xor}
use plr.Prelude.{
  ℕ, zero, suc, ◌+◌, ◌*◌, ◌/◌, ◌%◌, ◌<◌, ◌≡◌, ◌≢◌, refl, List, [], ◌∷◌, ◌++◌, true, ◌==◌, ltb,
  if◌then◌else◌, get_or, ==_iff, all_below, all_below-at, ap, sym, ◌∙◌, arith,
}
use plr.Preload.Crc.{all_ones, crc_byte, crc_loop, crc32}
use plr.Preload.Crc.Table.{crc32_tab}
use plr.Preload.Crc.Laws.{crc_loop-append}
use plr.Preload.Crc.Bits.{
  bit_xor_cancel, bit_xor_cancel_left, bit_xor-high, bit_xor-low, bit_xor-below, bit_xor_zero,
  bit_and-ones,
}

-- Undoes rounds of the shift register, from the highest byte alone: gives the lowest byte before them.
unwind : (rounds high bits : ℕ) → ℕ
unwind zero high bits = bits
unwind (suc rounds) high bits =
    if high / 128 == 1
    then unwind rounds (bit_xor high 0xed * 2 % 256) ((bit_xor bits 0x20 * 2 + 1) % 256)
    else unwind rounds (high * 2 % 256) (bits * 2 % 256)

-- No two entries of the table have the same highest byte.
high_checks : all_below 256 (λ i. unwind 8 (get_or crc32_tab i 0 / 2 ^ 24) 0 == i) ≡ true
unfolding all_below unwind
high_checks = refl

size_checks : all_below 256 (λ i. ltb (get_or crc32_tab i 0) (2 ^ 32)) ≡ true
unfolding all_below
size_checks = refl

entry : ℕ → ℕ
entry i = get_or crc32_tab i 0

entry_high : (i j : ℕ) → i < 256 → j < 256 → entry i / 2 ^ 24 ≡ entry j / 2 ^ 24 → i ≡ j
unfolding entry
entry_high i j h h' e =
    sym ((==_iff _ _).0 (all_below-at 256 _ i high_checks h))
    ∙ ap (λ h. unwind 8 h 0) e
    ∙ (==_iff _ _).0 (all_below-at 256 _ j high_checks h')

entry_below : (i : ℕ) → i < 256 → entry i < 2 ^ 32
unfolding entry
entry_below i h =
    let check = all_below-at 256 (λ j. ltb (get_or crc32_tab j 0) (2 ^ 32)) i size_checks h in
    ground arith

index : ℕ → ℕ → ℕ
index c x = bit_and (bit_xor c x) 0xff

index_mod : (c x : ℕ) → index c x ≡ bit_xor (c % 256) (x % 256)
unfolding index
index_mod c x = bit_and-ones 8 (bit_xor c x) ∙ bit_xor-low 8 c x

index_below : (c x : ℕ) → index c x < 256
unfolding index
index_below c x = omega (arith, bit_and-ones 8 (bit_xor c x))

crc_byte_eq : (c x : ℕ) → crc_byte c x ≡ bit_xor (entry (index c x)) (c / 256)
unfolding crc_byte entry index
crc_byte_eq c x = refl

crc_byte-below : (c x : ℕ) → c < 2 ^ 32 → crc_byte c x < 2 ^ 32
crc_byte-below c x h = rw (crc_byte_eq c x) (
    bit_xor-below 32 (entry (index c x)) (c / 256) (entry_below (index c x) (index_below c x))
      (omega arith))

only_entry : (t c : ℕ) → c < 2 ^ 32 → bit_xor t (c / 256) / 2 ^ 24 ≡ t / 2 ^ 24
only_entry t c h =
    let none : c / 256 / 2 ^ 24 ≡ 0 = omega arith in
    bit_xor-high 24 t (c / 256) ∙ ap (bit_xor (t / 2 ^ 24)) none ∙ bit_xor_zero (t / 2 ^ 24)

-- Of two equal results, the entries that were taken are equal, and so are the registers but for their lowest bytes.
crc_byte_parts :
    (c c' x x' : ℕ)
    → c < 2 ^ 32
    → c' < 2 ^ 32
    → crc_byte c x ≡ crc_byte c' x'
    → (bit_xor (c % 256) (x % 256) ≡ bit_xor (c' % 256) (x' % 256)) × (c / 256 ≡ c' / 256)
crc_byte_parts c c' x x' h h' e =
    let i = index_below c x in
    let j = index_below c' x' in
    let high = ap (λ d. d / 2 ^ 24) (sym (crc_byte_eq c x) ∙ e ∙ crc_byte_eq c' x') in
    let same : index c x ≡ index c' x' =
      entry_high (index c x) (index c' x') i j (
        sym (only_entry (entry (index c x)) c h) ∙ high ∙ only_entry (entry (index c' x')) c' h') in
    (
      sym (index_mod c x) ∙ same ∙ index_mod c' x',
      bit_xor_cancel_left (entry (index c x)) (c / 256) (c' / 256) (
          sym (crc_byte_eq c x)
          ∙ e
          ∙ crc_byte_eq c' x'
          ∙ ap (λ i. bit_xor (entry i) (c' / 256)) (sym same)),
    )

-- The loop loses nothing of the register.
crc_loop_one :
    (xs : List ℕ) (c c' : ℕ) → c < 2 ^ 32 → c' < 2 ^ 32 → crc_loop c xs ≡ crc_loop c' xs → c ≡ c'
unfolding crc_loop
crc_loop_one [] c c' h h' e = e
crc_loop_one (x ∷ xs) c c' h h' e =
    let next =
      crc_loop_one xs (crc_byte c x) (crc_byte c' x) (crc_byte-below c x h) (crc_byte-below c' x h')
        e in
    let parts = crc_byte_parts c c' x x h h' next in
    omega (arith, bit_xor_cancel (c % 256) (c' % 256) (x % 256) parts.0, parts.1)

crc_loop-below : (xs : List ℕ) (c : ℕ) → c < 2 ^ 32 → crc_loop c xs < 2 ^ 32
unfolding crc_loop
crc_loop-below [] c h = h
crc_loop-below (x ∷ xs) c h = crc_loop-below xs (crc_byte c x) (crc_byte-below c x h)

-- From one 32-bit hash value, two buffers that differ in one byte only have different hashes.
pub crc32-detects :
    (crc : ℕ) (before after : List ℕ) (x y : ℕ)
    → crc < 2 ^ 32
    → x < 256
    → y < 256
    → x ≢ y
    → crc32 crc (before ++ x ∷ after) ≢ crc32 crc (before ++ y ∷ after)
unfolding crc32 crc_loop
crc32-detects crc before after x y h p q differ same =
    let start = bit_xor crc all_ones in
    let c = crc_loop start before in
    let bound : c < 2 ^ 32 =
      crc_loop-below before start (bit_xor-below 32 crc all_ones h (omega arith)) in
    let loops : crc_loop start (before ++ x ∷ after) ≡ crc_loop start (before ++ y ∷ after) =
      bit_xor_cancel _ _ all_ones same in
    let tails : crc_loop (crc_byte c x) after ≡ crc_loop (crc_byte c y) after =
      sym (crc_loop-append start before (x ∷ after))
      ∙ loops
      ∙ crc_loop-append start before (y ∷ after) in
    let bytes =
      crc_loop_one after (crc_byte c x) (crc_byte c y) (crc_byte-below c x bound)
        (crc_byte-below c y bound) tails in
    let parts = crc_byte_parts c c x y bound bound bytes in
    differ (omega (arith, bit_xor_cancel_left (c % 256) (x % 256) (y % 256) parts.0))
