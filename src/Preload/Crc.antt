-- ===== src/Preload/Crc.antt =====
-- plrPreload/crc32_util.c. A `uint32_t` is a number below `2 ^ 32`, and a buffer the list of its bytes.
pub mod Table
pub mod Bits
pub mod Laws
pub mod Detects
use Prim.Native.Nat.{bit_and, bit_xor}
use plr.Prelude.{ℕ, ◌/◌, List, [], ◌∷◌, get_or}
use plr.Preload.Crc.Table.{crc32_tab}

-- `~0U`
abbrev pub all_ones : ℕ
all_ones = 0xffffffff

-- One round of the loop.
unfoldable pub crc_byte : ℕ → ℕ → ℕ
crc_byte crc p = bit_xor (get_or crc32_tab (bit_and (bit_xor crc p) 0xff) 0) (crc / 256)

-- The loop, on the rest of the buffer.
unfoldable pub crc_loop : ℕ → List ℕ → ℕ
unfolding crc_byte
crc_loop crc [] = crc
crc_loop crc (p ∷ rest) = crc_loop (crc_byte crc p) rest

-- `crc32`
unfoldable pub crc32 : ℕ → List ℕ → ℕ
unfolding crc_loop
crc32 crc buf = bit_xor (crc_loop (bit_xor crc all_ones) buf) all_ones
