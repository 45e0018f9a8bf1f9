-- ===== src/Examples/Calls.antt =====
-- Instances of the theorems on the overriding functions and the extra area, on the small machine.
use plr.Prelude.{◌≢◌, ◌≤◌, ◌≡◌, refl, some, [], ◌∷◌, get_or, ℤ, pos, arith}
use plr.Prelude.{Option, none, ◌==◌, if◌then◌else◌}
use plr.SharedData.ExtraShm.{Area, copy_to_shm, copy_from_shm}
use plr.SharedData.ExtraShm.Laws.{Mapped, copy_to_shm-inside}
use plr.Preload.Wrapper.{Caller}
use plr.Preload.Crc.{crc32}
use plr.Preload.Crc.Table.{crc32_tab}
use plr.Preload.Crc.Laws.{shift_register, crc32_tab-shift_register}
use plr.Preload.Crc.Detects.{crc32-detects}
use plr.Preload.Streams.Blocks.{fread_slave}
use plr.Preload.Streams.Laws.{fread_slave-rest}
use plr.Examples.Machine.{
  machine-Keeps_buf, World, machine, all_succeed, new_area, new_area-Mapped, caller,
}

crc32_tab-shift_register_example : get_or crc32_tab 200 0 ≡ shift_register 8 200
crc32_tab-shift_register_example = crc32_tab-shift_register 200 (omega arith)

crc32-detects_example : crc32 0 (b'a' ∷ b'b' ∷ b'c' ∷ []) ≢ crc32 0 (b'a' ∷ b'd' ∷ b'c' ∷ [])
crc32-detects_example =
    crc32-detects 0 (b'a' ∷ []) (b'c' ∷ []) b'b' b'd' (omega arith) (omega arith) (omega arith)
      (omega arith)

copy_to_shm-inside_example :
    (b : Area) × (copy_to_shm all_succeed (pos 1 ∷ pos 2 ∷ []) 3 new_area ≡ some b)
    × (5 ≤ (b.proc).extra_shm_mapped)
    × Mapped b
    × ((b.proc).extra_shm_mapped ≡ (b.plr).extra_shm_size)
copy_to_shm-inside_example =
    copy_to_shm-inside all_succeed (pos 1 ∷ pos 2 ∷ []) 3 new_area (omega arith) (refl, refl, refl)
      new_area-Mapped

-- The master has read one element of two bytes, `7` and `8`; its first byte is in the area.
abbrev fread_sent : Caller World
fread_sent = record caller {
  area = record new_area {
    plr = record (new_area.plr) { extra_shm_size = 6 };
    cells = λ j. if j == 1 then pos 1 else (if j == 5 then pos 7 else pos 0);
  };
}

abbrev fread_done : Option (ℤ × Caller World) → Caller World
fread_done none = caller
fread_done (some x) = x.1

fread_slave-rest_example :
    (fread_done (fread_slave machine all_succeed 1 fread_sent)).here.buf 1 ≡ caller.here.buf 1
unfolding fread_slave copy_from_shm
fread_slave-rest_example =
    fread_slave-rest machine all_succeed 1 fread_sent
      (fread_done (fread_slave machine all_succeed 1 fread_sent)) (pos 1) 1 machine-Keeps_buf refl
      (omega arith)
