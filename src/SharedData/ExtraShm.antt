-- ===== src/SharedData/ExtraShm.antt =====
-- plrCommon/plrSharedData.c and plrCommon/plr.c: the extra area of shared memory, which grows on
-- demand and which each process maps anew when it has grown. One cell of the area holds one field of
-- a structure or one byte of a buffer. What the system calls return is a parameter.
pub mod Laws
pub mod Refines
use plr.Prelude.{
  ℕ, zero, suc, ◌+◌, ◌-◌, ◌%◌, Bool, true, false, Option, none, some, List, [], ◌∷◌, length, ◌==◌,
  ltb, leb, ◌&&◌, ◌||◌, if◌then◌else◌, update, ℤ, pos, negsuc, pos_part, eq_ℤ, ltb_ℤ,
}
use plr.SharedData.{PerProcData, PlrData}

-- `plrSD_extraShmOffset`, when it has not been cached: the size of the fixed data, rounded up to pages.
unfoldable pub extra_shm_offset : ℕ → ℕ → ℕ
extra_shm_offset page_size fixed_data_size =
    let rem = fixed_data_size % page_size in
    if rem == 0 then fixed_data_size else (fixed_data_size + page_size) - rem

-- The conversion of a `size_t` to `int`.
abbrev pub int_of_size : ℕ → ℤ
int_of_size n =
    let low = n % 4294967296 in
    if ltb low 2147483648 then pos low else negsuc ((4294967296 - low) - 1)

-- What `shm_open` returns, and whether the other calls succeed; `ftruncate` fails where the sum of the
-- offset and the size leaves `int`, since it is negative then.
pub record SystemCalls : Type 0 where
  pub opened : ℤ
  pub truncated : Bool
  pub mapped : Bool
  pub unmapped : Bool

-- One process and the area: the shared record, its own record, its pointer `extraShm` (whether it is
-- the address of a mapping), and the cells.
pub record Area : Type 0 where
  pub plr : PlrData
  pub proc : PerProcData
  pub extra_shm_valid : Bool
  pub cells : ℕ → ℤ

-- The file is opened unless that has been done.
unfoldable pub open_extra : SystemCalls → Area → Area
open_extra calls a =
    if eq_ℤ (a.proc).shm_fd (negsuc 0)
    then record a { proc = record (a.proc) { shm_fd = calls.opened } }
    else a

-- `plrSD_resizeExtraShm`, with the `size_t` that is converted to the `int` that it takes.
unfoldable pub resize_extra_shm : SystemCalls → ℕ → Area → ℤ × Area
unfolding open_extra
resize_extra_shm calls min_size a =
    let b = open_extra calls a in
    let min = int_of_size min_size in
    if ltb_ℤ (pos (b.plr).extra_shm_size) min
    then (
      if calls.truncated then pos 0 else negsuc 0,
      record b { plr = record (b.plr) { extra_shm_size = pos_part min } },
    )
    else (pos 0, b)

-- The part of `plrSD_refreshExtraShm` for an area that has grown. The second mapping is taken as it
-- comes back, since the test behind it looks at `plrShm`.
unfoldable pub map_extra : SystemCalls → Area → ℤ × Area
map_extra calls a =
    let after = record (a.proc) { extra_shm_mapped = (a.plr).extra_shm_size } in
    if (a.proc).extra_shm_mapped == 0
    then (if calls.mapped
        then (pos 0, record a { extra_shm_valid = true; proc = after })
        else (negsuc 0, record a { extra_shm_valid = false }))
    else (if calls.unmapped
        then (pos 0, record a { extra_shm_valid = calls.mapped; proc = after })
        else (negsuc 0, a))

-- `plrSD_refreshExtraShm`
unfoldable pub refresh_extra_shm : SystemCalls → Area → ℤ × Area
unfolding open_extra map_extra
refresh_extra_shm calls a =
    let b = open_extra calls a in
    if ltb (b.proc).extra_shm_mapped (b.plr).extra_shm_size then map_extra calls b else (pos 0, b)

-- `memcpy` to and from the cells.
unfoldable pub write_cells : ℕ → List ℤ → (ℕ → ℤ) → ℕ → ℤ
write_cells offset [] cells = cells
write_cells offset (x ∷ src) cells = update (write_cells (offset + 1) src cells) offset x

unfoldable pub read_cells : (length offset : ℕ) → (ℕ → ℤ) → List ℤ
read_cells zero offset cells = []
read_cells (suc n) offset cells = cells offset ∷ read_cells n (offset + 1) cells

-- Whether `memcpy` of `n` cells stays inside of what the process has mapped; where it does not, the process
-- is ended by a signal. That the last page is mapped to its end is left out.
abbrev pub accessible : (n offset : ℕ) → Area → Bool
accessible n offset a =
    (n == 0) || (a.extra_shm_valid && leb (offset + n) (a.proc).extra_shm_mapped)

-- `plr_copyToShm`; none if the process ends, by `exit(1)` or in `memcpy`.
unfoldable pub copy_to_shm : SystemCalls → List ℤ → ℕ → Area → Option Area
unfolding resize_extra_shm refresh_extra_shm write_cells
copy_to_shm calls src offset a =
    let (ret, b) = resize_extra_shm calls (offset + length src) a in
    if ltb_ℤ ret (pos 0)
    then none
    else (let (ret', c) = refresh_extra_shm calls b in
        if ltb_ℤ ret' (pos 0)
        then none
        else (if accessible (length src) offset c
            then some (record c { cells = write_cells offset src c.cells })
            else none))

-- `plr_copyFromShm`, with the same ends
unfoldable pub copy_from_shm : SystemCalls → (length offset : ℕ) → Area → Option (List ℤ × Area)
unfolding refresh_extra_shm read_cells
copy_from_shm calls n offset a =
    let (ret, b) = refresh_extra_shm calls a in
    if ltb_ℤ ret (pos 0)
    then none
    else (if accessible n offset b then some (read_cells n offset b.cells, b) else none)
