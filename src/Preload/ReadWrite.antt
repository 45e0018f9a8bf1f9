-- ===== src/Preload/ReadWrite.antt =====
-- plrPreload/read.c and plrPreload/write.c. A structure of the shared area has a cell for each field:
-- `err`, `ret` and `offs`.
pub mod Laws
pub mod Together
pub mod Detects
pub mod Masked
use plr.Prelude.{
  ℕ, Bool, true, false, Option, none, some, List, [], ◌∷◌, get_or, if◌then◌else◌, ℤ, pos, negsuc,
  pos_part, eq_ℤ, ltb_ℤ,
}
use plr.Compare.{SyscallArgs, zero_args}
use plr.SharedData.ExtraShm.{SystemCalls, Area, copy_to_shm, copy_from_shm, read_cells, write_cells}
use plr.Preload.Crc.{crc32}
use plr.Preload.Wrapper.{
  Local, Libc, seek_set, seek_cur, Caller, Act, Wrapper, ◌>>=◌, unsigned_long, bytes,
}

-- `sizeof(readShmData_t)` and `sizeof(writeShmData_t)`, in cells
abbrev pub shm_data_size : ℕ
shm_data_size = 3

module _ {W : Type 0} (libc : Libc W) (calls : SystemCalls) where
  -- The offset for the slaves: 0 from the initialiser where the call has failed.
  unfoldable pub offset_after : ℤ → ℤ → Local W → ℤ × Local W
  offset_after fd ret l =
      if eq_ℤ ret (negsuc 0) then (pos 0, l) else libc.libc_lseek fd (pos 0) seek_cur l

  -- The end of the part of a slave: seek, and take the master's `errno`.
  unfoldable pub follow_master : ℤ → (err ret offs : ℤ) → Local W → Local W
  follow_master fd err ret offs l =
      let m = if eq_ℤ ret (negsuc 0) then l else (libc.libc_lseek fd offs seek_set l).1 in
      record m { errno = err }

  -- `masterAct` of `read`
  unfoldable pub read_master : ℤ → ℕ → Act W
  unfolding offset_after
  read_master fd count c =
      let (ret, l) = libc.libc_read fd count c.here in
      let (offs, m) = offset_after fd ret l in
      do
        a ← copy_to_shm calls (l.errno ∷ ret ∷ offs ∷ []) 0 c.area
        b ←
            if ltb_ℤ (pos 0) ret
            then copy_to_shm calls (read_cells (pos_part ret) 0 m.buf) shm_data_size a
            else some a
        some (ret, record { area = b; here = m })

  -- The data that a slave takes over.
  unfoldable pub read_data : ℤ → Caller W → Option (Caller W)
  read_data ret c =
      if ltb_ℤ (pos 0) ret
      then (do
        (content, a) ← copy_from_shm calls (pos_part ret) shm_data_size c.area
        some (record {
          area = a;
          here = record (c.here) { buf = write_cells 0 content c.here.buf };
        }))
      else some c

  -- The part of a slave in `read`
  unfoldable pub read_slave : ℤ → Act W
  unfolding read_data follow_master
  read_slave fd c = do
    (shm_dat, a) ← copy_from_shm calls shm_data_size 0 c.area
    let ret = get_or shm_dat 1 (pos 0)
    d ← read_data ret (record c { area = a })
    some (
      ret,
      record d {
        here = follow_master fd (get_or shm_dat 0 (pos 0)) ret (get_or shm_dat 2 (pos 0)) d.here;
      },
    )

  unfoldable pub read_wrapper : (off_read : ℕ) → ℤ → ℕ → Wrapper W
  unfolding read_master read_slave
  read_wrapper off_read fd count = record {
    args = record zero_args { addr = off_read; arg0 = unsigned_long fd; arg2 = count };
    master_act = read_master fd count;
    slave_act = read_slave fd;
  }

  -- `masterAct` of `write`
  unfoldable pub write_master : ℤ → ℕ → Act W
  unfolding offset_after
  write_master fd count c =
      let (ret, l) = libc.libc_write fd count c.here in
      let (offs, m) = offset_after fd ret l in
      do
        a ← copy_to_shm calls (l.errno ∷ ret ∷ offs ∷ []) 0 c.area
        some (ret, record { area = a; here = m })

  -- The part of a slave in `write`
  unfoldable pub write_slave : ℤ → Act W
  unfolding follow_master
  write_slave fd c = do
    (shm_dat, a) ← copy_from_shm calls shm_data_size 0 c.area
    let ret = get_or shm_dat 1 (pos 0)
    some (
      ret,
      record {
        area = a;
        here = follow_master fd (get_or shm_dat 0 (pos 0)) ret (get_or shm_dat 2 (pos 0)) c.here;
      },
    )

  unfoldable pub write_wrapper : (off_write : ℕ) → ℤ → ℕ → Local W → Wrapper W
  unfolding write_master write_slave
  write_wrapper off_write fd count l = record {
    args = record zero_args {
      addr = off_write;
      arg0 = unsigned_long fd;
      arg1 = crc32 0 (bytes count l);
      arg2 = count;
    };
    master_act = write_master fd count;
    slave_act = write_slave fd;
  }
