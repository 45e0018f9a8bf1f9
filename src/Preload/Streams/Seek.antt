-- ===== src/Preload/Streams/Seek.antt =====
-- plrPreload/fseek.c. The structure has the cells `err`, `ret`, `offs` and `ferr`.
use plr.Prelude.{ℕ, none, some, [], ◌∷◌, get_or, if◌then◌else◌, ℤ, pos, eq_ℤ}
use plr.Compare.{zero_args}
use plr.SharedData.ExtraShm.{SystemCalls, copy_to_shm, copy_from_shm}
use plr.Preload.Wrapper.{
  Libc, Whence, seek_set, seek_cur, seek_end, Act, Wrapper, ◌>>=◌, unsigned_long,
}
use plr.Preload.Streams.{exit_state}

-- `sizeof(fseekShmData_t)`, in cells
abbrev pub seek_data_size : ℕ
seek_data_size = 4

-- The values of `SEEK_SET`, `SEEK_CUR` and `SEEK_END` on Linux
abbrev pub whence_value : Whence → ℕ
whence_value seek_set = 0
whence_value seek_cur = 1
whence_value seek_end = 2

module _ {W : Type 0} (libc : Libc W) (calls : SystemCalls) (stream : ℕ) where
  -- The master: `masterAct` of `fseek`, and its way to the end with its own `ret` and `errno`. The lines for
  -- the log call `ftell` before and after the seek.
  unfoldable pub fseek_master : ℤ → Whence → Act W
  unfolding exit_state
  fseek_master offset whence c = do
    let (_, l0) = libc.libc_ftell stream c.here
    let (ret, sought) = libc.libc_fseek stream offset whence l0
    let (_, l) = libc.libc_ftell stream sought
    let (offs, l1) = libc.libc_ftell stream l
    let (ferr, l2) = libc.libc_ferror stream l1
    a ← copy_to_shm calls (l.errno ∷ ret ∷ offs ∷ ferr ∷ []) 0 c.area
    if eq_ℤ ferr (pos 0)
        then some (ret, exit_state libc calls stream (record { area = a; here = l2 }))
        else none

  -- A slave, to its end
  unfoldable pub fseek_slave : Act W
  unfolding exit_state
  fseek_slave c = do
    (shm_dat, a) ← copy_from_shm calls seek_data_size 0 c.area
    let (_, l) = libc.libc_fseek stream (get_or shm_dat 2 (pos 0)) seek_set c.here
    if eq_ℤ (get_or shm_dat 3 (pos 0)) (pos 0)
        then (let e = exit_state libc calls stream (record { area = a; here = l }) in
            some (
              get_or shm_dat 1 (pos 0),
              record e { here = record (e.here) { errno = get_or shm_dat 0 (pos 0) } },
            ))
        else none

  -- `fseek`
  unfoldable pub fseek_wrapper : (off_fseek : ℕ) (fn offset : ℤ) → Whence → Wrapper W
  unfolding fseek_master fseek_slave
  fseek_wrapper off_fseek fn offset whence = record {
    args = record zero_args {
      addr = off_fseek;
      arg0 = unsigned_long fn;
      arg1 = unsigned_long offset;
      arg2 = whence_value whence;
    };
    master_act = fseek_master offset whence;
    slave_act = fseek_slave;
  }
