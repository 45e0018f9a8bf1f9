-- ===== src/Preload/Streams.antt =====
-- plrPreload: what the overriding functions for streams share. Each has a structure in the shared area
-- of which a cell stands for a field.
pub mod Blocks
pub mod Chars
pub mod Lines
pub mod Texts
pub mod Seek
pub mod Format
pub mod Named
pub mod Keeps
pub mod Laws
pub mod Agree
pub mod Sought
pub mod Items
pub mod Deliver
pub mod Together
pub mod Once
use plr.Prelude.{ℕ, Option, none, some, List, [], ◌∷◌, get_or, if◌then◌else◌, ℤ, pos, negsuc, eq_ℤ}
use plr.Compare.{zero_args}
use plr.SharedData.ExtraShm.{SystemCalls, copy_to_shm, copy_from_shm}
use plr.Preload.Wrapper.{
  Local, Libc, LibcCall, seek_set, Caller, Act, ◌>>=◌, unsigned_long, store_args,
}

abbrev pub eof : ℤ
eof = negsuc 0

-- What a process knows of the call that has been made: `errno`, the value that is returned, and the
-- state of the stream.
pub record StreamDat : Type 0 where
  pub err : ℤ
  pub ret : ℤ
  pub offs : ℤ
  pub at_eof : ℤ
  pub ferr : ℤ

-- `freadShmData_t`, `fwriteShmData_t`, `fgetcShmData_t`, `fputcShmData_t`, `putsShmData_t` and
-- `fputsShmData_t`
abbrev pub stream_data_size : ℕ
stream_data_size = 5

abbrev pub to_cells : StreamDat → List ℤ
to_cells d = d.err ∷ d.ret ∷ d.offs ∷ d.at_eof ∷ d.ferr ∷ []

abbrev pub of_cells : List ℤ → StreamDat
of_cells xs = record {
  err = get_or xs 0 (pos 0);
  ret = get_or xs 1 (pos 0);
  offs = get_or xs 2 (pos 0);
  at_eof = get_or xs 3 (pos 0);
  ferr = get_or xs 4 (pos 0);
}

module _ {W : Type 0} (libc : Libc W) (calls : SystemCalls) (stream : ℕ) where
  -- The assignments to `shmDat` after the call of the master.
  unfoldable pub stream_dat : (ret : ℤ) → Local W → StreamDat × Local W
  stream_dat ret l =
      let (offs, l1) = libc.libc_ftell stream l in
      let (at_eof, l2) = libc.libc_feof stream l1 in
      let (ferr, l3) = libc.libc_ferror stream l2 in
      (record { err = l.errno; ret = ret; offs = offs; at_eof = at_eof; ferr = ferr }, l3)

  -- `fflush` and `fsync` after an output.
  unfoldable pub flush_stream : (fn : ℤ) → Local W → Local W
  flush_stream fn l = let (_, m) = libc.libc_fflush stream l in (libc.libc_fsync fn m).1

  -- `exitState`: the state of the stream is recorded for one more comparison.
  unfoldable pub exit_state : Caller W → Caller W
  unfolding store_args
  exit_state c =
      let (offs, l1) = libc.libc_ftell stream c.here in
      let (at_eof, l2) = libc.libc_feof stream l1 in
      let (ferr, l3) = libc.libc_ferror stream l2 in
      store_args
        (record zero_args {
          arg0 = unsigned_long offs;
          arg1 = unsigned_long at_eof;
          arg2 = unsigned_long ferr;
        })
        (record c { here = l3 })

  -- The end of all: every process returns what is in `shmDat`.
  unfoldable pub stream_return : StreamDat → Act W
  unfolding exit_state
  stream_return d c =
      let e = exit_state c in some (d.ret, record e { here = record (e.here) { errno = d.err } })

  -- The end of `masterAct`: the structure, and `exit(1)` if the stream has an error; then the end of
  -- all.
  unfoldable pub stream_publish : List ℤ → StreamDat → Act W
  unfolding stream_return
  stream_publish cells d c = do
    a ← copy_to_shm calls cells 0 c.area
    if eq_ℤ d.ferr (pos 0) then stream_return d (record c { area = a }) else none

  -- The same with a buffer behind the structure, which has `size` cells.
  unfoldable pub stream_publish_data : (size : ℕ) → List ℤ → List ℤ → StreamDat → Act W
  unfolding stream_return
  stream_publish_data size cells content d c = do
    a ← copy_to_shm calls cells 0 c.area
    b ← copy_to_shm calls content size a
    if eq_ℤ d.ferr (pos 0) then stream_return d (record c { area = b }) else none

  -- `fgetc` at the end of the file sets its indicator again.
  unfoldable pub reset_eof : ℤ → Local W → Option (Local W)
  reset_eof at_eof l =
      if eq_ℤ at_eof (pos 0)
      then some l
      else (let (c, l1) = libc.libc_fgetc stream l in if eq_ℤ c eof then some l1 else none)

  -- The part of a slave behind its copies, with the end of all.
  unfoldable pub stream_follow : StreamDat → Act W
  unfolding reset_eof stream_return
  stream_follow d c = do
    let (_, l) = libc.libc_fseek stream d.offs seek_set c.here
    m ← reset_eof d.at_eof l
    if eq_ℤ d.ferr (pos 0) then stream_return d (record c { here = m }) else none

  -- A call for input, or for output, of the master.
  unfoldable pub input_master : LibcCall W → Act W
  unfolding stream_dat stream_publish
  input_master call c =
      let (ret, l) = call c.here in
      let (d, m) = stream_dat ret l in stream_publish (to_cells d) d (record c { here = m })

  unfoldable pub output_master : (fn : ℤ) → LibcCall W → Act W
  unfolding flush_stream stream_dat stream_publish
  output_master fn call c =
      let (ret, l) = call c.here in
      let (d, m) = stream_dat ret (flush_stream fn l) in
      stream_publish (to_cells d) d (record c { here = m })

  -- The part of a slave in functions that fill no buffer.
  unfoldable pub stream_slave : Act W
  unfolding stream_follow
  stream_slave c = do
    (shm_dat, a) ← copy_from_shm calls stream_data_size 0 c.area
    stream_follow (of_cells shm_dat) (record c { area = a })
