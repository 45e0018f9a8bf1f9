-- ===== src/Preload/Streams/Blocks.antt =====
-- plrPreload/fread.c and plrPreload/fwrite.c. `fn` is the file number of the stream.
use plr.Prelude.{ℕ, ◌*◌, Option, some, if◌then◌else◌, ℤ, pos, pos_part, ltb_ℤ}
use plr.Compare.{zero_args}
use plr.SharedData.ExtraShm.{SystemCalls, copy_from_shm, read_cells, write_cells}
use plr.Preload.Crc.{crc32}
use plr.Preload.Wrapper.{Local, Libc, Caller, Act, Wrapper, ◌>>=◌, unsigned_long, bytes}
use plr.Preload.Streams.{
  stream_data_size, to_cells, of_cells, stream_dat, stream_publish_data, stream_follow,
  output_master, stream_slave,
}

module _ {W : Type 0} (libc : Libc W) (calls : SystemCalls) where
  -- `masterAct` of `fread`; `ret` is a number of elements, and that many bytes are copied.
  unfoldable pub fread_master : (size nmemb stream : ℕ) → Act W
  unfolding stream_dat stream_publish_data
  fread_master size nmemb stream c =
      let (ret, l) = libc.libc_fread size nmemb stream c.here in
      let (d, m) = stream_dat libc calls stream ret l in
      stream_publish_data libc calls stream stream_data_size (to_cells d)
        (read_cells (pos_part ret) 0 m.buf) d (record c { here = m })

  -- The data that a slave of `fread` takes over.
  unfoldable pub fread_data : ℤ → Caller W → Option (Caller W)
  fread_data ret c =
      if ltb_ℤ (pos 0) ret
      then (do
        (content, a) ← copy_from_shm calls (pos_part ret) stream_data_size c.area
        some (record {
          area = a;
          here = record (c.here) { buf = write_cells 0 content c.here.buf };
        }))
      else some c

  -- The part of a slave in `fread`
  unfoldable pub fread_slave : ℕ → Act W
  unfolding fread_data stream_follow
  fread_slave stream c = do
    (shm_dat, a) ← copy_from_shm calls stream_data_size 0 c.area
    let d = of_cells shm_dat
    e ← fread_data d.ret (record c { area = a })
    stream_follow libc calls stream d e

  -- `fread`
  unfoldable pub fread_wrapper : (off_fread : ℕ) (fn : ℤ) (size nmemb stream : ℕ) → Wrapper W
  unfolding fread_master fread_slave
  fread_wrapper off_fread fn size nmemb stream = record {
    args = record zero_args {
      addr = off_fread;
      arg0 = unsigned_long fn;
      arg1 = size;
      arg2 = nmemb;
    };
    master_act = fread_master size nmemb stream;
    slave_act = fread_slave stream;
  }

  -- `fwrite`
  unfoldable pub fwrite_wrapper :
      (off_fwrite : ℕ) (fn : ℤ) (size nmemb stream : ℕ) → Local W → Wrapper W
  unfolding output_master stream_slave
  fwrite_wrapper off_fwrite fn size nmemb stream l = record {
    args = record zero_args {
      addr = off_fwrite;
      arg0 = unsigned_long fn;
      arg1 = size;
      arg2 = nmemb;
      arg3 = crc32 0 (bytes (size * nmemb) l);
    };
    master_act = output_master libc calls stream fn (libc.libc_fwrite size nmemb stream);
    slave_act = stream_slave libc calls stream;
  }
