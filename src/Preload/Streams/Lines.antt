-- ===== src/Preload/Streams/Lines.antt =====
-- plrPreload/fgets.c and plrPreload/gets.c. The structure has the cells `err`, `retNull`, `sLen`,
-- `offs`, `eof` and `ferr`.
use plr.Prelude.{
  ℕ, zero, suc, Option, some, List, [], ◌∷◌, get_or, if◌then◌else◌, ℤ, pos, pos_part, eq_ℤ,
}
use plr.Compare.{zero_args}
use plr.SharedData.ExtraShm.{SystemCalls, copy_from_shm, read_cells, write_cells}
use plr.Preload.Wrapper.{Libc, LibcCall, Caller, Act, Wrapper, ◌>>=◌, unsigned_long}
use plr.Preload.Streams.{StreamDat, stream_dat, stream_publish, stream_publish_data, stream_follow}

-- `sizeof(fgetsShmData_t)` and `sizeof(getsShmData_t)`, in cells
abbrev pub line_data_size : ℕ
line_data_size = 6

-- `strlen`, on a buffer that has a 0 within its first `bound` cells.
unfoldable pub strlen : (bound i : ℕ) → (ℕ → ℤ) → ℕ
strlen zero i buf = 0
strlen (suc bound) i buf =
    let rest = suc (strlen bound (suc i) buf) in if eq_ℤ (buf i) (pos 0) then 0 else rest

abbrev pub line_cells : (s_len : ℕ) → StreamDat → List ℤ
line_cells s_len d =
    d.err
    ∷ (if eq_ℤ d.ret (pos 0) then pos 1 else pos 0)
    ∷ pos s_len
    ∷ d.offs
    ∷ d.at_eof
    ∷ d.ferr
    ∷ []

-- What a process makes of the structure; `s` is the address of its own buffer.
abbrev pub of_line_cells : (s : ℤ) → List ℤ → StreamDat
of_line_cells s xs = record {
  err = get_or xs 0 (pos 0);
  ret = if eq_ℤ (get_or xs 1 (pos 0)) (pos 0) then s else pos 0;
  offs = get_or xs 3 (pos 0);
  at_eof = get_or xs 4 (pos 0);
  ferr = get_or xs 5 (pos 0);
}

module _ {W : Type 0} (libc : Libc W) (calls : SystemCalls) (bound stream : ℕ) where
  -- `masterAct` of `fgets` and `gets`; `call` returns the address of the buffer, or 0.
  unfoldable pub line_master : LibcCall W → Act W
  unfolding strlen stream_dat stream_publish stream_publish_data
  line_master call c =
      let (ret, l) = call c.here in
      let (d, m) = stream_dat libc calls stream ret l in
      if eq_ℤ ret (pos 0)
      then stream_publish libc calls stream (line_cells 0 d) d (record c { here = m })
      else (let s_len = suc (strlen bound 0 l.buf) in
          stream_publish_data libc calls stream line_data_size (line_cells s_len d)
            (read_cells s_len 0 m.buf) d (record c { here = m }))

  -- The text that a slave takes over, unless the master has got `NULL`.
  unfoldable pub line_data : List ℤ → Caller W → Option (Caller W)
  line_data shm_dat c =
      if eq_ℤ (get_or shm_dat 1 (pos 0)) (pos 0)
      then (do
        (text, a) ← copy_from_shm calls (pos_part (get_or shm_dat 2 (pos 0))) line_data_size c.area
        some (record { area = a; here = record (c.here) { buf = write_cells 0 text c.here.buf } }))
      else some c

  -- The part of a slave in `fgets` and `gets`
  unfoldable pub line_slave : (s : ℤ) → Act W
  unfolding line_data stream_follow
  line_slave s c = do
    (shm_dat, a) ← copy_from_shm calls line_data_size 0 c.area
    e ← line_data shm_dat (record c { area = a })
    stream_follow libc calls stream (of_line_cells s shm_dat) e

  -- `fgets`
  unfoldable pub fgets_wrapper : (off_fgets : ℕ) (s : ℤ) (size fn : ℤ) → Wrapper W
  unfolding line_master line_slave
  fgets_wrapper off_fgets s size fn = record {
    args = record zero_args {
      addr = off_fgets;
      arg0 = unsigned_long fn;
      arg1 = unsigned_long size;
    };
    master_act = line_master (libc.libc_fgets s size stream);
    slave_act = line_slave s;
  }

  -- `gets`; `stream` is `stdin`.
  unfoldable pub gets_wrapper : (off_gets : ℕ) (s : ℤ) → Wrapper W
  unfolding line_master line_slave
  gets_wrapper off_gets s = record {
    args = record zero_args { addr = off_gets };
    master_act = line_master (libc.libc_gets s);
    slave_act = line_slave s;
  }
