-- ===== src/Preload/Streams/Format.antt =====
-- plrPreload/printf.c and plrPreload/printf_chk.c. The format and its arguments come as the call of
-- `vfprintf` that they make, and as what `vasprintf` makes of them.
use plr.Prelude.{ℕ, some, List, [], ◌∷◌, get_or, if◌then◌else◌, ℤ, pos, eq_ℤ}
use plr.Compare.{SyscallArgs, zero_args}
use plr.SharedData.ExtraShm.{SystemCalls, copy_to_shm, copy_from_shm}
use plr.Preload.Crc.{crc32}
use plr.Preload.Wrapper.{LibcCall, Act, Wrapper, ◌>>=◌, unsigned_long}

-- `vasRet`, and the text at `resStr`; where `vasprintf` fails, that is whatever stands there.
pub record Formatted : Type 0 where
  pub vas_ret : ℤ
  pub res_str : List ℕ

-- The hash of the text, left out where `vasRet` is 0.
unfoldable pub text_hash : Formatted → ℕ
text_hash f = if eq_ℤ f.vas_ret (pos 0) then 0 else crc32 0 f.res_str

-- `args` in `com_vfprintf`
unfoldable pub printf_args : (off : ℕ) → List ℕ → (fn : ℤ) → Formatted → SyscallArgs
unfolding text_hash
printf_args off fnc_name fn f = record zero_args {
  addr = off;
  arg0 = crc32 0 fnc_name;
  arg1 = unsigned_long fn;
  arg2 = text_hash f;
}

module _ {W : Type 0} (calls : SystemCalls) where
  -- `masterAct`
  unfoldable pub printf_master : LibcCall W → Act W
  printf_master call c = do
    let (ret, l) = call c.here
    a ← copy_to_shm calls (l.errno ∷ ret ∷ []) 0 c.area
    some (ret, record { area = a; here = l })

  -- The part of a slave
  unfoldable pub printf_slave : Act W
  printf_slave c = do
    (shm_dat, a) ← copy_from_shm calls 2 0 c.area
    some (
      get_or shm_dat 1 (pos 0),
      record { area = a; here = record (c.here) { errno = get_or shm_dat 0 (pos 0) } },
    )

  -- `com_vfprintf`, for `vfprintf`, `vprintf`, `fprintf` and `printf`
  unfoldable pub printf_wrapper :
      (off_vfprintf : ℕ) → List ℕ → (fn : ℤ) → Formatted → LibcCall W → Wrapper W
  unfolding printf_args printf_master printf_slave
  printf_wrapper off_vfprintf fnc_name fn f vfprintf = record {
    args = printf_args off_vfprintf fnc_name fn f;
    master_act = printf_master vfprintf;
    slave_act = printf_slave;
  }

  -- `com_vfprintf_chk`
  unfoldable pub printf_chk_wrapper :
      (off_vfprintf_chk : ℕ) → List ℕ → (fn flag : ℤ) → Formatted → LibcCall W → Wrapper W
  unfolding printf_args printf_master printf_slave
  printf_chk_wrapper off_vfprintf_chk fnc_name fn flag f vfprintf_chk = record {
    args = record (printf_args off_vfprintf_chk fnc_name fn f) { arg3 = unsigned_long flag };
    master_act = printf_master vfprintf_chk;
    slave_act = printf_slave;
  }
