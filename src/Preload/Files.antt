-- ===== src/Preload/Files.antt =====
-- plrPreload/open.c, plrPreload/fopen.c, plrPreload/unlink.c and plrPreload/close.c. The flags are those
-- of Linux.
pub mod Follows
pub mod Together
pub mod Laws
use Prim.Native.Nat.{bit_and}
use plr.Prelude.{
  ℕ, ◌-◌, Bool, true, false, not, Option, none, some, List, [], ◌∷◌, get_or, ◌==◌, if◌then◌else◌, ℤ,
  pos, negsuc, eq_ℤ, ltb_ℤ,
}
use plr.Compare.{SyscallArgs, zero_args}
use plr.SharedData.ExtraShm.{SystemCalls, copy_to_shm, copy_from_shm}
use plr.Preload.Crc.{crc32}
use plr.Preload.Wrapper.{
  Local, Libc, LibcCall, Caller, Act, Wrapper, ◌>>=◌, unsigned_long, just_call,
}

abbrev pub o_creat : ℕ
o_creat = 0x40

abbrev pub o_excl : ℕ
o_excl = 0x80

-- `flags & ~O_EXCL`
abbrev pub without_excl : ℕ → ℕ
without_excl flags = flags - bit_and flags o_excl

-- `mode`: the third argument, if there is one.
abbrev pub open_mode : ℕ → ℕ → ℕ
open_mode flags third = if bit_and flags o_creat == 0 then 0 else third

module _ {W : Type 0} (libc : Libc W) (calls : SystemCalls) where
  -- `masterAct` of `commonOpen`
  unfoldable pub open_master : List ℕ → ℕ → ℕ → Act W
  open_master pathname flags mode c = do
    a ← copy_to_shm calls [] 0 c.area
    let (ret, l) = libc.libc_open pathname flags mode c.here
    b ← copy_to_shm calls (l.errno ∷ ret ∷ []) 0 a
    some (ret, record { area = b; here = l })

  -- The part of a slave in `commonOpen`
  unfoldable pub open_slave : List ℕ → ℕ → ℕ → Act W
  open_slave pathname flags mode c = do
    (shm_dat, a) ← copy_from_shm calls 2 0 c.area
    let err = get_or shm_dat 0 (pos 0)
    let ret = get_or shm_dat 1 (pos 0)
    if ltb_ℤ ret (pos 0)
        then some (ret, record { area = a; here = record (c.here) { errno = err } })
        else (let (fd, l) = libc.libc_open pathname (without_excl flags) mode c.here in
            some (fd, record { area = a; here = l }))

  -- `commonOpen`, for `open` and for `open64`, which look up their own function; `third` is the argument
  -- behind the flags.
  unfoldable pub open_wrapper : (off_open : ℕ) → List ℕ → ℕ → (third : ℕ) → Wrapper W
  unfolding open_master open_slave
  open_wrapper off_open pathname flags third =
      let mode = open_mode flags third in
      record {
        args = record zero_args {
          addr = off_open;
          arg0 = crc32 0 pathname;
          arg1 = flags;
          arg2 = mode;
        };
        master_act = open_master pathname flags mode;
        slave_act = open_slave pathname flags mode;
      }

  -- `masterAct` of `fopen`
  unfoldable pub fopen_master : List ℕ → List ℕ → Act W
  fopen_master path mode c = do
    a ← copy_to_shm calls [] 0 c.area
    let (ret, l) = libc.libc_fopen path mode c.here
    let failed = if eq_ℤ ret (pos 0) then pos 1 else pos 0
    b ← copy_to_shm calls (l.errno ∷ failed ∷ []) 0 a
    some (ret, record { area = b; here = l })

  -- The part of a slave in `fopen`: where the master has failed, `ret` is left without a value in the
  -- source, which `unset` stands for.
  unfoldable pub fopen_slave : (unset : ℤ) → List ℕ → List ℕ → Act W
  fopen_slave unset path mode c = do
    (shm_dat, a) ← copy_from_shm calls 2 0 c.area
    if eq_ℤ (get_or shm_dat 1 (pos 0)) (pos 0)
        then (let (ret, l) = libc.libc_fopen path mode c.here in
            some (ret, record { area = a; here = l }))
        else some (
          unset,
          record { area = a; here = record (c.here) { errno = get_or shm_dat 0 (pos 0) } },
        )

  -- `fopen`
  unfoldable pub fopen_wrapper : (off_fopen : ℕ) (unset : ℤ) → List ℕ → List ℕ → Wrapper W
  unfolding fopen_master fopen_slave
  fopen_wrapper off_fopen unset path mode = record {
    args = record zero_args { addr = off_fopen; arg0 = crc32 0 path; arg1 = crc32 0 mode };
    master_act = fopen_master path mode;
    slave_act = fopen_slave unset path mode;
  }

  -- `masterAct` of `unlink`
  unfoldable pub unlink_master : List ℕ → Act W
  unlink_master pathname c = do
    let (ret, l) = libc.libc_unlink pathname c.here
    a ← copy_to_shm calls (l.errno ∷ ret ∷ []) 0 c.area
    some (ret, record { area = a; here = l })

  -- The part of a slave in `unlink`
  unfoldable pub unlink_slave : Act W
  unlink_slave c = do
    (shm_dat, a) ← copy_from_shm calls 2 0 c.area
    some (
      get_or shm_dat 1 (pos 0),
      record { area = a; here = record (c.here) { errno = get_or shm_dat 0 (pos 0) } },
    )

  -- `unlink`
  unfoldable pub unlink_wrapper : (off_unlink : ℕ) → List ℕ → Wrapper W
  unfolding unlink_master unlink_slave
  unlink_wrapper off_unlink pathname = record {
    args = record zero_args { addr = off_unlink; arg0 = crc32 0 pathname };
    master_act = unlink_master pathname;
    slave_act = unlink_slave;
  }

  -- `close`: every process closes its own descriptor.
  unfoldable pub close_wrapper : (off_close : ℕ) → ℤ → Wrapper W
  unfolding just_call
  close_wrapper off_close fd = record {
    args = record zero_args { addr = off_close; arg0 = unsigned_long fd };
    master_act = λ c. some (just_call (libc.libc_close fd) c);
    slave_act = λ c. some (just_call (libc.libc_close fd) c);
  }

  -- `getpid`: every process returns the pid of the figurehead.
  unfoldable pub getpid_wrapper : (off_getpid : ℕ) → Wrapper W
  getpid_wrapper off_getpid = record {
    args = record zero_args { addr = off_getpid };
    master_act = λ c. some (pos c.area.plr.figurehead_pid, c);
    slave_act = λ c. some (pos c.area.plr.figurehead_pid, c);
  }
