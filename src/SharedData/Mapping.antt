-- ===== src/SharedData/Mapping.antt =====
-- plrCommon/plrSharedData.c: the file of the shared data, as it is made, mapped and removed, and
-- plrCommon/plr.c: `plr_figureheadInit` and `plr_figureheadExit`. The system calls are an interface.
pub mod Posix
pub mod Laws
use plr.Prelude.{
  ℕ, ◌+◌, ◌-◌, ◌*◌, Bool, true, false, Option, none, some, List, if◌then◌else◌, ℤ, pos, negsuc,
  eq_ℤ, ltb_ℤ,
}
use plr.SharedData.{PlrData}
use plr.SharedData.Names.{get_shm_name}
use plr.SharedData.ExtraShm.{int_of_size}

-- The system calls on a world `W`. An address is a number, none for `MAP_FAILED`.
pub record ShmCalls (W : Type 0) : Type 0 where
  pub getpgrp : ℕ
  pub shm_open : (name : List ℕ) (create : Bool) → W → ℤ × W
  pub ftruncate : (fd size : ℤ) → W → ℤ × W
  pub mmap : (size : ℕ) (fd : ℤ) → W → Option ℕ × W
  pub munmap : (addr size : ℕ) → W → ℤ × W
  pub close : (fd : ℤ) → W → W
  pub shm_unlink : (name : List ℕ) → W → ℤ × W
  pub prctl_subreaper : W → ℤ × W
  -- the record at an address, read and written
  pub load : (addr : ℕ) → W → PlrData
  pub store : (addr : ℕ) → PlrData → W → W

-- `plrShm` and `allProcShm` of a process, none for `NULL` and `MAP_FAILED`.
pub record Pointers : Type 0 where
  pub plr_shm : Option ℕ
  pub all_proc_shm : Option ℕ

abbrev pub Outcome : Type 0 → Type 0
Outcome W = ℤ × Pointers × W

-- The conversion of an `int` to `size_t`.
abbrev pub size_of_int : ℤ → ℕ
size_of_int (pos n) = n
size_of_int (negsuc n) = 18446744073709551615 - n

-- `plr_data_size` and `proc_data_size` are the sizes of `plrData_t` and `perProcData_t`.
module _ {W : Type 0} (os : ShmCalls W) (plr_data_size proc_data_size : ℕ) where
  -- `plrSD_openShmFile`
  unfoldable pub open_shm_file : (create : Bool) → W → ℤ × W
  unfolding get_shm_name
  open_shm_file create w =
      let (fd, v) = os.shm_open (get_shm_name os.getpgrp).1 create w in
      if ltb_ℤ fd (pos 0) then (negsuc 0, v) else (fd, v)

  -- `shmSize`, an `int`
  abbrev pub shm_size : (n_proc : ℕ) → ℤ
  shm_size n_proc = int_of_size (plr_data_size + n_proc * proc_data_size)

  -- The last `mmap` of both functions, with what follows it.
  unfoldable pub map_shm : (n_proc : ℕ) (fd : ℤ) → Pointers → W → Outcome W
  map_shm n_proc fd p w =
      let (mapped, v) = os.mmap (size_of_int (shm_size n_proc)) fd w in
      elim mapped [
        | none ↦ (negsuc 0, record p { plr_shm = none }, v)
        | some addr ↦ (
          pos 0,
          record { plr_shm = some addr; all_proc_shm = some (addr + plr_data_size) },
          os.close fd v,
        )
      ]

  -- The test of what a function of PLR returns.
  abbrev pub after : Outcome W → (Pointers → W → Outcome W) → Outcome W
  after (ret, p, w) k = if ltb_ℤ ret (pos 0) then (negsuc 0, p, w) else k p w

  -- A change of the record that `plrShm` points to, which is not `NULL` here, and `return 0`.
  abbrev pub modify_plr : (PlrData → PlrData) → Pointers → W → Outcome W
  modify_plr f p w = elim p.plr_shm [
    | none ↦ (pos 0, p, w)
    | some addr ↦ (pos 0, p, os.store addr (f (os.load addr w)) w)
  ]

  -- `plrSD_initSharedData`
  unfoldable pub create_shared_data : (n_proc : ℕ) → Pointers → W → Outcome W
  unfolding open_shm_file map_shm
  create_shared_data n_proc p w =
      let (fd, w1) = open_shm_file true w in
      let (r, w2) = os.ftruncate fd (shm_size n_proc) w1 in
      if eq_ℤ r (negsuc 0)
      then (negsuc 0, p, w2)
      else after (map_shm n_proc fd p w2) (modify_plr (λ d. record d { n_proc = n_proc }))

  -- `plrSD_acquireSharedData`
  unfoldable pub acquire_shared_data : Pointers → W → Outcome W
  unfolding open_shm_file map_shm
  acquire_shared_data p w =
      let (fd, w1) = open_shm_file false w in
      let (mapped, w2) = os.mmap plr_data_size fd w1 in
      elim mapped [
        | none ↦ (negsuc 0, record p { plr_shm = none }, w2)
        | some addr ↦
            let n_proc = (os.load addr w2).n_proc in
            let (r, w3) = os.munmap addr plr_data_size w2 in
            if ltb_ℤ r (pos 0)
            then (negsuc 0, record p { plr_shm = some addr }, w3)
            else map_shm n_proc fd (record p { plr_shm = some addr }) w3
      ]

  -- `plrSD_cleanupSharedData`
  unfoldable pub cleanup_shared_data : W → ℤ × W
  unfolding get_shm_name
  cleanup_shared_data w =
      let (r, v) = os.shm_unlink (get_shm_name os.getpgrp).1 w in
      (if ltb_ℤ r (pos 0) then negsuc 0 else pos 0, v)

  -- `plr_figureheadInit`
  unfoldable pub figurehead_start :
      (n_proc pintool_mode pid : ℕ) (watchdog_timeout_ms : ℤ) → Pointers → W → Outcome W
  unfolding create_shared_data
  figurehead_start n_proc pintool_mode pid watchdog_timeout_ms p w =
      let (r, w1) = os.prctl_subreaper w in
      if ltb_ℤ r (pos 0)
      then (negsuc 0, p, w1)
      else after (create_shared_data n_proc p w1) (
          modify_plr (λ d. record d {
            figurehead_pid = pid;
            inside_plr_init_true = pintool_mode;
            watchdog_timeout = watchdog_timeout_ms;
          }))

  -- `plr_figureheadExit`
  unfoldable pub figurehead_exit : W → ℤ × W
  unfolding cleanup_shared_data
  figurehead_exit w =
      let (r, v) = cleanup_shared_data w in (if ltb_ℤ r (pos 0) then negsuc 0 else pos 0, v)
