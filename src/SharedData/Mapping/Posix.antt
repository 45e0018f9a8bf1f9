-- ===== src/SharedData/Mapping/Posix.antt =====
-- The system calls for shared memory as POSIX describes them, and how a function that uses them ends.
use plr.Prelude.{ℕ, ◌≤◌, ◌≡◌, Bool, true, false, Option, none, some, ℤ, pos, negsuc, eq_ℤ, ltb_ℤ}
use plr.SharedData.{PlrData, init_shared_data}
use plr.SharedData.Names.{get_shm_name}
use plr.SharedData.Mapping.{ShmCalls, Pointers, Outcome}

-- The object with the name of the group, and its start.
pub record Object : Type 0 where
  pub size : ℕ
  pub plr : PlrData

-- What is to be seen of a world: the object, if there is one; whether a descriptor refers to it; and
-- the size of a mapping of it at an address.
pub record ShmView (W : Type 0) : Type 0 where
  pub object : W → Option Object
  pub refers : W → ℤ → Bool
  pub mapping : W → ℕ → Option ℕ

-- The system calls as POSIX describes them, where they succeed. A new object has no bytes, and what
-- `ftruncate` adds is zero; `created` and `resized` say together that the start of it is zero then.
pub record ShmLaws {W : Type 0} (os : ShmCalls W) (view : ShmView W) (plr_data_size : ℕ)
    : Type 0 where
  pub created :
      (w : W)
      → let made = os.shm_open (get_shm_name os.getpgrp).1 true w in
        ltb_ℤ made.0 (pos 0) ≡ false
        → (view.object w ≡ none)
          × (view.object made.1 ≡ some (record { size = 0; plr = init_shared_data 0 }))
          × (view.refers made.1 made.0 ≡ true)
  pub found :
      (w : W)
      → let file = os.shm_open (get_shm_name os.getpgrp).1 false w in
        ltb_ℤ file.0 (pos 0) ≡ false
        → (view.object file.1 ≡ view.object w) × (view.refers file.1 file.0 ≡ true)
  pub resized :
      (fd : ℤ) (size : ℕ) (w : W) (o : Object)
      → view.refers w fd ≡ true
      → view.object w ≡ some o
      → eq_ℤ (os.ftruncate fd (pos size) w).0 (negsuc 0) ≡ false
      → (view.object (os.ftruncate fd (pos size) w).1 ≡ some (record o { size = size }))
        × (view.refers (os.ftruncate fd (pos size) w).1 fd ≡ true)
  pub bad_ftruncate : (size : ℤ) (w : W) → (os.ftruncate (negsuc 0) size w).0 ≡ negsuc 0
  pub mapped :
      (size : ℕ) (fd : ℤ) (w : W) (addr : ℕ)
      → view.refers w fd ≡ true
      → (os.mmap size fd w).0 ≡ some addr
      → (view.object (os.mmap size fd w).1 ≡ view.object w)
        × (view.refers (os.mmap size fd w).1 fd ≡ true)
        × (view.mapping (os.mmap size fd w).1 addr ≡ some size)
  pub bad_mmap : (size : ℕ) (w : W) → (os.mmap size (negsuc 0) w).0 ≡ none
  pub unmapped :
      (addr size : ℕ) (fd : ℤ) (w : W)
      → (view.object (os.munmap addr size w).1 ≡ view.object w)
        × (view.refers (os.munmap addr size w).1 fd ≡ view.refers w fd)
  pub closed :
      (fd : ℤ) (w : W) (addr : ℕ)
      → (view.object (os.close fd w) ≡ view.object w)
        × (view.mapping (os.close fd w) addr ≡ view.mapping w addr)
  pub subreaper : (w : W) → view.object (os.prctl_subreaper w).1 ≡ view.object w
  pub loaded :
      (addr size : ℕ) (w : W) (o : Object)
      → view.mapping w addr ≡ some size
      → plr_data_size ≤ size
      → view.object w ≡ some o
      → os.load addr w ≡ o.plr
  pub stored :
      (addr size : ℕ) (d : PlrData) (w : W) (o : Object)
      → view.mapping w addr ≡ some size
      → plr_data_size ≤ size
      → view.object w ≡ some o
      → (view.object (os.store addr d w) ≡ some (record o { plr = d }))
        × (view.mapping (os.store addr d w) addr ≡ some size)

-- A function comes back with -1, or with 0 and what is promised.
pub data Ends {W : Type 0} (P : Pointers → W → Type 0) : Outcome W → Type 0 where
  fails : {p : Pointers} {w : W} → Ends P (negsuc 0, p, w)
  succeeds : {p : Pointers} {w : W} → P p w → Ends P (pos 0, p, w)

pub Ends-map :
    {W : Type 0} {P Q : Pointers → W → Type 0} {out : Outcome W}
    → ((p : Pointers) (w : W) → P p w → Q p w)
    → Ends P out
    → Ends Q out
Ends-map f fails = fails
Ends-map f (succeeds x) = succeeds (f _ _ x)
