-- ===== src/Examples/Paths.antt =====
-- Calls on a path by a master and two slaves, on the small machine, which has no files by name.
use plr.Prelude.{◌≡◌, refl, some, List, [], ◌∷◌, All, Both, ℤ, pos, negsuc}
use plr.Preload.Wrapper.{Local, Caller}
use plr.Preload.Group.{run_group}
use plr.Preload.Files.{
  open_master, open_slave, fopen_master, fopen_slave, unlink_master, unlink_slave,
}
use plr.Preload.Files.Together.{unlink_together, open_together, fopen_together}
use plr.Examples.Machine.{World, machine, all_succeed, new_area-Mapped, caller}

abbrev slaves : List (Caller World)
slaves = caller ∷ caller ∷ []

-- Both slaves have this value and the `errno` of a file that is missing.
abbrev BothFail : ℤ → List (ℤ × Caller World) → Type 0
BothFail ret =
    Both
      (λ s out.
        ◌≡◌ {A = ℤ × Local World} (out.0, out.1.here) (ret, record (s.here) { errno = pos 2 }))
      slaves

unlink_together_example :
    (m : Caller World) × (others : List (ℤ × Caller World)) × (run_group
        (unlink_master machine all_succeed (b'f' ∷ []))
        (unlink_slave machine all_succeed)
        caller
        slaves
      ≡ some ((negsuc 0, m) ∷ others))
    × (m.here ≡ record (caller.here) { errno = pos 2 })
    × BothFail (negsuc 0) others
unfolding All
unlink_together_example =
    unlink_together machine all_succeed all_succeed (refl, refl, refl) (refl, refl, refl) caller
      slaves new_area-Mapped (new_area-Mapped, (new_area-Mapped, tt)) (b'f' ∷ [])

open_together_example :
    (m : Caller World) × (others : List (ℤ × Caller World)) × (run_group
        (open_master machine all_succeed (b'f' ∷ []) 0 0)
        (open_slave machine all_succeed (b'f' ∷ []) 0 0)
        caller
        slaves
      ≡ some ((negsuc 0, m) ∷ others))
    × (m.here ≡ record (caller.here) { errno = pos 2 })
    × BothFail (negsuc 0) others
unfolding All
open_together_example =
    open_together machine all_succeed all_succeed (refl, refl, refl) (refl, refl, refl) caller
      slaves new_area-Mapped (new_area-Mapped, (new_area-Mapped, tt)) (b'f' ∷ []) 0 0

fopen_together_example :
    (m : Caller World) × (others : List (ℤ × Caller World)) × (run_group
        (fopen_master machine all_succeed (b'f' ∷ []) (b'r' ∷ []))
        (fopen_slave machine all_succeed (pos 4711) (b'f' ∷ []) (b'r' ∷ []))
        caller
        slaves
      ≡ some ((pos 0, m) ∷ others))
    × (m.here ≡ record (caller.here) { errno = pos 2 })
    × BothFail (pos 4711) others
unfolding All
fopen_together_example =
    fopen_together machine all_succeed all_succeed (refl, refl, refl) (refl, refl, refl) caller
      slaves new_area-Mapped (new_area-Mapped, (new_area-Mapped, tt)) (pos 4711) (b'f' ∷ [])
      (b'r' ∷ [])
