-- ===== src/Examples/Sharing.antt =====
-- Three processes that copy to the extra area and from it.
use plr.Prelude.{arith, ℕ, ◌≡◌, refl, true, some, List, [], ◌∷◌, pos}
use plr.SharedData.{zero_proc}
use plr.SharedData.ExtraShm.{read_cells, write_cells}
use plr.SharedData.ExtraShm.Refines.{
  Copy, to_shm, from_shm, Group, AllMapped, run_copies, run_on_array, run_copies-run_on_array,
}
use plr.Examples.Machine.{all_succeed, new_area, new_area-Mapped}

abbrev new_group : Group
new_group = record {
  plr = new_area.plr;
  cells = new_area.cells;
  proc = λ _. zero_proc;
  valid = λ _. true;
}

abbrev copies : List (ℕ × Copy)
copies =
    (0, to_shm (pos 5 ∷ pos 6 ∷ []) 4)
    ∷ (1, from_shm 2 4)
    ∷ (1, to_shm (pos 7 ∷ []) 5)
    ∷ (2, from_shm 2 4)
    ∷ []

run_copies-run_on_array_example :
    (h : Group) × (run_copies (λ _. all_succeed) copies new_group
      ≡ some ([] ∷ (pos 5 ∷ pos 6 ∷ []) ∷ [] ∷ (pos 5 ∷ pos 7 ∷ []) ∷ [], h))
    × (h.cells ≡ (run_on_array copies new_group.cells).1)
    × AllMapped h
unfolding read_cells write_cells
run_copies-run_on_array_example =
    run_copies-run_on_array (λ _. all_succeed) copies new_group
      (omega arith, (omega arith, (omega arith, (omega arith, tt)))) (λ _. (refl, refl, refl))
      (λ _. new_area-Mapped)
