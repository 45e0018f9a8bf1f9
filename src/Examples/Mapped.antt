-- ===== src/Examples/Mapped.antt =====
-- A small system with one shared file, on which the figurehead starts and a process follows.
use plr.Prelude.{
  ℕ, ◌+◌, ◌≡◌, ◌≢◌, refl, inl, inr, Bool, Bool-cases, true, false, Option, Option-cases, none, some,
  if◌then◌else◌, update, ℤ, pos, negsuc, pos_part, eq_ℤ, ltb_ℤ, arith, ◌∙◌, sym, if-true, eq→==,
}
use mathlib.Core.Bool.{false≢true}
use plr.SharedData.{PlrData, init_shared_data}
use plr.SharedData.Names.{get_shm_name, get_shm_name-distinct}
use plr.SharedData.Mapping.{ShmCalls, Pointers, figurehead_start, acquire_shared_data}
use plr.SharedData.Mapping.Posix.{Object, ShmView, ShmLaws, Ends}
use plr.SharedData.Mapping.Laws.{MapsAll, Inside, figurehead_start-Ends, acquire_shared_data-Ends}
use plr.Core.Entry.{figurehead_init}

record Files : Type 0 where
  object : Option Object
  sizes : ℕ → Option ℕ
  free : ℕ

abbrev open_file : Bool → Files → ℤ × Files
open_file create w = elim w.object [
  | none ↦
      if create
      then (pos 3, record w { object = some (record { size = 0; plr = init_shared_data 0 }) })
      else (negsuc 0, w)
  | some o ↦ if create then (negsuc 0, w) else (pos 3, w)
]

abbrev is_open : Files → ℤ → Bool
is_open w fd = elim w.object [ none ↦ false | some o ↦ eq_ℤ fd (pos 3) ]

abbrev with_object : (Object → Object) → Files → Files
with_object f w = record w { object = elim w.object [ none ↦ none | some o ↦ some (f o) ] }

abbrev files : ShmCalls Files
files = record {
  getpgrp = 500;
  shm_open = λ name create w. open_file create w;
  ftruncate = λ fd size w.
      if eq_ℤ fd (pos 3)
      then (pos 0, with_object (λ o. record o { size = pos_part size }) w)
      else (negsuc 0, w);
  mmap = λ size fd w.
      if eq_ℤ fd (pos 3)
      then (
        some w.free,
        record w { sizes = update w.sizes w.free (some size); free = w.free + 65536 },
      )
      else (none, w);
  munmap = λ addr size w. (pos 0, record w { sizes = update w.sizes addr none });
  close = λ fd w. w;
  shm_unlink = λ name w. (pos 0, record w { object = none });
  prctl_subreaper = λ w. (pos 0, w);
  load = λ addr w. elim w.object [ none ↦ init_shared_data 0 | some o ↦ o.plr ];
  store = λ addr d w. with_object (λ o. record o { plr = d }) w;
}

abbrev files_view : ShmView Files
files_view = record { object = λ w. w.object; refers = is_open; mapping = λ w. w.sizes }

files-ShmLaws : ShmLaws files files_view 200
files-ShmLaws = record {
  created = λ w h. elim (Option-cases w.object) [
    | inl e ↦ rw e (refl, refl, refl)
    | inr (o, e) ↦
        let x : ltb_ℤ (open_file true w).0 (pos 0) ≡ true = rw e refl in
        absurd (false≢true (sym h ∙ x))
  ];
  found = λ w h. elim (Option-cases w.object) [
    | inl e ↦
        let x : ltb_ℤ (open_file false w).0 (pos 0) ≡ true = rw e refl in
        absurd (false≢true (sym h ∙ x))
    | inr (o, e) ↦ rw e (refl, refl)
  ];
  resized = λ fd size w o r e h. elim (Bool-cases (eq_ℤ fd (pos 3))) [
    | inl t ↦ rw (t, e) (refl, t)
    | inr t ↦ let x : is_open w fd ≡ false = rw e t in absurd (false≢true (sym x ∙ r))
  ];
  bad_ftruncate = λ size w. refl;
  mapped = λ size fd w addr r h. elim (Bool-cases (eq_ℤ fd (pos 3))) [
    | inl t ↦
        let same : w.free ≡ addr = ground arith in
        rw t (refl, r, if-true _ _ (eq→== addr w.free (sym same)))
    | inr t ↦ absurd (ground arith)
  ];
  bad_mmap = λ size w. refl;
  unmapped = λ addr size fd w. (refl, refl);
  closed = λ fd w addr. (refl, refl);
  subreaper = λ w. refl;
  loaded = λ addr size w o m enough e. rw e refl;
  stored = λ addr size d w o m enough e. (rw e refl, m);
}

get_shm_name-distinct_example :
    ((get_shm_name 500).0 ≡ pos 0) × ((get_shm_name 500).1 ≢ (get_shm_name 501).1)
get_shm_name-distinct_example =
    get_shm_name-distinct 500 501 (omega arith) (omega arith) (omega arith)

abbrev no_file : Files
no_file = record { object = none; sizes = λ _. none; free = 4096 }

abbrev no_pointers : Pointers
no_pointers = record { plr_shm = none; all_proc_shm = none }

abbrev made : PlrData
made = figurehead_init 3 0 400 (pos 200)

figurehead_start-Ends_example :
    Ends
      (λ q v.
        (no_file.object ≡ none)
        × MapsAll files 200 100 files_view files-ShmLaws 3 (record { size = 500; plr = made }) q v)
      (figurehead_start files 200 100 3 0 400 (pos 200) no_pointers no_file)
figurehead_start-Ends_example =
    figurehead_start-Ends files 200 100 files_view files-ShmLaws 3 0 400 (pos 200) no_pointers
      no_file (omega arith)

abbrev started : Files
started = record no_file { object = some (record { size = 500; plr = made }) }

acquire_shared_data-Ends_example :
    Ends
      (λ q v.
        MapsAll files 200 100 files_view files-ShmLaws 3 (record { size = 500; plr = made }) q v
        × Inside files 200 100 files_view files-ShmLaws 2 3 q v)
      (acquire_shared_data files 200 100 no_pointers started)
unfolding figurehead_init
acquire_shared_data-Ends_example =
    acquire_shared_data-Ends files 200 100 files_view files-ShmLaws 3 2 made no_pointers started
      refl refl (omega arith) (omega arith)

-- Both come back with 0 here.
starts : (figurehead_start files 200 100 3 0 400 (pos 200) no_pointers no_file).0 ≡ pos 0
unfolding figurehead_start
starts = refl

acquires : (acquire_shared_data files 200 100 no_pointers started).0 ≡ pos 0
unfolding acquire_shared_data
acquires = refl
