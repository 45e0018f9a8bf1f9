-- ===== src/Core/Init.antt =====
-- plrCommon/plr.c: `plr_processInit`, which starts the processes, and plrPreload/preloadInit.c, which
-- calls it. The first process holds the lock
-- from the loop of forks to the end; each child runs its own section after it.
pub mod Children
pub mod Starts
use plr.Prelude.{
  ℕ, zero, suc, ◌+◌, Bool, true, false, Option, none, some, List, [], ◌∷◌, ◌==◌, if◌then◌else◌,
  update, ℤ, pos, ltb_ℤ,
}
use plr.SharedData.{PerProcData, PlrData, init_proc_data, init_proc_data_as_copy}
use plr.Core.Entry.{refresh_shared_data}

infixl 5 ◌>>=◌
abbrev pub ◌>>=◌ {ℓ κ} : {A : Type ℓ} {B : Type κ} → Option A → (A → Option B) → Option B
o >>= k = elim o [ none ↦ none | some a ↦ k a ]

-- What `plrShm` and `allProcShm` point to.
pub record Shared : Type 0 where
  pub plr : PlrData
  pub all_proc : ℕ → PerProcData

-- A child in front of the lock: its place, its pid and `parentProcShmCpy`.
pub record Child : Type 0 where
  pub place : ℕ
  pub self : ℕ
  pub parent : PerProcData

-- The shared memory, and what the first process keeps for itself: `myProcShm` as the index of a place,
-- none for `NULL`, `g_insidePLRInternal`, and the children it has made, the last one first.
pub record Start : Type 0 where
  pub mem : Shared
  pub my_proc : Option ℕ
  pub internal : Bool
  pub children : List Child
  pub forks : ℕ

-- The first place for the process that finds it free.
unfoldable pub take_first : ℕ → Start → Start
unfolding init_proc_data
take_first self s =
    if (s.mem.all_proc 0).pid == 0
    then record s {
      mem = record (s.mem) {
        all_proc = update s.mem.all_proc 0 (init_proc_data self (s.mem.all_proc 0));
      };
      my_proc = some 0;
    }
    else s

-- The end of the section: none where a `myProcShm` that is `NULL` is used.
unfoldable pub finish_init : Option ℕ → Shared → Option Shared
finish_init my_proc m =
    let plr = record (m.plr) { did_process_init = true } in
    if m.plr.inside_plr_init_true == 0 then some (record m { plr = plr }) else elim my_proc [
      | none ↦ none
      | some me ↦ some (record {
        plr = plr;
        all_proc = update m.all_proc me (record (m.all_proc me) { inside_plr = true });
      })
    ]

-- The section of a child: the rest of `plr_forkNewProcess`, and out of the loop to the end.
unfoldable pub child_init : Child → Shared → Option Shared
unfolding init_proc_data_as_copy finish_init
child_init c m = finish_init (some c.place) (record m {
  all_proc =
      update m.all_proc c.place (init_proc_data_as_copy c.self (m.all_proc c.place) c.parent);
})

-- The children get the lock one after the other.
unfoldable pub run_children : List Child → Shared → Option Shared
run_children [] m = some m
run_children (c ∷ cs) m = child_init c m >>= run_children cs

-- What `fork` returns at each call: the pid of the child, or none if it fails.
module _ (fork : ℕ → Option ℕ) where
  -- `plr_forkNewProcess(&allProcShm[i])` in the first process: none for `exit(1)`, or where the copy is
  -- made from `NULL`.
  unfoldable pub fork_child : ℕ → Start → Option Start
  fork_child i s = elim (fork s.forks) [
    | none ↦ none
    | some pid ↦ elim s.my_proc [
      | none ↦ none
      | some me ↦
          let child : Child = record { place = i; self = pid; parent = s.mem.all_proc me } in
          some (record s { children = child ∷ s.children; forks = s.forks + 1 })
    ]
  ]

  -- A round of the loop. The first process does not leave it: its own place has a pid.
  unfoldable pub fork_round : ℕ → ℕ → Start → Option Start
  unfolding fork_child
  fork_round my_pid i s =
      let i_pid = (s.mem.all_proc i).pid in
      if i_pid == 0
      then fork_child i s
      else some (if i_pid == my_pid then record s { my_proc = some i } else s)

  -- The loop, with `left` rounds to go.
  unfoldable pub fork_loop : (left i : ℕ) → ℕ → Start → Option Start
  unfolding fork_round
  fork_loop zero i my_pid s = some s
  fork_loop (suc left) i my_pid s = fork_round my_pid i s >>= fork_loop left (i + 1) my_pid

  -- The part of `plr_processInit` under the lock.
  unfoldable pub init_locked : ℕ → Start → Option Start
  unfolding take_first fork_loop finish_init
  init_locked self s = do
    t ← fork_loop s.mem.plr.n_proc 0 self (take_first self s)
    m ← finish_init t.my_proc t.mem
    some (record t { mem = m; internal = false })

  -- `plr_processInit` in the process `self`, once the area is mapped
  unfoldable pub process_init : ℕ → Option ℕ → Shared → Option Start
  unfolding init_locked refresh_shared_data
  process_init self my_proc m =
      let s : Start = record {
        mem = m;
        my_proc = my_proc;
        internal = true;
        children = [];
        forks = 0;
      } in
      if m.plr.did_process_init
      then elim (refresh_shared_data m.plr.n_proc self m.all_proc my_proc) [
        | none ↦ none
        | some me ↦ some (record s { my_proc = some me; internal = false })
      ]
      else elim my_proc [ some me ↦ some s | none ↦ init_locked self s ]

  -- plrPreload/preloadInit.c: `initPLRPreload`, with the value of `plrSD_acquireSharedData`; none for
  -- `exit(1)`. The library has no other end: `cleanupPLRPreload` is empty.
  unfoldable pub init_plr_preload : (acquired : ℤ) → ℕ → Option ℕ → Shared → Option Start
  unfolding process_init
  init_plr_preload acquired self my_proc m =
      if ltb_ℤ acquired (pos 0) then none else process_init self my_proc m
