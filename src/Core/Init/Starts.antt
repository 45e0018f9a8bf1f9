-- ===== src/Core/Init/Starts.antt =====
-- The processes that `plr_processInit` starts.
use mathlib.Core.Path.{subst}
use mathlib.Core.List.{Permᴰ}
use plr.Prelude.{
  All, Any, total-zero, dec_lt, ℕ, zero, suc, ◌+◌, ◌-◌, ◌≤◌, ◌<◌, ◌≡◌, ◌≢◌, refl, inl, inr,
  Bool-cases, if-true, if-false, eq→==, ne→==, true, false, Option, none, some, List, [], ◌∷◌, ◌==◌,
  ltb, if◌then◌else◌, update, ℤ, arith, ap, ◌∙◌, sym, fun_ext, ℕ_discrete,
}
use plr.SharedData.{PerProcData, zero_proc, init_proc_data}
use plr.Core.Entry.{figurehead_init}
use plr.Core.Init.Children.{
  All-Permᴰ, Any-Permᴰ, pid_of, started_proc, all_started, first, target, plr1, IsChild, Ready,
  finish_init-started, run_children-started,
}
use plr.Core.State.{System, outside}
use plr.Core.Places.{weight, places, Good, FreshPids}
use plr.Core.Init.{
  ◌>>=◌, Shared, Child, Start, take_first, run_children, fork_child, fork_round, fork_loop,
  init_locked, process_init,
}

module _ (n mode figurehead : ℕ) (timeout : ℤ) (self : ℕ) (pids : ℕ → ℕ) where
  -- The children that the first process has made after `k` forks.
  kids : ℕ → List Child
  kids zero = []
  kids (suc k) =
      record { place = suc k; self = pids k; parent = (first n mode figurehead timeout self pids) }
      ∷ kids k

  kids-IsChild : (k : ℕ) → k < n → All (IsChild n mode figurehead timeout self pids) (kids k)
  unfolding kids All
  kids-IsChild zero h = tt
  kids-IsChild (suc k) h =
      let below = kids-IsChild k (omega arith) in ((refl, refl, omega arith, h), below)

  kids-places : (k i : ℕ) → 0 < i → i ≤ k → Any (λ c. c.place ≡ i) (kids k)
  unfolding kids Any
  kids-places zero i p q = absurd (omega arith)
  kids-places (suc k) i p q = elim (ℕ_discrete i (suc k)) [
    | yes e ↦ inl (sym e)
    | no e ↦ inr (kids-places k i p (omega arith))
  ]

  abbrev locked : Shared
  locked = record {
    plr = figurehead_init n mode figurehead timeout;
    all_proc = update (λ _. zero_proc) 0 (first n mode figurehead timeout self pids);
  }

  -- When the children of the other places have run, in any order, all are started.
  all_run :
      (m : Shared) (k : ℕ)
      → m.plr ≡ (plr1 n mode figurehead timeout self pids)
      → m.all_proc 0 ≡ target n mode figurehead timeout self pids 0
      → ((j : ℕ) → j ≢ 0 → m.all_proc j ≡ zero_proc)
      → n ≡ suc k
      → (order : List Child) → Permᴰ (kids k) order
      → run_children order m ≡ some (all_started n mode figurehead timeout self pids)
  all_run m k plr own others whole order d =
      let ready : (i : ℕ) → Ready n mode figurehead timeout self pids (m.all_proc i) i =
        λ i. elim (ℕ_discrete i 0) [ yes e ↦ inr (rw e own) | no e ↦ inl (others i e) ] in
      let children =
        All-Permᴰ (IsChild n mode figurehead timeout self pids) d (kids-IsChild k (omega arith)) in
      let (t, ran, plr', keep, reach, beyond) =
        run_children-started n mode figurehead timeout self pids order m children plr ready in
      let inner : (j : ℕ) → j < n → t.all_proc j ≡ target n mode figurehead timeout self pids j =
        λ j lt. elim (ℕ_discrete j 0) [
          | yes e ↦ rw e (keep 0 own)
          | no e ↦
              reach j (Any-Permᴰ (λ c. c.place ≡ j) d (kids-places k j (omega arith) (omega arith)))
        ] in
      let cells : (j : ℕ)
          → t.all_proc j
            ≡ (if ltb j n then target n mode figurehead timeout self pids j else zero_proc) =
        λ j. elim (Bool-cases (ltb j n)) [
          | inl e ↦ inner j (ground arith) ∙ sym (if-true _ _ e)
          | inr e ↦
              beyond j (ground arith)
              ∙ others j (λ z. absurd (ground arith))
              ∙ sym (if-false (target n mode figurehead timeout self pids j) zero_proc e)
        ] in
      ran ∙ ap some (λ i. record { plr = plr' i; all_proc = fun_ext cells i })

  abbrev looped : ℕ → Start
  looped k = record {
    mem = locked;
    my_proc = some 0;
    internal = true;
    children = kids k;
    forks = k;
  }

  module _ (fork : ℕ → Option ℕ) (forks : (k : ℕ) → fork k ≡ some (pids k)) (own : 0 < self) where
    fork_round-child : (k : ℕ) → fork_round fork self (suc k) (looped k) ≡ some (looped (suc k))
    unfolding fork_round fork_child kids
    fork_round-child k =
        let vacant : locked.all_proc (suc k) ≡ zero_proc =
          if-false (first n mode figurehead timeout self pids) zero_proc
            (ne→== (suc k) 0 (λ e. absurd (omega arith))) in
        let up : k + 1 ≡ suc k = omega arith in
        if-true (fork_child fork (suc k) (looped k)) _ (ap (λ (p : PerProcData). p.pid == 0) vacant)
        ∙ rw (forks k, fork_child) (ap (λ j. some (record (looped (suc k)) { forks = j })) up)

    fork_round-first : fork_round fork self 0 (looped 0) ≡ some (looped 0)
    unfolding fork_round init_proc_data
    fork_round-first =
        if-false _ _ (ne→== self 0 (λ e. absurd (omega arith)))
        ∙ ap some (if-true (looped 0) (looped 0) (eq→== self self refl))

    fork_loop-looped :
        (left k : ℕ) → fork_loop fork left (suc k) self (looped k) ≡ some (looped (k + left))
    unfolding fork_loop
    fork_loop-looped zero k = ap (λ j. some (looped j)) (omega arith)
    fork_loop-looped (suc left) k =
        let up : suc k + 1 ≡ suc (suc k) = omega arith in
        let all : suc k + left ≡ k + suc left = omega arith in
        rw (fork_round-child k, fork_loop, ◌>>=◌, up)
          (fork_loop-looped left (suc k) ∙ ap (λ j. some (looped j)) all)

    fork_loop-all : (k : ℕ) → fork_loop fork (suc k) 0 self (looped 0) ≡ some (looped k)
    unfolding fork_loop
    fork_loop-all k =
        rw (fork_round-first, fork_loop, ◌>>=◌)
          (fork_loop-looped k 0 ∙ ap (λ j. some (looped j)) (omega arith))

    -- `plr_processInit` in the first process, on the shared memory that the figurehead has made for
    -- `n` processes, leaves its lock with itself at place 0 and with a child for every other place, and
    -- with the library in use. In whatever order the children get the lock, each runs its section to
    -- the end, and then all places belong to a process outside of the barrier, which records calls
    -- itself unless the fault injection tool is to switch that on. It is assumed that `n` is not 0, that
    -- `fork` succeeds, and that pids are not 0.
    pub process_init-starts :
        0 < n
        → (t : Start) × (process_init fork self none (record {
          plr = figurehead_init n mode figurehead timeout;
          all_proc = λ _. zero_proc;
        })
            ≡ some t)
          × (t.my_proc ≡ some 0)
          × (t.internal ≡ false)
          × (t.forks + 1 ≡ n)
          × ((order : List Child)
              → Permᴰ t.children order
              → run_children order t.mem ≡ some (all_started n mode figurehead timeout self pids))
    unfolding process_init init_locked take_first figurehead_init kids
    process_init-starts pos_n =
        let k = n - 1 in
        let whole : n ≡ suc k = omega arith in
        let (m, did, plr, own', others) =
          finish_init-started n mode figurehead timeout self pids 0 locked refl refl in
        let loop : fork_loop fork n 0 self (looped 0) ≡ some (looped k) =
          ap (λ j. fork_loop fork j 0 self (looped 0)) whole ∙ fork_loop-all k in
        (
          record (looped k) { mem = m; internal = false },
          rw (loop, did, init_locked, ◌>>=◌) refl,
          refl,
          refl,
          omega arith,
          all_run m k plr own' (λ j e. others j e ∙ if-false _ _ (ne→== j 0 e)) whole,
        )

-- The processes in the program after the start, with the pids that they have.
abbrev pub running : Shared → (ℕ → ℕ) → (forks : ℕ) → System
running m pid forks = record {
  plr = m.plr;
  all_proc = m.all_proc;
  process = λ i. record { self = pid i; phase = outside };
  forks = forks;
  lock_lost = false;
}

module _ (n mode figurehead : ℕ) (timeout : ℤ) (self : ℕ) (pids : ℕ → ℕ) (fork : ℕ → Option ℕ)
    (forks : (k : ℕ) → fork k ≡ some (pids k)) (limit : ℕ → ℕ) (fresh : FreshPids fork limit)
    (own : 0 < self) (known : self < limit 0) where
  limit_mono : (i j : ℕ) → i ≤ j → limit i ≤ limit j
  limit_mono i zero h = let z : i ≡ 0 = omega arith in rw z (omega arith)
  limit_mono i (suc j) h = elim (ℕ_discrete i (suc j)) [
    | yes e ↦ rw e (omega arith)
    | no e ↦ let up = limit_mono i j (omega arith) in omega (arith, up, fresh.mono j)
  ]

  pid_of-range : (i : ℕ) → (0 < pid_of self pids i) × (pid_of self pids i < limit i)
  pid_of-range zero = (own, known)
  pid_of-range (suc i) =
      let (low, high) = fresh.range i (pids i) (forks i) in
      let up = limit_mono 0 i (omega arith) in
      let least = fresh.positive in ((omega (arith, least, up, low)), high)

  pid_of_mono : (i j : ℕ) → i < j → pid_of self pids i < pid_of self pids j
  pid_of_mono i zero h = absurd (omega arith)
  pid_of_mono i (suc j) h =
      let (low, _) = fresh.range j (pids j) (forks j) in
      let up = limit_mono i j (omega arith) in
      let below = (pid_of-range i).1 in omega (arith, low, up, below)

  all_started-Good :
      0 < n
      → Good limit (
          places
            (running (all_started n mode figurehead timeout self pids) (pid_of self pids) (n - 1)))
  unfolding figurehead_init init_proc_data
  all_started-Good h = record {
    index = omega arith;
    count = λ k. sym (total-zero (weight k) n _ (λ j p. refl));
    fits = λ i lt.
        let inside : ltb i n ≡ true = ground arith in
        let mine = if-true (started_proc mode (pid_of self pids i)) zero_proc inside in
        (ap (λ (p : PerProcData). p.wait_idx) mine, ap (λ (p : PerProcData). p.pid) mine);
    distinct = λ i j p q ne e. elim (dec_lt i j) [
      | yes lt ↦ let up = pid_of_mono i j lt in omega (arith, up, e)
      | no ge ↦ let up = pid_of_mono j i (omega arith) in omega (arith, up, e)
    ];
    known = λ i lt.
        let up = limit_mono i (n - 1) (omega arith) in
        let (low, below) = pid_of-range i in (low, omega (arith, up, below));
    one_child = λ i j w v w' v' p q e e'. absurd (ground arith);
  }

  -- After `plr_processInit`, in whatever order the children have run their sections, the state of the
  -- processes is good: flags, counters and pids are as the barrier expects them. This covers the runs
  -- where no process goes on to a barrier before all children have run their sections. It is assumed
  -- that there are places for processes, that `fork` succeeds, and that each child gets a pid that was
  -- not in use.
  pub process_init-Good :
      0 < n
      → (t : Start) × (process_init fork self none
            (record { plr = figurehead_init n mode figurehead timeout; all_proc = λ _. zero_proc })
          ≡ some t)
        × ((order : List Child)
            → Permᴰ t.children order
            → (m : Shared) × (run_children order t.mem ≡ some m)
              × Good limit (places (running m (pid_of self pids) t.forks)))
  process_init-Good h =
      let (t, did, _, _, count, all) =
        process_init-starts n mode figurehead timeout self pids fork forks own h in
      let same : n - 1 ≡ t.forks = omega (arith, count) in
      (
        t,
        did,
        λ order d. (
          all_started n mode figurehead timeout self pids,
          all order d,
          subst
              (λ k. Good limit (
                places
                  (running (all_started n mode figurehead timeout self pids) (pid_of self pids) k)))
              same (all_started-Good h),
        ),
      )
