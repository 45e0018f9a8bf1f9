-- ===== src/Core/Invariant/Replaced.antt =====
-- A replacement in the middle of a section: the victim's place gets a new process, and no other
-- place changes.
use plr.Prelude.{
  ℕ, ◌+◌, ◌≤◌, ◌<◌, ◌≡◌, ◌≢◌, refl, inl, inr, false, Option, some, Option-cases, Bool-cases, ◌==◌,
  ◌||◌, ne→==, eq→==, update, arith, sym, pos,
}
use plr.SharedData.{PerProcData, zero_proc, free_proc_data}
use plr.Core.State.{Phase, Process, System, exit_locked, modify_proc}
use plr.Core.Replace.{kill, fork_new_process, replace_process_idx}
use plr.Core.Places.{kind, places, FreshPids}
use plr.Core.Invariant.Middle.{RunOk, Middle}

pub record Replaced (limit : ℕ → ℕ) (me v : ℕ) (born : PerProcData → Phase) (s t : System)
    : Type 0 where
  pub other : v ≢ me
  pub same_plr : t.plr ≡ s.plr
  pub same : (j : ℕ) → j < s.plr.n_proc → j ≢ v → (places t).place j ≡ (places s).place j
  pub same_me : t.all_proc me ≡ s.all_proc me
  pub pid : ℕ
  pub at_v :
      (places t).place v
      ≡ record { pid = 0; flag = pos 0; self = pid; at = kind (born (s.all_proc me)) }
  pub new_pid : (limit s.forks ≤ pid) × (pid < limit t.forks)

module _ (fork : ℕ → Option ℕ) (limit : ℕ → ℕ) (fresh : FreshPids fork limit) (me w : ℕ)
    (born : PerProcData → Phase) (v : ℕ) (s : System) (h : Middle limit me w s)
    (lt : me < s.plr.n_proc) (lv : v < s.plr.n_proc)
    (own : (s.all_proc v).pid ≡ (s.process v).self) where
  selves_differ : (j : ℕ) → j < s.plr.n_proc → j ≢ v → (s.process j).self ≢ (s.all_proc v).pid
  selves_differ j p q e = h.distinct j v p lv q (ground arith)

  pid_pos : 0 < (s.all_proc v).pid
  pid_pos = let k = h.known v lv in ground arith

  killed : ℕ → Process
  killed = (kill (s.all_proc v).pid s).process

  -- No other process is hit by the signal, since their pids differ.
  spared :
      (j : ℕ)
      → j < s.plr.n_proc
      → j ≢ v
      → ((s.all_proc v).pid == 0) || ((s.process j).self == (s.all_proc v).pid) ≡ false
  spared j p q =
      let not_zero : (s.all_proc v).pid ≢ 0 = λ z. absurd (omega (arith, pid_pos)) in
      rw (ne→== _ _ not_zero, ne→== _ _ (selves_differ j p q)) refl

  survives : (j : ℕ) → j < s.plr.n_proc → j ≢ v → killed j ≡ s.process j
  unfolding kill killed
  survives j p q = rw (spared j p q) refl

  child : ℕ → System
  child pid = record s {
    all_proc = update s.all_proc v (free_proc_data (s.all_proc v));
    process = update killed v (record {
      self = pid;
      phase = born (update s.all_proc v (free_proc_data (s.all_proc v)) me);
    });
    forks = s.forks + 1;
  }

  freed : free_proc_data (s.all_proc v) ≡ zero_proc
  unfolding free_proc_data
  freed = ground (arith, pid_pos)

  child-Replaced :
      v ≢ me → (pid : ℕ) → fork s.forks ≡ some pid → Replaced limit me v born s (child pid)
  unfolding child
  child-Replaced ne pid e = record {
    other = ne;
    same_plr = refl;
    same = λ j p q. rw (ne→== j v q, survives j p q) refl;
    same_me = rw (ne→== me v (λ x. ne (sym x))) refl;
    pid = pid;
    at_v = rw (eq→== v v refl, freed, ne→== me v (λ x. ne (sym x))) refl;
    new_pid = let r = fresh.range s.forks pid e in ground arith;
  }

  fork-Replaced :
      v ≢ me
      → RunOk limit
          (λ ret t. (ret ≡ pos 0) × Replaced limit me v born s t)
          (fork_new_process fork me born v
            (modify_proc v free_proc_data (kill (s.all_proc v).pid s)))
  unfolding fork_new_process exit_locked child killed kill
  fork-Replaced ne = elim (Option-cases (fork s.forks)) [
    | inl e ↦ rw (e, fork_new_process) (inl refl)
    | inr (pid, e) ↦ rw (e, fork_new_process) (refl, child-Replaced ne pid e)
  ]

  pub replace-Replaced :
      RunOk limit
        (λ ret t. (ret ≡ pos 0) × Replaced limit me v born s t)
        (replace_process_idx fork me born v s)
  unfolding replace_process_idx exit_locked
  replace-Replaced = elim (Bool-cases (me == v)) [
    | inl e ↦ rw (e, replace_process_idx) (inl refl)
    | inr e ↦
        let ne : v ≢ me = λ x. ground arith in
        rw (e, spared me lt (λ x. ne (sym x)), replace_process_idx) (fork-Replaced ne)
  ]
