-- ===== src/Core/Reach/Safety.antt =====
-- What holds in every state that the processes reach from a good one.
use plr.Prelude.{
  ℕ, ◌≤◌, ◌<◌, ◌≡◌, ◌≢◌, refl, inl, inr, Option, Bool, false, ne→==, arith, sym, ap, ◌∙◌, pos,
  ltb_ℤ, total, total_mono, total-zero,
}
use mathlib.Core.Bool.{false≢true}
use plr.Core.State.{Call, waiting, System, Run, ◌>>=◌, done, ended, out_of_fuel}
use plr.Core.Barrier.{timed_wait}
use plr.Core.Wait.{check_exit, wait_loop, resume_phase, resume}
use plr.Core.Places.{kind, inside, weight, places, Good, FreshPids}
use plr.Core.Places.Release.{full-AllIn}
use plr.Core.Invariant.Middle.{GoodRun}
use plr.Core.Invariant.Sections.{PhaseOk, PromptFor, at_fits, resume-Good}
use plr.Core.Reach.{Ends, Reach, AllPrompt, Reach-Sound}

GoodRun-Ends : (limit : ℕ → ℕ) (r : Run (Unit {0})) → GoodRun limit r → (t : System) × Ends r t
GoodRun-Ends limit (done _ t) g = (t, refl)
GoodRun-Ends limit (ended t) g = (t, refl)
GoodRun-Ends limit out_of_fuel g = absurd g

wait_step :
    (fork : ℕ → Option ℕ) (i w : ℕ) (call : Call) (s : System)
    → check_exit fork i w call s ≡ done false s
    → wait_loop fork 2 i w false call s ≡ timed_wait i w false call s
unfolding wait_loop
wait_step fork i w call s e = rw (e, ◌>>=◌) refl

module _ (fork : ℕ → Option ℕ) (limit : ℕ → ℕ) (fresh : FreshPids fork limit) {start s : System}
    (good : Good limit (places start)) (reach : Reach fork start s) (prompt : AllPrompt reach)
    (free : s.lock_lost ≡ false) where
  now : Good limit (places s)
  now = elim (Reach-Sound fork limit fresh (inr good) reach prompt) [
    | inl lost ↦ absurd (false≢true (sym free ∙ lost))
    | inr g ↦ g
  ]

  all_in_current :
      s.plr.cond_wait_cnt s.plr.cur_wait_idx ≡ s.plr.n_proc
      → (j : ℕ) → j < s.plr.n_proc
      → kind (s.process j).phase ≡ inside s.plr.cur_wait_idx
  all_in_current full j lj = (full-AllIn now full j lj).0

  -- In every state that is reached from a good one and whose lock can be taken, where new children
  -- get pids that were not in use, where the actions of callers leave the fields of the barrier
  -- alone, and where on the way no process has acted on its expired watchdog, and no child that it
  -- forked then has joined the barrier, while another one, already released, had yet to leave it,
  -- each of the two counters is the number of processes that stand in its barrier, and is at most
  -- the number of processes: the assertion at the start of `plr_waitBarrier` holds.
  pub counters_exact :
      (k : ℕ)
      → (s.plr.cond_wait_cnt k ≡ total (weight k) s.plr.n_proc (places s).place)
        × (s.plr.cond_wait_cnt k ≤ s.plr.n_proc)
  counters_exact k =
      let e = now.count k in
      (e, rw e (total_mono (weight k) s.plr.n_proc (places s).place (λ p. ground arith)))

  -- In every state that is reached from a good one and whose lock can be taken, where new children
  -- get pids that were not in use, where the actions of callers leave the fields of the barrier
  -- alone, and where on the way no process has acted on its expired watchdog, and no child that it
  -- forked then has joined the barrier, while another one, already released, had yet to leave it,
  -- and the next section keeps to that, a process that has waited, or a new child, comes to its
  -- next wait, its return or its end within two rounds of the loop.
  pub resume-Ends :
      (i : ℕ) (timed_out : Bool)
      → i < s.plr.n_proc
      → PhaseOk (s.process i).phase
      → PromptFor s i timed_out (s.process i).phase
      → (t : System) × Ends (resume fork i timed_out s) t
  resume-Ends i timed_out lt ok now_prompt =
      GoodRun-Ends limit (resume fork i timed_out s)
        (resume-Good fork limit fresh i s now lt timed_out ok now_prompt)

  check_waits :
      (i j w : ℕ) (call : Call)
      → j < s.plr.n_proc
      → (s.all_proc i).wait_idx ≡ pos w
      → w ≡ s.plr.cur_wait_idx
      → kind (s.process j).phase ≢ inside s.plr.cur_wait_idx
      → check_exit fork i w call s ≡ done false s
  unfolding check_exit
  check_waits i j w call lj flag cur out =
      rw (standing, ne→== (s.plr.cond_wait_cnt w) s.plr.n_proc not_full, check_exit) refl
    where
      standing : ltb_ℤ (s.all_proc i).wait_idx (pos 0) ≡ false
      standing = ground arith

      not_full : s.plr.cond_wait_cnt w ≢ s.plr.n_proc
      not_full e = out (all_in_current (ap s.plr.cond_wait_cnt (sym cur) ∙ e) j lj)

  -- In every state that is reached from a good one and whose lock can be taken, where new children
  -- get pids that were not in use, where the actions of callers leave the fields of the barrier
  -- alone, and where on the way no process has acted on its expired watchdog, and no child that it
  -- forked then has joined the barrier, while another one, already released, had yet to leave it, a
  -- process that takes the lock again before its wait flag is cleared, and whose watchdog has not
  -- expired, goes back to its wait and changes nothing else, as long as some process `j` does not
  -- stand in the current barrier. So then, without a timeout, nobody leaves a barrier that not all
  -- have reached.
  pub no_early_exit :
      (i j w : ℕ) (woken : Bool) (call : Call)
      → i < s.plr.n_proc
      → j < s.plr.n_proc
      → (s.process i).phase ≡ waiting w false woken call
      → (s.all_proc i).wait_idx ≡ pos w
      → kind (s.process j).phase ≢ inside s.plr.cur_wait_idx
      → resume fork i false s ≡ timed_wait i w false call s
  unfolding resume resume_phase
  no_early_exit i j w woken call lt lj ph flag out =
      rw (ph, resume) (wait_step fork i w call s (check_waits i j w call lj flag current out))
    where
      current : w ≡ s.plr.cur_wait_idx
      current = elim (at_fits fork limit fresh i s now lt (inside w) (ap kind ph)).1 [
        | inl e ↦ ground arith
        | inr e ↦ e.1
      ]

  -- In every state that is reached from a good one and whose lock can be taken, where new children
  -- get pids that were not in use, where the actions of callers leave the fields of the barrier
  -- alone, and where on the way no process has acted on its expired watchdog, and no child that it
  -- forked then has joined the barrier, while another one, already released, had yet to leave it,
  -- when the counter of the current barrier is full, nobody is counted any more at the other
  -- condition variable, which the next barrier uses: two variables are enough.
  pub other_counter_zero :
      (w : ℕ)
      → s.plr.cond_wait_cnt s.plr.cur_wait_idx ≡ s.plr.n_proc
      → w ≢ s.plr.cur_wait_idx
      → s.plr.cond_wait_cnt w ≡ 0
  other_counter_zero w full ne =
      now.count w
      ∙ total-zero (weight w) s.plr.n_proc (places s).place
          (λ j lj. rw (all_in_current full j lj, ne→== s.plr.cur_wait_idx w (λ e. ne (sym e))) refl)
