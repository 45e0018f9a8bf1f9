-- ===== src/Core/Invariant/Loop.antt =====
-- The wait loop of `plr_waitBarrier`: a section ends, and leaves a good state.
use plr.Prelude.{
  ℕ, suc, ◌<◌, ◌≡◌, refl, ◌⊎◌, inl, inr, Option, Bool, true, false, Bool-cases, if◌then◌else◌, sym,
  ap, ◌∙◌, ℤ, pos, ltb_ℤ, eq_ℤ,
}
use mathlib.Core.Path.{subst}
use mathlib.Core.Bool.{false≢true}
use plr.Core.State.{Call, System, M}
use plr.Core.Barrier.{leave, exit_barrier, timed_wait}
use plr.Core.Wait.{check_exit, watchdog_expired, watchdog_round, wait_loop}
use plr.Core.Places.{Places, places, Good, FreshPids}
use plr.Core.Invariant.Middle.{
  RunOk, RunOk-bind, GoodRun, Middle, leave-Good, exit_barrier-Good, timed_wait-Good,
}
use plr.Core.Invariant.Exit.{ActionOk, Exited, check_exit-Exited, Middle-same, lt_same}
use plr.Core.Invariant.Watchdog.{Prompt, Watched, watchdog_idle, watchdog-Watched}

module _ (fork : ℕ → Option ℕ) (limit : ℕ → ℕ) (fresh : FreshPids fork limit) (me w : ℕ)
    (call : Call) (ok : ActionOk call.action) where
  -- The watchdog has nothing to do, or it has not expired.
  abbrev Calm : Bool → System → Type 0
  Calm expired s = (expired ≡ false) ⊎ (s.plr.restoring ≡ true)

  abbrev GoodPart : Unit {0} → System → Type 0
  GoodPart _ t = Good limit (places t)

  abbrev watchdog_result : M (Unit {0}) → ℤ → M (Unit {0})
  watchdog_result again ret =
      if ltb_ℤ ret (pos 0)
      then exit_barrier me w
      else (if eq_ℤ ret (pos 1) then again else timed_wait me w true call)

  same-Calm :
      (s t : System) (expired : Bool) → places t ≡ places s → Calm expired s → Calm expired t
  same-Calm s t expired p (inl e) = inl e
  same-Calm s t expired p (inr e) = inr (ap (λ (a : Places). a.restoring) p ∙ e)

  -- What follows the exit test in a round that does not replace a process.
  Calm-rest :
      (s : System)
      → Middle limit me w s
      → me < s.plr.n_proc
      → (expired : Bool) → Calm expired s
      → (again : M (Unit {0}))
      → GoodRun limit (
          (if expired then watchdog_round fork me w call again else timed_wait me w expired call) s)
  unfolding watchdog_round
  Calm-rest s h lt false calm again = timed_wait-Good limit me w s h lt false call
  Calm-rest s h lt true (inl e) again = absurd (false≢true (sym e))
  Calm-rest s h lt true (inr e) again =
      RunOk-bind limit Idle GoodPart (watchdog_expired fork me w call) (watchdog_result again) s
        (subst (RunOk limit Idle) (sym (watchdog_idle fork limit fresh me w s h lt call e))
          (refl, refl))
        (λ ret t i. rw (i.0, i.1) (timed_wait-Good limit me w s h lt true call))
    where
      Idle : ℤ → System → Type 0
      Idle ret t = (ret ≡ pos 0) × (t ≡ s)

  after_exit :
      (s : System) (h : Middle limit me w s) (lt : me < s.plr.n_proc) (rest : M (Unit {0}))
      → ((t : System)
          → places t ≡ places s
          → ltb_ℤ (s.all_proc me).wait_idx (pos 0) ≡ false
          → GoodRun limit (rest t))
      → (exit : Bool) (t : System) → Exited fork limit fresh me w s h lt exit t
      → GoodRun limit ((if exit then leave me w else rest) t)
  after_exit s h lt rest next true t e = leave-Good limit me w t e.0 e.2 e.1
  after_exit s h lt rest next false t e = next t e.0 e.1

  pub Calm-loop :
      (s : System)
      → Middle limit me w s
      → me < s.plr.n_proc
      → (expired : Bool) → Calm expired s
      → (fuel : ℕ) → GoodRun limit (wait_loop fork (suc fuel) me w expired call s)
  unfolding wait_loop
  Calm-loop s h lt expired calm fuel =
      RunOk-bind limit (Exited fork limit fresh me w s h lt) GoodPart (check_exit fork me w call)
        (λ exit. if exit then leave me w else rest) s
        (check_exit-Exited fork limit fresh me w s h lt call ok)
        (after_exit s h lt rest (λ t e _.
          Calm-rest t (Middle-same fork limit fresh me w s h lt t e)
            (lt_same fork limit fresh me w s h lt t e) expired (same-Calm s t expired e calm)
            (wait_loop fork fuel me w expired call)))
    where
      rest : M (Unit {0})
      rest =
          if expired
          then watchdog_round fork me w call (wait_loop fork fuel me w expired call)
          else timed_wait me w expired call

  Watched-rest :
      (t : System) (h : Middle limit me w t) (lt : me < t.plr.n_proc) (fuel : ℕ) (ret : ℤ)
      (u : System)
      → Watched fork limit fresh me w t h lt call ret u
      → GoodRun limit (watchdog_result (wait_loop fork (suc fuel) me w true call) ret u)
  Watched-rest t h lt fuel ret u (inl (e, m, lt', r)) = rw e (Calm-loop u m lt' true (inr r) fuel)
  Watched-rest t h lt fuel ret u (inr (e, p)) =
      let m = Middle-same fork limit fresh me w t h lt u p in
      let lt' = lt_same fork limit fresh me w t h lt u p in
      elim (Bool-cases (ltb_ℤ ret (pos 0))) [
        | inl neg ↦ rw neg (exit_barrier-Good limit me w u m lt' GoodPart)
        | inr pos' ↦ rw (pos', e) (timed_wait-Good limit me w u m lt' true call)
      ]

  expired_rest :
      (t : System) (h : Middle limit me w t) (lt : me < t.plr.n_proc) (fuel : ℕ)
      → t.plr.restoring ≡ false
      → ltb_ℤ (t.all_proc me).wait_idx (pos 0) ≡ false
      → Prompt (places t)
      → GoodRun limit (watchdog_round fork me w call (wait_loop fork (suc fuel) me w true call) t)
  unfolding watchdog_round
  expired_rest t h lt fuel r f prompt =
      RunOk-bind limit (Watched fork limit fresh me w t h lt call) GoodPart
        (watchdog_expired fork me w call)
        (watchdog_result (wait_loop fork (suc fuel) me w true call)) t
        (watchdog-Watched fork limit fresh me w t h lt call r f prompt) (Watched-rest t h lt fuel)

  -- Two rounds are enough for every section: after a replacement the second round waits.
  pub wait_loop-Good :
      (s : System)
      → Middle limit me w s
      → me < s.plr.n_proc
      → (expired : Bool)
      → (expired ≡ true → ltb_ℤ (s.all_proc me).wait_idx (pos 0) ≡ false → Prompt (places s))
      → (fuel : ℕ) → GoodRun limit (wait_loop fork (suc (suc fuel)) me w expired call s)
  wait_loop-Good s h lt false prompt fuel = Calm-loop s h lt false (inl refl) (suc fuel)
  wait_loop-Good s h lt true prompt fuel = elim (Bool-cases s.plr.restoring) [
    | inl r ↦ Calm-loop s h lt true (inr r) (suc fuel)
    | inr r ↦
        unfold wait_loop in
        RunOk-bind limit (Exited fork limit fresh me w s h lt) GoodPart (check_exit fork me w call)
          (λ exit. if exit then leave me w else watchdog_round fork me w call again) s
          (check_exit-Exited fork limit fresh me w s h lt call ok)
          (after_exit s h lt (watchdog_round fork me w call again) (λ t p f.
            expired_rest t (Middle-same fork limit fresh me w s h lt t p)
              (lt_same fork limit fresh me w s h lt t p) fuel
              (ap (λ (a : Places). a.restoring) p ∙ r)
              (ap (λ (a : Places). ltb_ℤ (a.place me).flag (pos 0)) p ∙ f)
              (subst Prompt (sym p) (prompt refl f))))
  ]
    where
      again : M (Unit {0})
      again = wait_loop fork (suc fuel) me w true call
