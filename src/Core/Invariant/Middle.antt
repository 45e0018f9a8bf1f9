-- ===== src/Core/Invariant/Middle.antt =====
-- The state in the middle of a section: `Good` once the process that runs it is put in its place
-- inside the barrier.
use plr.Prelude.{
  ℕ, ◌<◌, ◌≡◌, ◌≢◌, refl, ◌⊎◌, inl, inr, Bool, true, false, ◌==◌, if◌then◌else◌, arith, ap, fun_ext,
  pos, negsuc, total-ge,
}
use plr.Core.State.{
  Phase, waiting, Call, System, M, ◌>>=◌, Run, done, ended, out_of_fuel, set_phase,
}
use plr.Core.Barrier.{leave, exit_barrier, timed_wait}
use plr.Core.Places.{
  Kind, kind, absent, free, inside, child_of_watchdog, Places, places, Good, weight,
}
use plr.Core.Places.Move.{Good-put}

abbrev pub as_at : ℕ → Kind → Places → Places
as_at i k a = record a { place = λ j. if j == i then record (a.place i) { at = k } else a.place j }

pub places-set_phase :
    (i : ℕ) (ph : Phase) (s : System) → places (set_phase i ph s) ≡ as_at i (kind ph) (places s)
places-set_phase i ph s = ap (λ f. record (places s) { place = f }) (fun_ext (λ j. ground arith))

-- A part of a section: it goes on with a value and a state in `P`, or the process has ended and
-- leaves a good state or a lock that nobody can take again. It never runs out of rounds.
abbrev pub RunOk : {A : Type 0} → (ℕ → ℕ) → (A → System → Type 0) → Run A → Type 0
RunOk limit P (done a t) = P a t
RunOk limit P (ended t) = (t.lock_lost ≡ true) ⊎ Good limit (places t)
RunOk limit P out_of_fuel = ⊥

abbrev pub GoodRun : (ℕ → ℕ) → Run (Unit {0}) → Type 0
GoodRun limit = RunOk limit (λ _ t. Good limit (places t))

pub RunOk-bind :
    {A B : Type 0} (limit : ℕ → ℕ) (P : A → System → Type 0) (Q : B → System → Type 0) (m : M A)
    (k : A → M B) (s : System)
    → RunOk limit P (m s)
    → ((a : A) (t : System) → P a t → RunOk limit Q (k a t))
    → RunOk limit Q ((m >>= k) s)
RunOk-bind limit P Q m k s h next = go (m s) h
  where
    go :
        (r : Run _)
        → RunOk limit P r
        → RunOk limit Q
            (elim r [ done a t ↦ k a t | ended t ↦ ended t | out_of_fuel ↦ out_of_fuel ])
    go (done a t) h = next a t h
    go (ended t) h = h
    go out_of_fuel h = absurd h

no_child : {w v : ℕ} {P : Type 0} → free ≡ child_of_watchdog w v → P
no_child e = cc

no_child_absent : {w v : ℕ} {P : Type 0} → absent ≡ child_of_watchdog w v → P
no_child_absent e = cc

module _ (limit : ℕ → ℕ) (me w : ℕ) (s : System) where
  abbrev pub Middle : Type 0
  Middle = Good limit (as_at me (inside w) (places s))

  module _ (h : Middle) (lt : me < s.plr.n_proc) where
    -- The process is counted, so the counter is not 0.
    counter_pos : 0 < s.plr.cond_wait_cnt w
    counter_pos = ground (
      arith,
      h.count w,
      total-ge (weight w) s.plr.n_proc (as_at me (inside w) (places s)).place me lt,
    )

    pub timed_wait-Good : (e : Bool) (c : Call) → GoodRun limit (timed_wait me w e c s)
    unfolding timed_wait
    timed_wait-Good e c = rw (places-set_phase me (waiting w e false c) s) h

    at_me :
        (as_at me (inside w) (places s)).place me ≡ record ((places s).place me) { at = inside w }
    at_me = ground arith

    -- What the place of the process says.
    pub own :
        ((s.all_proc me).pid ≡ (s.process me).self)
        × ((((s.all_proc me).wait_idx ≡ negsuc 0) × (w ≢ s.plr.cur_wait_idx))
            ⊎ (((s.all_proc me).wait_idx ≡ pos w) × (w ≡ s.plr.cur_wait_idx)))
    own = rw at_me at (h.fits me lt)

    pub leave-Good : (s.all_proc me).wait_idx ≡ negsuc 0 → GoodRun limit (leave me w s)
    unfolding leave
    leave-Good flag =
        Good-put h me lt
          (record {
            same_n = refl;
            same_cur = refl;
            same = λ j p q. ground arith;
            cnt = λ k. ground (arith, counter_pos);
          })
          {p = record ((places s).place me) { at = free }} (ground arith) (ground arith)
          (flag, own.0) (inl refl) (λ w v e. no_child e) refl

    pub exit_barrier-Good :
        {A : Type 0} (P : A → System → Type 0) → RunOk limit P (exit_barrier me w s)
    unfolding exit_barrier
    exit_barrier-Good P = inr (
        Good-put h me lt
          (record {
            same_n = refl;
            same_cur = refl;
            same = λ j p q. ground arith;
            cnt = λ k. ground (arith, counter_pos);
          })
          {p = record ((places s).place me) { at = absent; flag = negsuc 0 }} (ground arith)
          (ground arith) own.0 (inl refl) (λ w v e. no_child_absent e) refl)
