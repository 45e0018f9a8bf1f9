-- ===== src/Core/Reach/Drain.antt =====
-- The processes leave a barrier that has been released.
use mathlib.Core.Path.{subst}
use plr.Prelude.{
  ℕ, ◌<◌, ◌≡◌, ◌≢◌, refl, ◌⊎◌, inl, inr, Option, Bool, true, ◌||◌, List, [], ◌∷◌, All, Any, arith,
  sym, ap, ◌∙◌, pos, negsuc, ltb_ℤ, ℕ_discrete, if-true, if-false, eq→==, ne→==,
}
use plr.Core.State.{
  Call, Phase, gone, outside, waiting, forked_in_action, forked_in_watchdog, Process, System, M,
  ◌>>=◌, ◌>>◌, done, set_phase, sub_wait_cnt,
}
use plr.Core.Barrier.{leave}
use plr.Core.Wait.{check_exit, wait_loop, rounds, resume, resume_phase}
use plr.Core.Places.{kind, free, inside, Places, places, Good}
use plr.Core.Invariant.Middle.{leave-Good}
use plr.Core.Invariant.Sections.{as_at_self}

-- All have been released from barrier `w`: each wait flag is cleared, and each process is out of the
-- barrier or waits in it.
abbrev pub Draining : ℕ → Places → Type 0
Draining w a =
    (j : ℕ)
    → j < a.n
    → ((a.place j).flag ≡ negsuc 0) × (((a.place j).at ≡ free) ⊎ ((a.place j).at ≡ inside w))

pub phase-free : (ph : Phase) → kind ph ≡ free → ph ≡ outside
phase-free gone e = absurd (ground arith)
phase-free outside e = refl
phase-free (waiting w e k c) h = absurd (ground arith)
phase-free (forked_in_action p w) h = absurd (ground arith)
phase-free (forked_in_watchdog p w v c) h = absurd (ground arith)

phase-inside :
    (w : ℕ) (ph : Phase)
    → kind ph ≡ inside w
    → (expired woken : Bool) × (call : Call) × (ph ≡ waiting w expired woken call)
phase-inside w gone h = absurd (ground arith)
phase-inside w outside h = absurd (ground arith)
phase-inside w (waiting v e k c) h =
    let same : v ≡ w = ground arith in (e, k, c, ap (λ x. waiting x e k c) same)
phase-inside w (forked_in_action p v) h = absurd (ground arith)
phase-inside w (forked_in_watchdog p v u c) h = absurd (ground arith)

-- The processes get the lock in the given order, each by a signal or by a timeout.
unfoldable pub resume_all : (ℕ → Option ℕ) → List (ℕ × Bool) → M (Unit {0})
unfolding resume
resume_all fork [] = λ s. done tt s
resume_all fork (x ∷ rest) = λ s. (resume fork x.0 x.1 >> resume_all fork rest) s

module _ (fork : ℕ → Option ℕ) (limit : ℕ → ℕ) (w : ℕ) where
  -- A state in which the release goes on, against the one in which it began.
  pub record Later (s t : System) : Type 0 where
    pub good : Good limit (places t)
    pub drains : Draining w (places t)
    pub same_n : t.plr.n_proc ≡ s.plr.n_proc
    pub same_cur : t.plr.cur_wait_idx ≡ s.plr.cur_wait_idx
    pub stay : (j : ℕ) → ((places s).place j).at ≡ free → ((places t).place j).at ≡ free

  leaves :
      (i : ℕ) (expired : Bool) (call : Call) (s : System)
      → (s.all_proc i).wait_idx ≡ negsuc 0
      → wait_loop fork rounds i w expired call s ≡ leave i w s
  unfolding wait_loop check_exit
  leaves i expired call s e =
      let out : check_exit fork i w call s ≡ done true s =
        if-true _ _ (ap (λ k. ltb_ℤ k (pos 0)) e) in
      rw (out, wait_loop, ◌>>=◌) refl

  resume-Later :
      (i : ℕ) (timed_out : Bool) (s : System)
      → i < s.plr.n_proc
      → Good limit (places s)
      → Draining w (places s)
      → (t : System) × (resume fork i timed_out s ≡ done tt t)
        × Later s t
        × (((places t).place i).at ≡ free)
  unfolding resume resume_phase leave
  resume-Later i timed_out s lt good drains = elim (drains i lt).1 [
    | inl e ↦ (
      s,
      ap (λ p. resume_phase fork i timed_out p s) (phase-free (s.process i).phase e),
      record { good = good; drains = drains; same_n = refl; same_cur = refl; stay = λ j h. h },
      e,
    )
    | inr e ↦
        let (expired, woken, call, ph) = phase-inside w (s.process i).phase e in
        let flag = (drains i lt).0 in
        let t = set_phase i outside (sub_wait_cnt w s) in
        let own : (j : ℕ) → j ≡ i → ((places t).place j).at ≡ free =
          λ j q. ap (λ (p : Process). kind p.phase) (if-true _ _ (eq→== j i q)) in
        let others : (j : ℕ) → j ≢ i → ((places t).place j).at ≡ ((places s).place j).at =
          λ j q. ap (λ (p : Process). kind p.phase) (if-false _ _ (ne→== j i q)) in
        (
          t,
          ap (λ p. resume_phase fork i timed_out p s) ph
              ∙ leaves i (expired || timed_out) call s flag,
          record {
            good =
                leave-Good limit i w s
                  (subst (Good limit) (sym (as_at_self i (inside w) (places s) e)) good) lt flag;
            drains = λ j p. (
              (drains j p).0,
              elim (ℕ_discrete j i) [
                | yes q ↦ inl (own j q)
                | no q ↦ elim (drains j p).1 [
                  | inl h ↦ inl (others j q ∙ h)
                  | inr h ↦ inr (others j q ∙ h)
                ]
              ],
            );
            same_n = refl;
            same_cur = refl;
            stay = λ j h. elim (ℕ_discrete j i) [ yes q ↦ own j q | no q ↦ others j q ∙ h ];
          },
          own i refl,
        )
  ]

  Later-trans : {s t u : System} → Later s t → Later t u → Later s u
  Later-trans a b = record {
    good = b.good;
    drains = b.drains;
    same_n = b.same_n ∙ a.same_n;
    same_cur = b.same_cur ∙ a.same_cur;
    stay = λ j h. b.stay j (a.stay j h);
  }

  pub resume_all-Later :
      (order : List (ℕ × Bool)) (s : System)
      → All (λ x. x.0 < s.plr.n_proc) order
      → Good limit (places s)
      → Draining w (places s)
      → (t : System) × (resume_all fork order s ≡ done tt t)
        × Later s t
        × ((j : ℕ) → Any (λ x. x.0 ≡ j) order → ((places t).place j).at ≡ free)
  unfolding resume_all All Any
  resume_all-Later [] s h good drains = (
    s,
    refl,
    record { good = good; drains = drains; same_n = refl; same_cur = refl; stay = λ j e. e },
    λ j a. absurd a,
  )
  resume_all-Later (x ∷ rest) s h good drains =
      let (u, did, later, out) = resume-Later x.0 x.1 s h.0 good drains in
      let inside_u = subst (λ n. All (λ y. y.0 < n) rest) (sym later.same_n) h.1 in
      let (t, ran, later', reached) = resume_all-Later rest u inside_u later.good later.drains in
      (
        t,
        rw (did, ◌>>=◌) ran,
        Later-trans later later',
        λ j a. elim a [
          | inl e ↦ later'.stay j (subst (λ i. ((places u).place i).at ≡ free) e out)
          | inr b ↦ reached j b
        ],
      )
