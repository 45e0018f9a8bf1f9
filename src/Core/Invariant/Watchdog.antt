-- ===== src/Core/Invariant/Watchdog.antt =====
-- `plr_watchdogExpired` in the middle of a section.
use plr.Prelude.{
  ℕ, zero, suc, ◌+◌, ◌<◌, ◌≡◌, ◌≢◌, refl, ◌⊎◌, inl, inr, Option, some, Option-cases, Bool, true,
  false, Bool-cases, ltb, if◌then◌else◌, arith, sym, ap, ◌∙◌, ℤ, pos, negsuc, ltb_ℤ, eq_ℤ,
  ℕ_discrete, ne→==, if-false,
}
use mathlib.Core.Bool.{false≢true}
use mathlib.Core.Path.{subst}
use plr.SharedData.{PerProcData, PlrData}
use plr.Core.State.{Call, Phase, forked_in_watchdog, System, done, ◌>>=◌, pure}
use plr.Core.Replace.{replace_process_idx}
use plr.Core.Barrier.{find_not_waiting, set_restoring}
use plr.Core.Wait.{replace_missing, watchdog_expired}
use plr.Core.Places.{
  Kind, kind, absent, free, inside, child_of_action, child_of_watchdog, counted, FitsAt, Places,
  places, Good, FreshPids,
}
use plr.Core.Places.Move.{FitsAt-restoring, Moved, Good-move}
use plr.Core.Invariant.Middle.{as_at, RunOk, RunOk-bind, Middle, own}
use plr.Core.Invariant.Replaced.{Replaced, replace-Replaced}
use plr.Core.Invariant.Ready.{
  replaced-Moved, replaced_at, replaced_away, replaced_known, replaced_more,
}

-- A process that no counter counts.
abbrev pub IsOut : Kind → Type 0
IsOut absent = Unit
IsOut free = Unit
IsOut (inside _) = ⊥
IsOut (child_of_action _) = ⊥
IsOut (child_of_watchdog _ _) = Unit

-- Every process that has been released from a barrier has also left it.
abbrev pub Prompt : Places → Type 0
Prompt a = (j : ℕ) → j < a.n → ltb_ℤ (a.place j).flag (pos 0) ≡ true → IsOut (a.place j).at

pub find_not_waiting-some :
    (left i : ℕ) (all_proc : ℕ → PerProcData) (v : ℕ)
    → find_not_waiting left i all_proc ≡ some v
    → (v < i + left) × (ltb_ℤ (all_proc v).wait_idx (pos 0) ≡ true)
unfolding find_not_waiting
find_not_waiting-some zero i all_proc v e = cc
find_not_waiting-some (suc left) i all_proc v e =
    elim (Bool-cases (ltb_ℤ (all_proc i).wait_idx (pos 0))) [
      | inl h ↦ let same : i ≡ v = ground arith in rw (← same) (omega arith, h)
      | inr h ↦
          let r = find_not_waiting-some left (i + 1) all_proc v (ground arith) in
          (omega (arith, r.0), r.1)
    ]

child_restoring :
    (cur pid self : ℕ) (r : Bool) (flag : ℤ) (at : Kind) {x v : ℕ}
    → FitsAt cur r pid flag self at
    → at ≡ child_of_watchdog x v
    → r ≡ true
child_restoring cur pid self r flag absent f e = cc
child_restoring cur pid self r flag free f e = cc
child_restoring cur pid self r flag (inside w) f e = cc
child_restoring cur pid self r flag (child_of_action w) f e = cc
child_restoring cur pid self r flag (child_of_watchdog w c) f e = f.2

out_pid :
    (cur pid self : ℕ) (flag : ℤ) (at : Kind)
    → IsOut at
    → FitsAt cur false pid flag self at
    → pid ≡ self
out_pid cur pid self flag absent o f = f
out_pid cur pid self flag free o f = f.1
out_pid cur pid self flag (inside w) o f = absurd o
out_pid cur pid self flag (child_of_action w) o f = absurd o
out_pid cur pid self flag (child_of_watchdog w c) o f = absurd (false≢true f.2)

out_weight : (k : ℕ) (at : Kind) → IsOut at → counted k at ≡ 0
out_weight k absent o = refl
out_weight k free o = refl
out_weight k (inside w) o = absurd o
out_weight k (child_of_action w) o = absurd o
out_weight k (child_of_watchdog w c) o = refl

Good-restoring :
    {limit : ℕ → ℕ} {a : Places} → Good limit a → Good limit (record a { restoring = true })
Good-restoring {a} h = record {
  index = h.index;
  count = h.count;
  fits = λ i p.
      FitsAt-restoring a.cur (a.place i).pid (a.place i).self a.restoring true (a.place i).flag
        (a.place i).at (inr (inl refl)) (h.fits i p);
  distinct = h.distinct;
  known = h.known;
  one_child = h.one_child;
}

module _ (fork : ℕ → Option ℕ) (limit : ℕ → ℕ) (fresh : FreshPids fork limit) (me w : ℕ)
    (s : System) (h : Middle limit me w s) (lt : me < s.plr.n_proc) (call : Call) where
  -- A replacement has been started, or nothing has changed.
  abbrev pub Watched : ℤ → System → Type 0
  Watched ret t =
      ((ret ≡ pos 1) × Middle limit me w t × (me < t.plr.n_proc) × (t.plr.restoring ≡ true))
      ⊎ ((eq_ℤ ret (pos 1) ≡ false) × (places t ≡ places s))

  pub watchdog_idle : s.plr.restoring ≡ true → watchdog_expired fork me w call s ≡ done (pos 0) s
  unfolding watchdog_expired
  watchdog_idle e = rw (e, watchdog_expired) refl

  module _ (quiet : s.plr.restoring ≡ false)
      (flagged : ltb_ℤ (s.all_proc me).wait_idx (pos 0) ≡ false) (prompt : Prompt (places s)) where
    current : w ≡ s.plr.cur_wait_idx
    current = elim (own limit me w s h lt).1 [ inl e ↦ ground arith | inr e ↦ e.1 ]

    no_child :
        (j x v : ℕ)
        → j < s.plr.n_proc
        → ((as_at me (inside w) (places s)).place j).at ≢ child_of_watchdog x v
    no_child j x v p e =
        let a = as_at me (inside w) (places s) in
        false≢true (
          sym quiet
          ∙ child_restoring a.cur (a.place j).pid (a.place j).self a.restoring (a.place j).flag
              (a.place j).at (h.fits j p) e)

    victim_pid :
        (v : ℕ)
        → v < s.plr.n_proc
        → ltb_ℤ (s.all_proc v).wait_idx (pos 0) ≡ true
        → (s.all_proc v).pid ≡ (s.process v).self
    victim_pid v lv e = elim (ℕ_discrete v me) [
      | yes q ↦ rw q (own limit me w s h lt).0
      | no q ↦
          out_pid s.plr.cur_wait_idx (s.all_proc v).pid (s.process v).self (s.all_proc v).wait_idx
            (kind (s.process v).phase) (prompt v lv e) (rw (ne→== v me q, quiet) at (h.fits v lv))
    ]

    born : PerProcData → Phase
    born parent = forked_in_watchdog parent w s.plr.cur_wait_idx call

    marked : System
    marked = set_restoring true s

    Replaced-Watched :
        (v : ℕ)
        → v < s.plr.n_proc
        → ltb_ℤ (s.all_proc v).wait_idx (pos 0) ≡ true
        → (ret : ℤ) (t : System) → (ret ≡ pos 0) × Replaced limit me v born marked t
        → RunOk limit Watched ((if ltb_ℤ ret (pos 0) then pure (negsuc 0) else pure (pos 1)) t)
    unfolding marked born
    Replaced-Watched v lv e ret t (z, r) = rw z (
        inl (
          refl,
          Good-move (Good-restoring h) v lv m
              (rw (replaced_at w r lt, r.same_plr) (current, refl, refl))
              (inl (ap (λ (p : PlrData). p.restoring) r.same_plr))
              (λ _ _ _. λ j x y p _. no_child j x y p) (replaced_away w r lt (Good-restoring h))
              (replaced_known w r lt (Good-restoring h)) (replaced_more w r lt (Good-restoring h)),
          rw r.same_plr lt,
          ap (λ (p : PlrData). p.restoring) r.same_plr,
        ))
      where
        m :
            Moved v
              (record (as_at me (inside w) (places s)) { restoring = true })
              (as_at me (inside w) (places t))
        m = replaced-Moved w r lt (λ k.
            rw
              (
                r.same_plr,
                ne→== v me r.other,
                out_weight k (kind (s.process v).phase) (prompt v lv e),
              )
              refl)

    replace_missing-Watched : RunOk limit Watched (replace_missing fork me w call s)
    unfolding replace_missing marked born
    replace_missing-Watched =
        elim (Bool-cases (ltb (s.plr.cond_wait_cnt s.plr.cur_wait_idx + 1) s.plr.n_proc)) [
          | inl e ↦ rw (e, replace_missing) (inr (refl, refl))
          | inr e ↦ elim (Option-cases (find_not_waiting s.plr.n_proc 0 s.all_proc)) [
            | inl f ↦ rw (e, f, replace_missing) (inr (refl, refl))
            | inr (v, f) ↦ rw (e, f, replace_missing) (started v f)
          ]
        ]
      where
        started :
            (v : ℕ)
            → find_not_waiting s.plr.n_proc 0 s.all_proc ≡ some v
            → RunOk limit Watched (
                (replace_process_idx fork me born v >>= λ ret.
                if ltb_ℤ ret (pos 0) then pure (negsuc 0) else pure (pos 1))
                  marked)
        started v f =
            let (below, e) = find_not_waiting-some s.plr.n_proc 0 s.all_proc v f in
            let lv : v < s.plr.n_proc = omega (arith, below) in
            RunOk-bind limit (λ ret t. (ret ≡ pos 0) × Replaced limit me v born marked t) Watched
              (replace_process_idx fork me born v)
              (λ ret. if ltb_ℤ ret (pos 0) then pure (negsuc 0) else pure (pos 1)) marked
              (replace-Replaced fork limit fresh me w born v marked (Good-restoring h) lt lv
                (victim_pid v lv e))
              (Replaced-Watched v lv e)

    pub watchdog-Watched : RunOk limit Watched (watchdog_expired fork me w call s)
    unfolding watchdog_expired
    watchdog-Watched = subst (RunOk limit Watched) (sym opened) replace_missing-Watched
      where
        opened : watchdog_expired fork me w call s ≡ replace_missing fork me w call s
        opened = if-false _ _ quiet
