-- ===== src/Core/Places/Move.antt =====
-- A change of one place keeps `Good`.
use plr.Prelude.{
  ℕ, ◌+◌, ◌≤◌, ◌<◌, ◌≡◌, ◌≢◌, refl, ◌⊎◌, inl, inr, Bool, true, ℕ_discrete, arith, sym, ap, ◌∙◌, ℤ,
}
use native.Mathlib.Nat.{le_refl}
use plr.Prelude.{total, total_change}
use plr.Core.Places.{
  Kind, child_of_watchdog, absent, free, inside, child_of_action, FitsAt, Place, weight, Places,
  Fits, Good,
}

-- `b` differs from `a` at place `i`, in the counters, in `restoring` and in the forks.
pub record Moved (i : ℕ) (a b : Places) : Type 0 where
  pub same_n : b.n ≡ a.n
  pub same_cur : b.cur ≡ a.cur
  pub same : (j : ℕ) → j < a.n → j ≢ i → b.place j ≡ a.place j
  pub cnt : (k : ℕ) → b.cnt k + weight k (a.place i) ≡ a.cnt k + weight k (b.place i)

-- No place but `i` has a child that was forked by the watchdog.
abbrev pub NoOther : ℕ → Places → Type 0
NoOther i a = (j w v : ℕ) → j < a.n → j ≢ i → (a.place j).at ≢ child_of_watchdog w v

-- A change of `restoring` matters to such children only.
pub FitsAt-restoring :
    (cur pid self : ℕ) (r r' : Bool) (flag : ℤ) (at : Kind)
    → (r' ≡ r) ⊎ (r' ≡ true) ⊎ ((w v : ℕ) → at ≢ child_of_watchdog w v)
    → FitsAt cur r pid flag self at
    → FitsAt cur r' pid flag self at
FitsAt-restoring cur pid self r r' flag absent h f = f
FitsAt-restoring cur pid self r r' flag free h f = f
FitsAt-restoring cur pid self r r' flag (inside w) h f = f
FitsAt-restoring cur pid self r r' flag (child_of_action w) h f = f
FitsAt-restoring cur pid self r r' flag (child_of_watchdog w v) (inl e) f = (f.0, f.1, e ∙ f.2)
FitsAt-restoring cur pid self r r' flag (child_of_watchdog w v) (inr (inl e)) f = (f.0, f.1, e)
FitsAt-restoring cur pid self r r' flag (child_of_watchdog w v) (inr (inr e)) f =
    absurd (e w v refl)

weight-le : (k : ℕ) (p : Place) → weight k p ≤ 1
weight-le k p = ground arith

module _ {limit : ℕ → ℕ} {a b : Places} (h : Good limit a) (i : ℕ) (lt : i < a.n)
    (m : Moved i a b) where
  pub moved_count : (k : ℕ) → b.cnt k ≡ total (weight k) b.n b.place
  moved_count k = rw m.same_n (
      omega (
        arith,
        m.cnt k,
        h.count k,
        total_change (weight k) a.n a.place b.place i (λ j p q. ap (weight k) (sym (m.same j p q)))
            lt,
      ))

  moved-Fits :
      Fits b (b.place i)
      → (b.restoring ≡ a.restoring) ⊎ (b.restoring ≡ true) ⊎ NoOther i a
      → (j : ℕ) → j < b.n
      → Fits b (b.place j)
  moved-Fits fit r j p = elim (ℕ_discrete j i) [
    | yes e ↦ rw e fit
    | no q ↦
        let p' : j < a.n = rw (← m.same_n) p in
        rw (m.same j p' q, m.same_cur)
          (FitsAt-restoring a.cur (a.place j).pid (a.place j).self a.restoring b.restoring
            (a.place j).flag (a.place j).at (others q p') (h.fits j p'))
  ]
    where
      others :
          j ≢ i
          → j < a.n
          → (b.restoring ≡ a.restoring)
            ⊎ (b.restoring ≡ true)
            ⊎ ((w v : ℕ) → (a.place j).at ≢ child_of_watchdog w v)
      others q p' = elim r [
        | inl e ↦ inl e
        | inr (inl e) ↦ inr (inl e)
        | inr (inr f) ↦ inr (inr (λ w v. f j w v p' q))
      ]

  abbrev pub Away : Type 0
  Away = (j : ℕ) → j < a.n → j ≢ i → (b.place i).self ≢ (a.place j).self

  in_a : {j : ℕ} → j < b.n → j < a.n
  in_a p = rw (← m.same_n) p

  pub moved_distinct :
      Away → (j k : ℕ) → j < b.n → k < b.n → j ≢ k → (b.place j).self ≢ (b.place k).self
  moved_distinct away j k p q ne = elim (ℕ_discrete j i) [
    | yes e ↦ elim (ℕ_discrete k i) [
      | yes e' ↦ absurd (ne (e ∙ sym e'))
      | no f' ↦ rw (e, m.same k (in_a q) f') (away k (in_a q) f')
    ]
    | no f ↦ elim (ℕ_discrete k i) [
      | yes e' ↦ rw (e', m.same j (in_a p) f) (λ x. away j (in_a p) f (sym x))
      | no f' ↦ rw (m.same j (in_a p) f, m.same k (in_a q) f') (h.distinct j k (in_a p) (in_a q) ne)
    ]
  ]

  pub moved_known :
      (0 < (b.place i).self) × ((b.place i).self < limit b.forks)
      → limit a.forks ≤ limit b.forks
      → (j : ℕ) → j < b.n
      → (0 < (b.place j).self) × ((b.place j).self < limit b.forks)
  moved_known known more j p = elim (ℕ_discrete j i) [
    | yes e ↦ rw e known
    | no f ↦ rw (m.same j (in_a p) f) (omega (arith, h.known j (in_a p)))
  ]

  moved_one_child :
      ((w v : ℕ) → (b.place i).at ≡ child_of_watchdog w v → NoOther i a)
      → (j k w v w' v' : ℕ) → j < b.n
      → k < b.n
      → (b.place j).at ≡ child_of_watchdog w v
      → (b.place k).at ≡ child_of_watchdog w' v'
      → j ≡ k
  moved_one_child lone j k w v w' v' p q cj ck = elim (ℕ_discrete j i) [
    | yes e ↦ elim (ℕ_discrete k i) [
      | yes e' ↦ e ∙ sym e'
      | no f' ↦ absurd (lone w v (rw e at cj) k w' v' (in_a q) f' (rw (m.same k (in_a q) f') at ck))
    ]
    | no f ↦ elim (ℕ_discrete k i) [
      | yes e' ↦ absurd (lone w' v' (rw e' at ck) j w v (in_a p) f (rw (m.same j (in_a p) f) at cj))
      | no f' ↦
          h.one_child j k w v w' v' (in_a p) (in_a q) (rw (m.same j (in_a p) f) at cj)
            (rw (m.same k (in_a q) f') at ck)
    ]
  ]

  -- The process of place `i` stays the same or is new.
  pub Good-move :
      Fits b (b.place i)
      → (b.restoring ≡ a.restoring) ⊎ (b.restoring ≡ true) ⊎ NoOther i a
      → ((w v : ℕ) → (b.place i).at ≡ child_of_watchdog w v → NoOther i a)
      → ((j : ℕ) → j < a.n → j ≢ i → (b.place i).self ≢ (a.place j).self)
      → (0 < (b.place i).self) × ((b.place i).self < limit b.forks)
      → limit a.forks ≤ limit b.forks
      → Good limit b
  Good-move fit r lone away known more = record {
    index = rw m.same_cur h.index;
    count = moved_count;
    fits = moved-Fits fit r;
    distinct = moved_distinct away;
    known = moved_known known more;
    one_child = moved_one_child lone;
  }

  -- The process of place `i` stays the same.
  pub Good-put :
      {p : Place}
      → b.place i ≡ p
      → p.self ≡ (a.place i).self
      → FitsAt a.cur b.restoring p.pid p.flag p.self p.at
      → (b.restoring ≡ a.restoring) ⊎ (b.restoring ≡ true) ⊎ NoOther i a
      → ((w v : ℕ) → p.at ≡ child_of_watchdog w v → NoOther i a)
      → b.forks ≡ a.forks
      → Good limit b
  Good-put e self fit r lone f =
      Good-move (rw (e, m.same_cur) fit) r (λ w v c. lone w v (rw e at c))
        (λ j p q. rw (e, self) (h.distinct i j lt p (λ x. q (sym x))))
        (rw (e, self, f) (h.known i lt)) (rw f (le_refl _))
