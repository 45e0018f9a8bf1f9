-- ===== src/Core/Places/Release.antt =====
-- The release of the barrier, when all processes are counted at the current condition variable.
use plr.Prelude.{
  ℕ, ◌≤◌, ◌<◌, ◌≡◌, ◌≢◌, refl, ◌⊎◌, inl, inr, Bool, ◌==◌, ltb, if◌then◌else◌, arith, sym, ◌∙◌,
}
use plr.Prelude.{ℤ, negsuc, total, total_ext, total-full, total-zero}
use plr.Core.Places.{
  Kind, child_of_watchdog, absent, free, inside, child_of_action, counted, FitsAt, Place, weight,
  Places, Good,
}

abbrev pub other_index : ℕ → ℕ
other_index w = if w == 0 then 1 else 0

abbrev pub unflag : Place → Place
unflag p = record p { flag = negsuc 0 }

abbrev pub flip : Places → Places
flip a = record a {
  cur = other_index a.cur;
  place = λ j. if ltb j a.n then unflag (a.place j) else a.place j;
}

-- What of `Good` holds also between the replacement of a process and the release.
pub record Loose (limit : ℕ → ℕ) (a : Places) : Type 0 where
  pub index : a.cur ≤ 1
  pub count : (k : ℕ) → a.cnt k ≡ total (weight k) a.n a.place
  pub distinct : (i j : ℕ) → i < a.n → j < a.n → i ≢ j → (a.place i).self ≢ (a.place j).self
  pub known : (i : ℕ) → i < a.n → (0 < (a.place i).self) × ((a.place i).self < limit a.forks)

abbrev pub IsIn : ℕ → Place → Type 0
IsIn w p = ((p.at ≡ inside w) × (p.pid ≡ p.self)) ⊎ (p.at ≡ child_of_action w)

abbrev pub AllIn : ℕ → Places → Type 0
AllIn w a = (i : ℕ) → i < a.n → IsIn w (a.place i)

other_index-ne : (w : ℕ) → w ≢ other_index w
other_index-ne w = ground arith

FitsAt-unflag :
    (cur pid self : ℕ) (r : Bool) (flag : ℤ) (at : Kind)
    → ((at ≡ inside cur) × (pid ≡ self)) ⊎ (at ≡ child_of_action cur)
    → FitsAt (other_index cur) r pid (negsuc 0) self at
FitsAt-unflag cur pid self r flag at (inl (e, p)) = rw e (p, inl (refl, other_index-ne cur))
FitsAt-unflag cur pid self r flag at (inr e) = rw e (refl, other_index-ne cur)

module _ {limit : ℕ → ℕ} {a : Places} (h : Loose limit a) (all : AllIn a.cur a) where
  flip_at : (j : ℕ) → j < a.n → (flip a).place j ≡ unflag (a.place j)
  flip_at j p = ground arith

  pub flip-Good : Good limit (flip a)
  flip-Good = record {
    index = ground arith;
    count =
        λ k. h.count k ∙ total_ext (weight k) a.n a.place (flip a).place (λ j p. rw (flip_at j p));
    fits = λ i p. rw (flip_at i p) (
        FitsAt-unflag a.cur (a.place i).pid (a.place i).self a.restoring (a.place i).flag
          (a.place i).at (all i p));
    distinct = λ i j p q ne. rw (flip_at i p, flip_at j q) (h.distinct i j p q ne);
    known = λ i p. rw (flip_at i p) (h.known i p);
    one_child = λ i j w v w' v' p q ci cj. absurd (no_child i p w v (rw (flip_at i p) at ci));
  }
    where
      no_child : (i : ℕ) → i < a.n → (w v : ℕ) → (a.place i).at ≢ child_of_watchdog w v
      no_child i p w v c = elim (all i p) [ inl (e, _) ↦ cc (sym e ∙ c) | inr e ↦ cc (sym e ∙ c) ]

  -- No process is counted any more at the other variable, which the next barrier uses.
  pub flip-fresh : a.cnt (other_index a.cur) ≡ 0
  flip-fresh = h.count _ ∙ total-zero (weight _) a.n a.place (λ i p. ground (arith, all i p))

-- When the counter is full, every process stands in this barrier.
pub full-AllIn :
    {limit : ℕ → ℕ} {a : Places}
    → Good limit a
    → a.cnt a.cur ≡ a.n
    → (i : ℕ) → i < a.n
    → ((a.place i).at ≡ inside a.cur) × ((a.place i).pid ≡ (a.place i).self)
full-AllIn {a} h full i p = sort (a.place i).at (h.fits i p) one
  where
    one : weight a.cur (a.place i) ≡ 1
    one = total-full (weight a.cur) a.n a.place (λ q. ground arith) (sym (h.count a.cur) ∙ full) i p

    sort :
        (at : Kind)
        → FitsAt a.cur a.restoring (a.place i).pid (a.place i).flag (a.place i).self at
        → counted a.cur at ≡ 1
        → (at ≡ inside a.cur) × ((a.place i).pid ≡ (a.place i).self)
    sort absent f c = absurd (omega arith)
    sort free f c = absurd (omega arith)
    sort (inside w) f c = ground arith
    sort (child_of_action w) f c = ground arith
    sort (child_of_watchdog w v) f c = absurd (omega arith)
