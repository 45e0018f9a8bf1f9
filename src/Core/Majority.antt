-- ===== src/Core/Majority.antt =====
-- The vote of `plr_checkSyscallArgs_act` against the majority that it stands for.
use plr.Prelude.{
  ◌≡◌, ◌≢◌, ◌↔◌, ◌⊎◌, inl, inr, Bool-cases, ◌==◌, ==_iff, eq→==, arith, sym, ◌∙◌, ℤ, pos, negsuc,
}
use mathlib.Core.Bool.{false≢true}
use plr.Compare.{SyscallArgs, compare_args}
use plr.Compare.Laws.{compare_args-eq_zero}
use plr.Core.Vote.{find_bad_proc}

-- The tests of the vote in terms of equality.
zero_of_eq : (a b : SyscallArgs) → a ≡ b → compare_args a b ≡ 0
zero_of_eq a b e = (compare_args-eq_zero a b).1 e

pos_of_ne : (a b : SyscallArgs) → a ≢ b → compare_args a b ≢ 0
pos_of_ne a b n e = n ((compare_args-eq_zero a b).0 e)

module _ (a b c : SyscallArgs) where
  bad-all : a ≡ b → b ≡ c → find_bad_proc 3 a b c ≡ negsuc 0
  unfolding find_bad_proc
  bad-all p q = ground (arith, zero_of_eq a b p, zero_of_eq b c q)

  bad-0 : a ≢ b → b ≡ c → find_bad_proc 3 a b c ≡ pos 0
  unfolding find_bad_proc
  bad-0 p q = ground (arith, pos_of_ne a b p, zero_of_eq b c q)

  bad-1 : a ≢ b → a ≡ c → find_bad_proc 3 a b c ≡ pos 1
  unfolding find_bad_proc
  bad-1 p q = ground (arith, pos_of_ne a b p, zero_of_eq a c q, pos_of_ne b c (λ e. p (q ∙ sym e)))

  bad-2 : a ≡ b → a ≢ c → find_bad_proc 3 a b c ≡ pos 2
  unfolding find_bad_proc
  bad-2 p q = ground (arith, zero_of_eq a b p, pos_of_ne a c q, pos_of_ne b c (λ e. q (p ∙ e)))

  bad-none : a ≢ b → a ≢ c → b ≢ c → find_bad_proc 3 a b c ≡ pos 3
  unfolding find_bad_proc
  bad-none p q r = ground (arith, pos_of_ne a b p, pos_of_ne a c q, pos_of_ne b c r)

  eq_or_ne : (x y : SyscallArgs) → (x ≡ y) ⊎ (x ≢ y)
  eq_or_ne x y = elim (Bool-cases (compare_args x y == 0)) [
    | inl e ↦ inl ((compare_args-eq_zero x y).0 ((==_iff _ _).0 e))
    | inr e ↦ inr (λ q. false≢true (sym e ∙ eq→== _ _ (zero_of_eq x y q)))
  ]

  -- The outcome, read off the comparison by a case split of its own.
  data Verdict (v : ℤ) : Type 0 where
    agree : v ≡ negsuc 0 → a ≡ b → b ≡ c → Verdict v
    odd_0 : v ≡ pos 0 → a ≢ b → b ≡ c → Verdict v
    odd_1 : v ≡ pos 1 → a ≢ b → a ≡ c → Verdict v
    odd_2 : v ≡ pos 2 → a ≡ b → a ≢ c → Verdict v
    split : v ≡ pos 3 → a ≢ b → a ≢ c → b ≢ c → Verdict v

  verdict : Verdict (find_bad_proc 3 a b c)
  verdict = elim (eq_or_ne a b) [
    | inl p ↦ elim (eq_or_ne b c) [
      | inl q ↦ agree (bad-all p q) p q
      | inr q ↦ let r : a ≢ c = λ e. q (sym p ∙ e) in odd_2 (bad-2 p r) p r
    ]
    | inr p ↦ elim (eq_or_ne b c) [
      | inl q ↦ odd_0 (bad-0 p q) p q
      | inr q ↦ elim (eq_or_ne a c) [
        | inl r ↦ odd_1 (bad-1 p r) p r
        | inr r ↦ split (bad-none p r q) p r q
      ]
    ]
  ]

  says_all : {v : ℤ} → Verdict v → v ≡ negsuc 0 → (a ≡ b) × (b ≡ c)
  says_all (agree e p q) h = (p, q)
  says_all (odd_0 e p q) h = absurd (ground arith)
  says_all (odd_1 e p q) h = absurd (ground arith)
  says_all (odd_2 e p q) h = absurd (ground arith)
  says_all (split e p q r) h = absurd (ground arith)

  says_0 : {v : ℤ} → Verdict v → v ≡ pos 0 → (a ≢ b) × (b ≡ c)
  says_0 (agree e p q) h = absurd (ground arith)
  says_0 (odd_0 e p q) h = (p, q)
  says_0 (odd_1 e p q) h = absurd (ground arith)
  says_0 (odd_2 e p q) h = absurd (ground arith)
  says_0 (split e p q r) h = absurd (ground arith)

  says_1 : {v : ℤ} → Verdict v → v ≡ pos 1 → (a ≢ b) × (a ≡ c)
  says_1 (agree e p q) h = absurd (ground arith)
  says_1 (odd_0 e p q) h = absurd (ground arith)
  says_1 (odd_1 e p q) h = (p, q)
  says_1 (odd_2 e p q) h = absurd (ground arith)
  says_1 (split e p q r) h = absurd (ground arith)

  says_2 : {v : ℤ} → Verdict v → v ≡ pos 2 → (a ≡ b) × (a ≢ c)
  says_2 (agree e p q) h = absurd (ground arith)
  says_2 (odd_0 e p q) h = absurd (ground arith)
  says_2 (odd_1 e p q) h = absurd (ground arith)
  says_2 (odd_2 e p q) h = (p, q)
  says_2 (split e p q r) h = absurd (ground arith)

  says_none : {v : ℤ} → Verdict v → v ≡ pos 3 → (a ≢ b) × (a ≢ c) × (b ≢ c)
  says_none (agree e p q) h = absurd (ground arith)
  says_none (odd_0 e p q) h = absurd (ground arith)
  says_none (odd_1 e p q) h = absurd (ground arith)
  says_none (odd_2 e p q) h = absurd (ground arith)
  says_none (split e p q r) h = (p, q, r)

  -- The value of `badProc` for three processes is -1 exactly when their argument structures are all
  -- equal, `i` exactly when the one of process `i` differs from the other two and those are equal,
  -- and `nProc` exactly when no two of them are equal.
  pub find_bad_proc_majority :
      ((find_bad_proc 3 a b c ≡ negsuc 0) ↔ ((a ≡ b) × (b ≡ c)))
      × ((find_bad_proc 3 a b c ≡ pos 0) ↔ ((a ≢ b) × (b ≡ c)))
      × ((find_bad_proc 3 a b c ≡ pos 1) ↔ ((a ≢ b) × (a ≡ c)))
      × ((find_bad_proc 3 a b c ≡ pos 2) ↔ ((a ≡ b) × (a ≢ c)))
      × ((find_bad_proc 3 a b c ≡ pos 3) ↔ ((a ≢ b) × (a ≢ c) × (b ≢ c)))
  find_bad_proc_majority = (
    (says_all verdict, λ h. bad-all h.0 h.1),
    (says_0 verdict, λ h. bad-0 h.0 h.1),
    (says_1 verdict, λ h. bad-1 h.0 h.1),
    (says_2 verdict, λ h. bad-2 h.0 h.1),
    (says_none verdict, λ h. bad-none h.0 h.1 h.2),
  )
