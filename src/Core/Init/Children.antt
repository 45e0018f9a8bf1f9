-- ===== src/Core/Init/Children.antt =====
-- What the children that `plr_processInit` starts make of their places.
use mathlib.Core.Path.{subst}
use mathlib.Core.List.{Permᴰ}
use mathlib.Core.List.Permᴰ.{nil, cons, swap, trans}
use plr.Prelude.{
  All, Any, ℕ, zero, suc, ◌≤◌, ◌<◌, ◌≡◌, ◌≢◌, refl, ◌⊎◌, inl, inr, Bool-cases, if-true, if-false,
  eq→==, ne→==, true, not, some, List, [], ◌∷◌, ◌==◌, ltb, if◌then◌else◌, update, ℤ, arith, ap, ◌∙◌,
  sym, Bool, ℕ_discrete,
}
use plr.SharedData.{PerProcData, PlrData, zero_proc, init_proc_data, init_proc_data_as_copy}
use plr.Core.Entry.{figurehead_init}
use plr.Core.Init.{◌>>=◌, Shared, Child, finish_init, child_init, run_children}

pub All-Permᴰ : {A : Type 0} (P : A → Type 0) {l l' : List A} → Permᴰ l l' → All P l → All P l'
unfolding All
All-Permᴰ P nil h = h
All-Permᴰ P (cons e d) h = (subst P e h.0, All-Permᴰ P d h.1)
All-Permᴰ P (swap e e') h = (subst P e' h.1.0, (subst P e h.0, h.1.1))
All-Permᴰ P (trans d d') h = All-Permᴰ P d' (All-Permᴰ P d h)

pub Any-Permᴰ : {A : Type 0} (P : A → Type 0) {l l' : List A} → Permᴰ l l' → Any P l → Any P l'
unfolding Any
Any-Permᴰ P nil h = h
Any-Permᴰ P (cons e d) (inl h) = inl (subst P e h)
Any-Permᴰ P (cons e d) (inr h) = inr (Any-Permᴰ P d h)
Any-Permᴰ P (swap e e') (inl h) = inr (inl (subst P e h))
Any-Permᴰ P (swap e e') (inr (inl h)) = inl (subst P e' h)
Any-Permᴰ P (swap e e') (inr (inr h)) = inr (inr h)
Any-Permᴰ P (trans d d') h = Any-Permᴰ P d' (Any-Permᴰ P d h)

-- The record of a process that has been started.
abbrev pub started_proc : (mode pid : ℕ) → PerProcData
started_proc mode pid = record (init_proc_data pid zero_proc) { inside_plr = not (mode == 0) }

-- Process 0 is the first one, and the others have the pids that `fork` has given.
abbrev pub pid_of : (self : ℕ) (pids : ℕ → ℕ) → ℕ → ℕ
pid_of self pids zero = self
pid_of self pids (suc i) = pids i

abbrev pub started_plr : (n mode figurehead : ℕ) → ℤ → PlrData
started_plr n mode figurehead timeout = record (figurehead_init n mode figurehead timeout) {
  did_process_init = true;
}

-- The shared memory when all are started.
abbrev pub all_started : (n mode figurehead : ℕ) → ℤ → (self : ℕ) (pids : ℕ → ℕ) → Shared
all_started n mode figurehead timeout self pids = record {
  plr = started_plr n mode figurehead timeout;
  all_proc = λ i. if ltb i n then started_proc mode (pid_of self pids i) else zero_proc;
}

module _ (n mode figurehead : ℕ) (timeout : ℤ) (self : ℕ) (pids : ℕ → ℕ) where
  abbrev pub first : PerProcData
  first = init_proc_data self zero_proc

  abbrev pub target : ℕ → PerProcData
  target i = started_proc mode (pid_of self pids i)

  abbrev pub plr1 : PlrData
  plr1 = started_plr n mode figurehead timeout

  -- What the loop makes of a child.
  abbrev pub IsChild : Child → Type 0
  IsChild c =
      (c.parent ≡ first) × (c.self ≡ pid_of self pids c.place) × (0 < c.place) × (c.place < n)

  abbrev pub Ready : PerProcData → ℕ → Type 0
  Ready p i = (p ≡ zero_proc) ⊎ (p ≡ target i)

  pub finish_init-started :
      (me : ℕ) (m : Shared)
      → record (m.plr) { did_process_init = true } ≡ plr1
      → m.all_proc me ≡ init_proc_data (pid_of self pids me) zero_proc
      → (t : Shared) × (finish_init (some me) m ≡ some t)
        × (t.plr ≡ plr1)
        × (t.all_proc me ≡ target me)
        × ((j : ℕ) → j ≢ me → t.all_proc j ≡ m.all_proc j)
  unfolding finish_init figurehead_init init_proc_data
  finish_init-started me m e p =
      let plr = record (m.plr) { did_process_init = true } in
      let same : m.plr.inside_plr_init_true ≡ mode =
        ap (λ (d : PlrData). d.inside_plr_init_true) e in
      let inside : Bool → PerProcData =
        λ b. record (init_proc_data (pid_of self pids me) zero_proc) { inside_plr = not b } in
      elim (Bool-cases (mode == 0)) [
        | inl z ↦ (
          record m { plr = plr },
          if-true _ _ (ap (λ k. k == 0) same ∙ z),
          e,
          p ∙ ap inside (sym z),
          λ j ne. refl,
        )
        | inr z ↦ (
          record {
            plr = plr;
            all_proc = update m.all_proc me (record (m.all_proc me) { inside_plr = true });
          },
          if-false _ _ (ap (λ k. k == 0) same ∙ z),
          e,
          if-true _ _ (eq→== me me refl)
              ∙ ap (λ (q : PerProcData). record q { inside_plr = true }) p
              ∙ ap inside (sym z),
          λ j ne. if-false _ _ (ne→== j me ne),
        )
      ]

  copied :
      (c : Child) (p : PerProcData)
      → IsChild c
      → Ready p c.place
      → init_proc_data_as_copy c.self p c.parent
        ≡ init_proc_data (pid_of self pids c.place) zero_proc
  unfolding init_proc_data_as_copy init_proc_data
  copied c p k r =
      let parent = ap (init_proc_data_as_copy c.self p) k.0 in
      let pid = ap (λ q. init_proc_data_as_copy q p first) k.1 in
      elim r [
        | inl z ↦
            parent ∙ pid ∙ ap (λ q. init_proc_data_as_copy (pid_of self pids c.place) q first) z
        | inr z ↦
            parent ∙ pid ∙ ap (λ q. init_proc_data_as_copy (pid_of self pids c.place) q first) z
      ]

  child_init-started :
      (c : Child) (m : Shared)
      → IsChild c
      → m.plr ≡ plr1
      → Ready (m.all_proc c.place) c.place
      → (t : Shared) × (child_init c m ≡ some t)
        × (t.plr ≡ plr1)
        × (t.all_proc c.place ≡ target c.place)
        × ((j : ℕ) → j ≢ c.place → t.all_proc j ≡ m.all_proc j)
  unfolding child_init
  child_init-started c m k e r =
      let p = init_proc_data_as_copy c.self (m.all_proc c.place) c.parent in
      let b : Shared = record m { all_proc = update m.all_proc c.place p } in
      let (t, did, plr, own, others) =
        finish_init-started c.place b (ap (λ (d : PlrData). record d { did_process_init = true }) e)
          (if-true _ _ (eq→== c.place c.place refl) ∙ copied c (m.all_proc c.place) k r) in
      (t, did, plr, own, λ j ne. others j ne ∙ if-false _ _ (ne→== j c.place ne))

  pub run_children-started :
      (cs : List Child) (m : Shared)
      → All IsChild cs
      → m.plr ≡ plr1
      → ((i : ℕ) → Ready (m.all_proc i) i)
      → (t : Shared) × (run_children cs m ≡ some t)
        × (t.plr ≡ plr1)
        × ((i : ℕ) → m.all_proc i ≡ target i → t.all_proc i ≡ target i)
        × ((i : ℕ) → Any (λ c. c.place ≡ i) cs → t.all_proc i ≡ target i)
        × ((i : ℕ) → n ≤ i → t.all_proc i ≡ m.all_proc i)
  unfolding run_children All Any
  run_children-started [] m h e r = (m, refl, e, λ i p. p, λ i a. absurd a, λ i p. refl)
  run_children-started (c ∷ cs) m h e r =
      let (a, did, plr, own, others) = child_init-started c m h.0 e (r c.place) in
      let stays : (i : ℕ) → m.all_proc i ≡ target i → a.all_proc i ≡ target i =
        λ i p. elim (ℕ_discrete i c.place) [ yes q ↦ rw q own | no q ↦ others i q ∙ p ] in
      let ready : (i : ℕ) → Ready (a.all_proc i) i = λ i. elim (ℕ_discrete i c.place) [
        | yes q ↦ inr (rw q own)
        | no q ↦ subst (λ p. Ready p i) (sym (others i q)) (r i)
      ] in
      let (t, rest, plr', keep, reach, beyond) = run_children-started cs a h.1 plr ready in
      (
        t,
        rw (did, run_children, ◌>>=◌) rest,
        plr',
        λ i p. keep i (stays i p),
        λ i x. elim x [
          | inl q ↦ keep i (subst (λ j. a.all_proc j ≡ target j) q own)
          | inr y ↦ reach i y
        ],
        λ i p. beyond i p ∙ others i (λ q. absurd (omega (arith, p, q, h.0.3))),
      )
