-- ===== src/SharedData/ExtraShm/Refines.antt =====
-- The extra area, mapped by each process for itself and grown as needed, against a plain shared array.
use plr.Prelude.{
  ◌+◌, ◌<◌, length, ltb, if◌then◌else◌, Bool-cases, inl, inr, ℕ, ◌≤◌, ◌≡◌, refl, Bool, Option, none,
  some, List, [], ◌∷◌, if-true, if-false, eq→==, ne→==, update, ℕ_discrete, ℤ, arith, ap, ◌∙◌,
}
use plr.SharedData.{PerProcData, PlrData}
use plr.SharedData.ExtraShm.{SystemCalls, Area, write_cells, read_cells, copy_to_shm, copy_from_shm}
use plr.SharedData.ExtraShm.Laws.{Succeed, Mapped, copy_to_shm-writes, copy_from_shm-reads}

-- A copy to the area or from it.
pub data Copy : Type 0 where
  to_shm : (src : List ℤ) (offset : ℕ) → Copy
  from_shm : (n offset : ℕ) → Copy

-- The plain array: what a copy returns, and the array after it.
abbrev pub on_array : Copy → (ℕ → ℤ) → List ℤ × (ℕ → ℤ)
on_array (to_shm src offset) cells = ([], write_cells offset src cells)
on_array (from_shm n offset) cells = (read_cells n offset cells, cells)

abbrev pub run_on_array : List (ℕ × Copy) → (ℕ → ℤ) → List (List ℤ) × (ℕ → ℤ)
run_on_array [] cells = ([], cells)
run_on_array (x ∷ rest) cells =
    let (result, after) = on_array x.1 cells in
    let (results, end) = run_on_array rest after in (result ∷ results, end)

-- Every copy to the array ends at a place that fits an `int`, and every copy from it lies within the size,
-- which the copies to it have grown from `size` on.
abbrev pub Fits : List (ℕ × Copy) → (size : ℕ) → Type 0
Fits [] size = Unit
Fits ((i, to_shm src offset) ∷ rest) size =
    (offset + length src < 2147483648)
    × Fits rest (if ltb size (offset + length src) then offset + length src else size)
Fits ((i, from_shm n offset) ∷ rest) size = (offset + n ≤ size) × Fits rest size

-- The processes: what they share, and for each its record and whether its pointer is good.
pub record Group : Type 0 where
  pub plr : PlrData
  pub cells : ℕ → ℤ
  pub proc : ℕ → PerProcData
  pub valid : ℕ → Bool

abbrev pub area_of : ℕ → Group → Area
area_of i g = record { plr = g.plr; proc = g.proc i; extra_shm_valid = g.valid i; cells = g.cells }

abbrev pub put_back : ℕ → Area → Group → Group
put_back i a g = record {
  plr = a.plr;
  cells = a.cells;
  proc = update g.proc i a.proc;
  valid = update g.valid i a.extra_shm_valid;
}

infixl 5 ◌>>=◌
abbrev ◌>>=◌ : {A B : Type 0} → Option A → (A → Option B) → Option B
o >>= k = elim o [ none ↦ none | some a ↦ k a ]

-- Process `i` copies; none if it exits.
unfoldable pub run_copy : (ℕ → SystemCalls) → ℕ → Copy → Group → Option (List ℤ × Group)
run_copy calls i (to_shm src offset) g = do
  a ← copy_to_shm (calls i) src offset (area_of i g)
  some ([], put_back i a g)
run_copy calls i (from_shm n offset) g = do
  (dest, a) ← copy_from_shm (calls i) n offset (area_of i g)
  some (dest, put_back i a g)

unfoldable pub run_copies :
    (ℕ → SystemCalls) → List (ℕ × Copy) → Group → Option (List (List ℤ) × Group)
unfolding run_copy
run_copies calls [] g = some ([], g)
run_copies calls (x ∷ rest) g = do
  (result, h) ← run_copy calls x.0 x.1 g
  (results, end) ← run_copies calls rest h
  some (result ∷ results, end)

-- Every process has mapped no more than there is, at a good pointer.
abbrev pub AllMapped : Group → Type 0
AllMapped g = (i : ℕ) → Mapped (area_of i g)

put_back-AllMapped :
    (i : ℕ) (a : Area) (g : Group)
    → AllMapped g
    → Mapped a
    → (g.plr).extra_shm_size ≤ (a.plr).extra_shm_size
    → AllMapped (put_back i a g)
put_back-AllMapped i a g h m grown j = elim (ℕ_discrete j i) [
  | yes e ↦
      let p = if-true (a.proc) (g.proc j) (eq→== j i e) in
      let v = if-true (a.extra_shm_valid) (g.valid j) (eq→== j i e) in
      let n = ap (λ (r : PerProcData). r.extra_shm_mapped) p in
      (omega (arith, n, m.0), λ k. v ∙ m.1 (omega (arith, n, k)))
  | no e ↦
      let p = if-false (a.proc) (g.proc j) (ne→== j i e) in
      let v = if-false (a.extra_shm_valid) (g.valid j) (ne→== j i e) in
      let n = ap (λ (r : PerProcData). r.extra_shm_mapped) p in
      (omega (arith, n, (h j).0, grown), λ k. v ∙ (h j).1 (omega (arith, n, k)))
]

-- What a copy comes to; `size` is at most the size of the area after it.
CopiesTo : (ℕ → SystemCalls) → ℕ → Copy → (size : ℕ) → Group → Type 0
CopiesTo calls i c size g =
    (h : Group) × (run_copy calls i c g ≡ some ((on_array c g.cells).0, h))
    × (h.cells ≡ (on_array c g.cells).1)
    × AllMapped h
    × (size ≤ (h.plr).extra_shm_size)

run_to_shm :
    (calls : ℕ → SystemCalls) (i : ℕ) (src : List ℤ) (offset size : ℕ) (g : Group)
    → offset + length src < 2147483648
    → size ≤ (g.plr).extra_shm_size
    → Succeed (calls i)
    → AllMapped g
    → CopiesTo calls i
        (to_shm src offset)
        (if ltb size (offset + length src) then offset + length src else size)
        g
unfolding run_copy CopiesTo
run_to_shm calls i src offset size g small grown ok all =
    let w = copy_to_shm-writes (calls i) src offset (area_of i g) small ok (all i) in
    let more : (if ltb size (offset + length src) then offset + length src else size)
        ≤ (w.0.plr).extra_shm_size =
      elim (Bool-cases (ltb size (offset + length src))) [
        | inl e ↦ rw e (omega (arith, w.5, w.6))
        | inr e ↦ rw e (omega (arith, grown, w.4))
      ] in
    (put_back i w.0 g, rw (w.1, run_copy) refl, w.2, put_back-AllMapped i w.0 g all w.3 w.4, more)

run_from_shm :
    (calls : ℕ → SystemCalls) (i n offset size : ℕ) (g : Group)
    → offset + n ≤ size
    → size ≤ (g.plr).extra_shm_size
    → Succeed (calls i)
    → AllMapped g
    → CopiesTo calls i (from_shm n offset) size g
unfolding run_copy CopiesTo
run_from_shm calls i n offset size g inside grown ok all =
    let r =
      copy_from_shm-reads (calls i) n offset (area_of i g) (omega (arith, inside, grown)) ok
        (all i) in
    let same = ap (λ (p : PlrData). p.extra_shm_size) r.4 in
    (
      put_back i r.0 g,
      rw (r.1, run_copy) refl,
      r.3,
      put_back-AllMapped i r.0 g all r.2 (omega (arith, same)),
      omega (arith, same, grown),
    )

-- One copy, and the rest after it.
run_next :
    (calls : ℕ → SystemCalls) (i : ℕ) (c : Copy) (rest : List (ℕ × Copy)) (size : ℕ) (g : Group)
    → CopiesTo calls i c size g
    → ((h : Group)
        → AllMapped h
        → size ≤ (h.plr).extra_shm_size
        → (k : Group) × (run_copies calls rest h ≡ some ((run_on_array rest h.cells).0, k))
          × (k.cells ≡ (run_on_array rest h.cells).1)
          × AllMapped k)
    → (k : Group) × (run_copies calls ((i, c) ∷ rest) g
        ≡ some ((run_on_array ((i, c) ∷ rest) g.cells).0, k))
      × (k.cells ≡ (run_on_array ((i, c) ∷ rest) g.cells).1)
      × AllMapped k
unfolding run_copies CopiesTo
run_next calls i c rest size g s next =
    let r = next s.0 s.3 s.4 in
    (
      r.0,
      rw (s.1, r.1, run_copies)
          (ap (λ f. some ((on_array c g.cells).0 ∷ (run_on_array rest f).0, r.0)) s.2),
      r.2 ∙ ap (λ f. (run_on_array rest f).1) s.2,
      r.3,
    )

run_copies_from :
    (calls : ℕ → SystemCalls) (ops : List (ℕ × Copy)) (size : ℕ) (g : Group)
    → Fits ops size
    → ((i : ℕ) → Succeed (calls i))
    → AllMapped g
    → size ≤ (g.plr).extra_shm_size
    → (h : Group) × (run_copies calls ops g ≡ some ((run_on_array ops g.cells).0, h))
      × (h.cells ≡ (run_on_array ops g.cells).1)
      × AllMapped h
unfolding run_copies
run_copies_from calls [] size g fits ok all grown = (g, refl, refl, all)
run_copies_from calls ((i, to_shm src offset) ∷ rest) size g fits ok all grown =
    let n = if ltb size (offset + length src) then offset + length src else size in
    run_next calls i (to_shm src offset) rest n g
      (run_to_shm calls i src offset size g fits.0 grown (ok i) all)
      (λ h m k. run_copies_from calls rest n h fits.1 ok m k)
run_copies_from calls ((i, from_shm n offset) ∷ rest) size g fits ok all grown =
    run_next calls i (from_shm n offset) rest size g
      (run_from_shm calls i n offset size g fits.0 grown (ok i) all)
      (λ h m k. run_copies_from calls rest size h fits.1 ok m k)

-- Any sequence of copies to and from the extra area, by any processes in any order, comes to its end, with
-- no `memcpy` outside of what its process has mapped, returns what the same copies return on one plain
-- array, and leaves the same cells. It is assumed that the system calls succeed, that at the start
-- every process has mapped no more than there is, at a good pointer, that the copies to the area end at
-- places that fit an `int`, and that each copy from it stays within the size to which it has grown by
-- then, whoever has made it grow and mapped that; every process has mapped no more than there is at the
-- end again.
pub run_copies-run_on_array :
    (calls : ℕ → SystemCalls) (ops : List (ℕ × Copy)) (g : Group)
    → Fits ops (g.plr).extra_shm_size
    → ((i : ℕ) → Succeed (calls i))
    → AllMapped g
    → (h : Group) × (run_copies calls ops g ≡ some ((run_on_array ops g.cells).0, h))
      × (h.cells ≡ (run_on_array ops g.cells).1)
      × AllMapped h
run_copies-run_on_array calls ops g fits ok all =
    run_copies_from calls ops (g.plr).extra_shm_size g fits ok all (omega arith)
