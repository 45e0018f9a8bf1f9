-- ===== src/SharedData/ExtraShm/Laws.antt =====
-- Copies stay inside the mapping, and what one process writes the others read.
use plr.Prelude.{
  ℕ, zero, suc, ◌+◌, ◌-◌, ◌*◌, ◌/◌, ◌%◌, ◌≤◌, ◌<◌, ◌≡◌, refl, ◌≢◌, inl, inr, Bool-cases, eq→==,
  ne→==, ==_iff, if-true, if-false, Bool, true, none, some, ltb_ℤ, List, [], ◌∷◌, length, ◌==◌, ltb,
  update, ℤ, pos, negsuc, eq_ℤ, arith, ap, ◌∙◌, sym,
}
use mathlib.Core.Bool.{false≢true}
use native.Mathlib.Nat.{mod-lt, mod-add-div', suc-mul, mul-mod_left}
use plr.SharedData.{PerProcData, PlrData}
use plr.SharedData.ExtraShm.{
  extra_shm_offset, SystemCalls, Area, open_extra, map_extra, resize_extra_shm, refresh_extra_shm,
  write_cells, read_cells, copy_to_shm, copy_from_shm, int_of_size, accessible,
}

read_cells_ext :
    (n offset : ℕ) (f g : ℕ → ℤ)
    → ((j : ℕ) → offset ≤ j → j < offset + n → f j ≡ g j)
    → read_cells n offset f ≡ read_cells n offset g
unfolding read_cells
read_cells_ext zero offset f g h = refl
read_cells_ext (suc n) offset f g h =
    let first = h offset (omega arith) (omega arith) in
    let rest = read_cells_ext n (offset + 1) f g (λ j p q. h j (omega arith) (omega arith)) in
    rw (first, rest) refl

-- A write changes the cells of its range only.
pub write_cells-outside :
    (offset : ℕ) (src : List ℤ) (cells : ℕ → ℤ) (j : ℕ)
    → j < offset
    → write_cells offset src cells j ≡ cells j
unfolding write_cells
write_cells-outside offset [] cells j h = refl
write_cells-outside offset (x ∷ src) cells j h =
    ground (arith, write_cells-outside (offset + 1) src cells j (omega arith))

here_eq : (i : ℕ) (x : ℤ) (f : ℕ → ℤ) → update f i x i ≡ x
here_eq i x f = if-true x (f i) (eq→== i i refl)

elsewhere : (i : ℕ) (x : ℤ) (f : ℕ → ℤ) (j : ℕ) → j ≢ i → update f i x j ≡ f j
elsewhere i x f j h = if-false x (f j) (ne→== j i h)

pub read_cells-write_cells :
    (offset : ℕ) (src : List ℤ) (cells : ℕ → ℤ)
    → read_cells (length src) offset (write_cells offset src cells) ≡ src
unfolding read_cells write_cells
read_cells-write_cells offset [] cells = refl
read_cells-write_cells offset (x ∷ src) cells =
    let here = here_eq offset x (write_cells (offset + 1) src cells) in
    let rest =
      read_cells_ext (length src) (offset + 1) (write_cells offset (x ∷ src) cells)
        (write_cells (offset + 1) src cells)
        (λ j p q. elsewhere offset x (write_cells (offset + 1) src cells) j (omega arith))
      ∙ read_cells-write_cells (offset + 1) src cells in
    rw (here, rest) refl

-- A header at the start stays when a body is written behind it.
pub read_header :
    (header body : List ℤ) (cells : ℕ → ℤ)
    → read_cells (length header) 0 (write_cells (length header) body (write_cells 0 header cells))
      ≡ header
read_header header body cells =
    read_cells_ext (length header) 0 (write_cells (length header) body (write_cells 0 header cells))
      (write_cells 0 header cells)
      (λ j p q.
        write_cells-outside (length header) body (write_cells 0 header cells) j (omega arith))
    ∙ read_cells-write_cells 0 header cells

pub length-read_cells : (n offset : ℕ) (cells : ℕ → ℤ) → length (read_cells n offset cells) ≡ n
unfolding read_cells
length-read_cells zero offset cells = refl
length-read_cells (suc n) offset cells = ap suc (length-read_cells n (offset + 1) cells)

-- What is copied to another place reads the same there.
pub read_copied :
    (n offset offset' : ℕ) (f g : ℕ → ℤ)
    → read_cells n offset (write_cells offset (read_cells n offset' f) g) ≡ read_cells n offset' f
read_copied n offset offset' f g =
    ap (λ k. read_cells k offset (write_cells offset (read_cells n offset' f) g))
      (sym (length-read_cells n offset' f))
    ∙ read_cells-write_cells offset (read_cells n offset' f) g

-- `plrSD_extraShmOffset` gives a whole number of pages, at or behind the end of the fixed data and less
-- than a page behind it.
extra_shm_offset-bounds :
    (page_size fixed_data_size : ℕ)
    → 0 < page_size
    → (extra_shm_offset page_size fixed_data_size % page_size ≡ 0)
      × (fixed_data_size ≤ extra_shm_offset page_size fixed_data_size)
      × (extra_shm_offset page_size fixed_data_size < fixed_data_size + page_size)
unfolding extra_shm_offset
extra_shm_offset-bounds page fixed h = elim (Bool-cases (fixed % page == 0)) [
  | inl e ↦ rw (e, extra_shm_offset) ((==_iff _ _).0 e, omega arith, omega arith)
  | inr e ↦
      let up : (fixed + page) - fixed % page ≡ suc (fixed / page) * page =
        omega (arith, mod-add-div' fixed page, mod-lt fixed h, suc-mul (fixed / page) page) in
      let bound = mod-lt fixed h in
      let off : fixed % page ≢ 0 = λ z. false≢true (sym e ∙ eq→== _ _ z) in
      rw (e, extra_shm_offset)
        (rw up (mul-mod_left (suc (fixed / page)) page), omega arith, ground arith)
]

-- The pointer is good whenever the process has mapped anything, and it has mapped no more than there is.
abbrev pub Mapped : Area → Type 0
Mapped a =
    ((a.proc).extra_shm_mapped ≤ (a.plr).extra_shm_size)
    × (0 < (a.proc).extra_shm_mapped → a.extra_shm_valid ≡ true)

-- The system calls succeed.
abbrev pub Succeed : SystemCalls → Type 0
Succeed calls = (calls.truncated ≡ true) × (calls.mapped ≡ true) × (calls.unmapped ≡ true)

open_extra_same :
    (calls : SystemCalls) (a : Area)
    → ((open_extra calls a).plr ≡ a.plr)
      × ((open_extra calls a).proc.extra_shm_mapped ≡ (a.proc).extra_shm_mapped)
      × ((open_extra calls a).extra_shm_valid ≡ a.extra_shm_valid)
      × ((open_extra calls a).cells ≡ a.cells)
unfolding open_extra
open_extra_same calls a = elim (Bool-cases (eq_ℤ (a.proc).shm_fd (negsuc 0))) [
  | inl e ↦ rw (e, open_extra) (refl, refl, refl, refl)
  | inr e ↦ rw (e, open_extra) (refl, refl, refl, refl)
]

open_extra-Mapped : (calls : SystemCalls) (a : Area) → Mapped a → Mapped (open_extra calls a)
open_extra-Mapped calls a m =
    let same = open_extra_same calls a in
    let size = ap (λ (p : PlrData). p.extra_shm_size) same.0 in
    (omega (arith, same.1, size, m.0), λ h. same.2 ∙ m.1 (omega (arith, same.1)))

-- All of the area is mapped in `b`, which has the same shared record and cells as `a`.
abbrev Refreshed : Area → Area → Type 0
Refreshed a b =
    (b.plr ≡ a.plr)
    × (b.cells ≡ a.cells)
    × Mapped b
    × ((b.proc).extra_shm_mapped ≡ (b.plr).extra_shm_size)

map_extra-Refreshed :
    (calls : SystemCalls) (a : Area)
    → Succeed calls
    → (b : Area) × (map_extra calls a ≡ (pos 0, b)) × Refreshed a b
unfolding map_extra
map_extra-Refreshed calls a ok =
    let after = record (a.proc) { extra_shm_mapped = (a.plr).extra_shm_size } in
    elim (Bool-cases ((a.proc).extra_shm_mapped == 0)) [
      | inl e ↦ (
        record a { extra_shm_valid = true; proc = after },
        rw (e, ok.1, map_extra) refl,
        (refl, refl, (omega arith, λ _. refl), refl),
      )
      | inr e ↦ (
        record a { extra_shm_valid = calls.mapped; proc = after },
        rw (e, ok.2, map_extra) refl,
        (refl, refl, (omega arith, λ _. ok.1), refl),
      )
    ]

refresh_extra_shm-Refreshed :
    (calls : SystemCalls) (a : Area)
    → Succeed calls
    → Mapped a
    → (b : Area) × (refresh_extra_shm calls a ≡ (pos 0, b)) × Refreshed a b
unfolding refresh_extra_shm
refresh_extra_shm-Refreshed calls a ok m =
    let b = open_extra calls a in
    let same = open_extra_same calls a in
    let good = open_extra-Mapped calls a m in
    elim (Bool-cases (ltb (b.proc).extra_shm_mapped (b.plr).extra_shm_size)) [
      | inl e ↦
          let r = map_extra-Refreshed calls b ok in
          (r.0, if-true _ _ e ∙ r.1, (r.2.0 ∙ same.0, r.2.1 ∙ same.3, r.2.2, r.2.3))
      | inr e ↦ (b, if-false _ _ e, (same.0, same.3, good, ground arith))
    ]

pub int_of_size_lem : (n : ℕ) → n < 2147483648 → int_of_size n ≡ pos n
int_of_size_lem n h =
    let low : n % 4294967296 ≡ n = omega (arith, h) in
    let fits : ltb (n % 4294967296) 2147483648 ≡ true = ground (arith, low, h) in
    if-true _ _ fits ∙ ap pos low

accessible-true :
    (n offset : ℕ) (a : Area)
    → Mapped a
    → offset + n ≤ (a.proc).extra_shm_mapped
    → accessible n offset a ≡ true
accessible-true n offset a m h = elim (Bool-cases (n == 0)) [
  | inl e ↦ rw e refl
  | inr e ↦
      let some_mapped : 0 < (a.proc).extra_shm_mapped = ground (arith, e, h) in
      rw (e, m.1 some_mapped) (ground (arith, h))
]

resize_extra_shm-Mapped :
    (calls : SystemCalls) (min_size : ℕ) (a : Area)
    → min_size < 2147483648
    → Succeed calls
    → Mapped a
    → (b : Area) × (resize_extra_shm calls min_size a ≡ (pos 0, b))
      × Mapped b
      × (min_size ≤ (b.plr).extra_shm_size)
      × ((a.plr).extra_shm_size ≤ (b.plr).extra_shm_size)
      × (b.cells ≡ a.cells)
unfolding resize_extra_shm
resize_extra_shm-Mapped calls min_size a small ok m =
    let min = int_of_size_lem min_size small in
    let b = open_extra calls a in
    let same = open_extra_same calls a in
    let good = open_extra-Mapped calls a m in
    let size = ap (λ (p : PlrData). p.extra_shm_size) same.0 in
    elim (Bool-cases (ltb_ℤ (pos (b.plr).extra_shm_size) (pos min_size))) [
      | inl e ↦ (
        record b { plr = record (b.plr) { extra_shm_size = min_size } },
        rw (min, e, ok.0, resize_extra_shm) refl,
        (ground arith, good.1),
        omega arith,
        ground arith,
        same.3,
      )
      | inr e ↦ (b, rw (min, e, resize_extra_shm) refl, good, ground arith, omega arith, same.3)
    ]

-- The size that is asked for is an `int`.
pub copy_to_shm-writes :
    (calls : SystemCalls) (src : List ℤ) (offset : ℕ) (a : Area)
    → offset + length src < 2147483648
    → Succeed calls
    → Mapped a
    → (b : Area) × (copy_to_shm calls src offset a ≡ some b)
      × (b.cells ≡ write_cells offset src a.cells)
      × Mapped b
      × ((a.plr).extra_shm_size ≤ (b.plr).extra_shm_size)
      × (offset + length src ≤ (b.proc).extra_shm_mapped)
      × ((b.proc).extra_shm_mapped ≡ (b.plr).extra_shm_size)
unfolding copy_to_shm
copy_to_shm-writes calls src offset a small ok m =
    let r = resize_extra_shm-Mapped calls (offset + length src) a small ok m in
    let f = refresh_extra_shm-Refreshed calls r.0 ok r.2 in
    let size = ap (λ (p : PlrData). p.extra_shm_size) f.2.0 in
    (
      record (f.0) { cells = write_cells offset src f.0.cells },
      rw (r.1, f.1, copy_to_shm)
          (if-true _ none
            (accessible-true (length src) offset f.0 f.2.2 (omega (arith, r.3, size, f.2.3)))),
      ap (write_cells offset src) (f.2.1 ∙ r.5),
      f.2.2,
      omega (arith, r.4, size),
      omega (arith, r.3, size, f.2.3),
      f.2.3,
    )

pub copy_from_shm-reads :
    (calls : SystemCalls) (n offset : ℕ) (a : Area)
    → offset + n ≤ (a.plr).extra_shm_size
    → Succeed calls
    → Mapped a
    → (b : Area) × (copy_from_shm calls n offset a ≡ some (read_cells n offset a.cells, b))
      × Mapped b
      × (b.cells ≡ a.cells)
      × (b.plr ≡ a.plr)
unfolding copy_from_shm
copy_from_shm-reads calls n offset a inside ok m =
    let f = refresh_extra_shm-Refreshed calls a ok m in
    let size = ap (λ (p : PlrData). p.extra_shm_size) f.2.0 in
    (
      f.0,
      rw (f.1, copy_from_shm)
          (if-true _ none (accessible-true n offset f.0 f.2.2 (omega (arith, inside, size, f.2.3)))
            ∙ ap (λ h. some (read_cells n offset h, f.0)) f.2.1),
      f.2.2,
      f.2.1,
      f.2.0,
    )

-- If the system calls succeed and the end of the range fits an `int`, `plr_copyToShm` comes back; the range that it has written lies inside
-- the part of the area that the process has mapped, the mapping is good, and the whole area is mapped.
pub copy_to_shm-inside :
    (calls : SystemCalls) (src : List ℤ) (offset : ℕ) (a : Area)
    → offset + length src < 2147483648
    → Succeed calls
    → Mapped a
    → (b : Area) × (copy_to_shm calls src offset a ≡ some b)
      × (offset + length src ≤ (b.proc).extra_shm_mapped)
      × Mapped b
      × ((b.proc).extra_shm_mapped ≡ (b.plr).extra_shm_size)
copy_to_shm-inside calls src offset a small ok m =
    let w = copy_to_shm-writes calls src offset a small ok m in (w.0, w.1, w.5, w.3, w.6)

-- What one process copies into the area every other process reads back there, in the same order, if
-- the system calls succeed in both: the reader, with its own record and pointer, first maps what is
-- new.
copy_from_shm-copy_to_shm :
    (calls calls' : SystemCalls) (src : List ℤ) (offset : ℕ) (a : Area) (proc : PerProcData)
    (valid : Bool)
    → offset + length src < 2147483648
    → Succeed calls
    → Succeed calls'
    → Mapped a
    → Mapped (record a { proc = proc; extra_shm_valid = valid })
    → (b c : Area) × (copy_to_shm calls src offset a ≡ some b)
      × (copy_from_shm calls'
            (length src)
            offset
            (record b { proc = proc; extra_shm_valid = valid })
          ≡ some (src, c))
copy_from_shm-copy_to_shm calls calls' src offset a proc valid small ok ok' m m' =
    let w = copy_to_shm-writes calls src offset a small ok m in
    let reader = record (w.0) { proc = proc; extra_shm_valid = valid } in
    let r =
      copy_from_shm-reads calls' (length src) offset reader (omega (arith, w.5, w.6)) ok'
        (omega (arith, m'.0, w.4), m'.1) in
    let back =
      ap (read_cells (length src) offset) w.2 ∙ read_cells-write_cells offset src a.cells in
    (w.0, r.0, w.1, r.1 ∙ ap (λ xs. some (xs, r.0)) back)
