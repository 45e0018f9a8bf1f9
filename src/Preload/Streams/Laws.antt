-- ===== src/Preload/Streams/Laws.antt =====
-- What the slaves get of the data that `fread` has read.
use plr.Prelude.{
  ℕ, ◌+◌, ◌≤◌, ◌≡◌, refl, inl, inr, Bool-cases, Option, none, some, List, [], ◌∷◌, length, if-true,
  if-false, ne→==, ℤ, pos, pos_part, ltb_ℤ, arith, ap, ◌∙◌, sym,
}
use plr.SharedData.ExtraShm.{
  accessible, SystemCalls, Area, refresh_extra_shm, copy_from_shm, read_cells, write_cells,
}
use plr.SharedData.ExtraShm.Laws.{length-read_cells}
use plr.Preload.Wrapper.{Local, Libc, Caller}
use plr.Preload.Streams.{stream_data_size, of_cells}
use plr.Preload.Streams.Blocks.{fread_data, fread_slave}
use plr.Preload.Streams.Keeps.{bind-some, Keeps, stream_follow-Keeps}

write_cells-beyond :
    (offset : ℕ) (src : List ℤ) (cells : ℕ → ℤ) (j : ℕ)
    → offset + length src ≤ j
    → write_cells offset src cells j ≡ cells j
unfolding write_cells
write_cells-beyond offset [] cells j h = refl
write_cells-beyond offset (x ∷ src) cells j h =
    if-false x _ (ne→== j offset (λ e. absurd (omega arith)))
    ∙ write_cells-beyond (offset + 1) src cells j (omega arith)

copy_from_shm-length :
    (calls : SystemCalls) (n offset : ℕ) (a : Area) (xs : List ℤ) (b : Area)
    → copy_from_shm calls n offset a ≡ some (xs, b)
    → length xs ≡ n
unfolding copy_from_shm
copy_from_shm-length calls n offset a xs b e =
    let r = refresh_extra_shm calls a in
    elim (Bool-cases (ltb_ℤ r.0 (pos 0))) [
      | inl h ↦ absurd (ground arith)
      | inr h ↦ elim (Bool-cases (accessible n offset r.1)) [
        | inl g ↦
            let q : some (read_cells n offset r.1.cells, r.1) ≡ some (xs, b) =
              sym (if-false none _ h ∙ if-true _ none g) ∙ e in
            let same : read_cells n offset r.1.cells ≡ xs =
              ap (λ (o : Option (List ℤ × Area)). elim o [ none ↦ xs | some x ↦ x.0 ]) q in
            rw (← same) (length-read_cells n offset r.1.cells)
        | inr g ↦
            let q : none ≡ some (xs, b) = sym (if-false none _ h ∙ if-false _ none g) ∙ e in
            absurd (ground arith)
      ]
    ]

module _ {W : Type 0} (libc : Libc W) (calls : SystemCalls) (stream : ℕ) where
  fread_data-buf :
      (ret : ℤ) (c d : Caller W) (j : ℕ)
      → fread_data libc calls ret c ≡ some d
      → pos_part ret ≤ j
      → d.here.buf j ≡ c.here.buf j
  unfolding fread_data
  fread_data-buf ret c d j e h = elim (Bool-cases (ltb_ℤ (pos 0) ret)) [
    | inl g ↦
        let n = pos_part ret in
        let ((content, a), got, made) =
          bind-some (copy_from_shm calls n stream_data_size c.area) _ d
            (sym (if-true _ (some c) g) ∙ e) in
        let size = copy_from_shm-length calls n stream_data_size c.area content a got in
        let same : write_cells 0 content c.here.buf ≡ d.here.buf =
          ap (λ (o : Option (Caller W)). elim o [ none ↦ c.here.buf | some x ↦ x.here.buf ]) made in
        ap (λ (f : ℕ → ℤ). f j) (sym same)
        ∙ write_cells-beyond 0 content c.here.buf j (omega (arith, size))
    | inr g ↦
        let q : some c ≡ some d = sym (if-false _ (some c) g) ∙ e in
        let same : c ≡ d = cc in ap (λ (k : Caller W). k.here.buf j) (sym same)
  ]

  -- A slave that comes back from `fread` has changed nothing in its buffer behind the first `r` bytes,
  -- where `r` is the number of elements that it returns, whatever their size is: of elements of more
  -- than one byte the rest of the data is missing. It is assumed that the other functions on streams
  -- leave the buffer alone.
  pub fread_slave-rest :
      (c t : Caller W) (r : ℤ) (j : ℕ)
      → Keeps libc stream (λ (l : Local W). l.buf)
      → fread_slave libc calls stream c ≡ some (r, t)
      → pos_part r ≤ j
      → t.here.buf j ≡ c.here.buf j
  unfolding fread_slave
  fread_slave-rest c t r j keep e h =
      let ((dat, a), got, rest) =
        bind-some (copy_from_shm calls stream_data_size 0 c.area) _ (r, t) e in
      let opened : Caller W = record c { area = a } in
      let d = of_cells dat in
      let (b, taken, last) = bind-some (fread_data libc calls d.ret opened) _ (r, t) rest in
      let x = stream_follow-Keeps libc calls stream (λ (l : Local W). l.buf) keep d b t r last in
      ap (λ (f : ℕ → ℤ). f j) x.1
      ∙ fread_data-buf d.ret opened b j taken (omega (arith, h, ap pos_part x.0))
