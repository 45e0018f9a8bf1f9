-- ===== src/Preload/Streams/Keeps.antt =====
-- What a function on streams leaves alone behind the call itself.
use plr.Prelude.{
  ℕ, ◌≡◌, refl, inl, inr, Bool-cases, Option, none, some, if◌then◌else◌, if-true, if-false, ℤ, pos,
  eq_ℤ, arith, ap, ◌∙◌, sym,
}
use plr.SharedData.ExtraShm.{SystemCalls}
use plr.Preload.Wrapper.{Local, Libc, Whence, seek_set, Caller, store_args, ◌>>=◌}
use plr.Preload.Streams.{
  eof, StreamDat, stream_dat, exit_state, stream_return, reset_eof, stream_follow,
}

pub bind-some :
    {A B : Type 0} (o : Option A) (k : A → Option B) (b : B)
    → (o >>= k) ≡ some b
    → (a : A) × (o ≡ some a) × (k a ≡ some b)
bind-some none k b e = absurd (ground arith)
bind-some (some a) k b e = (a, refl, e)

-- The functions that ask for the state of a stream or restore it leave alone what `part` shows of a
-- process.
pub record Keeps {W O : Type 0} (libc : Libc W) (stream : ℕ) (part : Local W → O) : Type 0 where
  pub fseek :
      (offs : ℤ) (whence : Whence) (l : Local W)
      → part (libc.libc_fseek stream offs whence l).1 ≡ part l
  pub fgetc : (l : Local W) → part (libc.libc_fgetc stream l).1 ≡ part l
  pub ftell : (l : Local W) → part (libc.libc_ftell stream l).1 ≡ part l
  pub feof : (l : Local W) → part (libc.libc_feof stream l).1 ≡ part l
  pub ferror : (l : Local W) → part (libc.libc_ferror stream l).1 ≡ part l
  pub errno : (err : ℤ) (l : Local W) → part (record l { errno = err }) ≡ part l

module _ {W O : Type 0} (libc : Libc W) (calls : SystemCalls) (stream : ℕ) (part : Local W → O)
    (keep : Keeps libc stream part) where
  reset_eof-Keeps :
      (at_eof : ℤ) (l m : Local W) → reset_eof libc calls stream at_eof l ≡ some m → part m ≡ part l
  unfolding reset_eof
  reset_eof-Keeps at_eof l m e = elim (Bool-cases (eq_ℤ at_eof (pos 0))) [
    | inl h ↦
        let q : some l ≡ some m = sym (if-true (some l) _ h) ∙ e in
        let same : l ≡ m = cc in ap part (sym same)
    | inr h ↦
        let got = libc.libc_fgetc stream l in
        let q : (if eq_ℤ got.0 eof then some got.1 else none) ≡ some m =
          sym (if-false (some l) _ h) ∙ e in
        elim (Bool-cases (eq_ℤ got.0 eof)) [
          | inl g ↦
              let q' : some got.1 ≡ some m = sym (if-true (some got.1) none g) ∙ q in
              let same : got.1 ≡ m = cc in ap part (sym same) ∙ keep.fgetc l
          | inr g ↦
              let q' : none ≡ some m = sym (if-false (some got.1) none g) ∙ q in
              absurd (ground arith)
        ]
  ]

  pub stream_dat-Keeps :
      (ret : ℤ) (l : Local W) → part (stream_dat libc calls stream ret l).1 ≡ part l
  unfolding stream_dat
  stream_dat-Keeps ret l =
      let l1 = libc.libc_ftell stream l in
      let l2 = libc.libc_feof stream l1.1 in keep.ferror l2.1 ∙ keep.feof l1.1 ∙ keep.ftell l

  exit_state-Keeps : (c : Caller W) → part (exit_state libc calls stream c).here ≡ part c.here
  unfolding exit_state store_args
  exit_state-Keeps c =
      let l1 = libc.libc_ftell stream c.here in
      let l2 = libc.libc_feof stream l1.1 in keep.ferror l2.1 ∙ keep.feof l1.1 ∙ keep.ftell c.here

  pub stream_return-Keeps :
      (d : StreamDat) (c t : Caller W) (r : ℤ)
      → stream_return libc calls stream d c ≡ some (r, t)
      → (r ≡ d.ret) × (part t.here ≡ part c.here)
  unfolding stream_return
  stream_return-Keeps d c t r e =
      let x = exit_state libc calls stream c in
      let value : d.ret ≡ r = cc in
      let state : record (x.here) { errno = d.err } ≡ t.here =
        ap (λ (o : Option (ℤ × Caller W)). elim o [ none ↦ c.here | some y ↦ y.1.here ]) e in
      (sym value, ap part (sym state) ∙ keep.errno d.err x.here ∙ exit_state-Keeps c)

  pub stream_follow-Keeps :
      (d : StreamDat) (c t : Caller W) (r : ℤ)
      → stream_follow libc calls stream d c ≡ some (r, t)
      → (r ≡ d.ret) × (part t.here ≡ part c.here)
  unfolding stream_follow
  stream_follow-Keeps d c t r e =
      let sought = libc.libc_fseek stream d.offs seek_set c.here in
      let (m, found, rest) = bind-some (reset_eof libc calls stream d.at_eof sought.1) _ (r, t) e in
      let b : Caller W = record c { here = m } in
      elim (Bool-cases (eq_ℤ d.ferr (pos 0))) [
        | inl h ↦
            let x = stream_return-Keeps d b t r (sym (if-true _ none h) ∙ rest) in
            (
              x.0,
              x.1 ∙ reset_eof-Keeps d.at_eof sought.1 m found ∙ keep.fseek d.offs seek_set c.here,
            )
        | inr h ↦
            let q : none ≡ some (r, t) =
              sym (if-false (stream_return libc calls stream d b) none h) ∙ rest in
            absurd (ground arith)
      ]
