-- ===== src/Preload/Streams/Agree.antt =====
-- The master and the slaves come out of a function on streams alike, and their streams too.
use plr.Prelude.{
  ℕ, ◌≡◌, ◌≢◌, refl, inl, inr, Bool-cases, Option, none, some, if-true, if-false, ℤ, pos, eq_ℤ,
  ◌≤ℤ◌, arith, ap, ◌∙◌, sym,
}
use plr.Compare.{SyscallArgs, zero_args}
use plr.SharedData.ExtraShm.{SystemCalls}
use plr.Preload.Wrapper.{Local, Libc, seek_set, Caller, ◌>>=◌, unsigned_long, store_args}
use plr.Preload.Streams.{
  eof, StreamDat, stream_dat, exit_state, stream_return, reset_eof, stream_follow,
}

-- What there is to see of a stream.
pub record StreamView : Type 0 where
  pub offset : ℤ
  pub at_eof : ℤ
  pub error : ℤ

-- `ftell`, `feof` and `ferror` tell what `view` says and change nothing of it, and `fseek` to an offset
-- goes there and clears the indicator of the end of the file.
pub record StreamLaws {W : Type 0} (libc : Libc W) (stream : ℕ) (view : W → StreamView)
    : Type 0 where
  pub ftell_value : (l : Local W) → (libc.libc_ftell stream l).0 ≡ (view l.world).offset
  pub ftell_keeps : (l : Local W) → view (libc.libc_ftell stream l).1.world ≡ view l.world
  pub feof_value : (l : Local W) → (libc.libc_feof stream l).0 ≡ (view l.world).at_eof
  pub feof_keeps : (l : Local W) → view (libc.libc_feof stream l).1.world ≡ view l.world
  pub ferror_value : (l : Local W) → (libc.libc_ferror stream l).0 ≡ (view l.world).error
  pub ferror_keeps : (l : Local W) → view (libc.libc_ferror stream l).1.world ≡ view l.world
  pub seek :
      (offs : ℤ) (l : Local W)
      → pos 0 ≤ℤ offs
      → view (libc.libc_fseek stream offs seek_set l).1.world
        ≡ record { offset = offs; at_eof = pos 0; error = (view l.world).error }

-- `exitState`, as a function of the view.
abbrev args_of : ℤ → ℤ → ℤ → SyscallArgs
args_of offs at_eof ferr = record zero_args {
  arg0 = unsigned_long offs;
  arg1 = unsigned_long at_eof;
  arg2 = unsigned_long ferr;
}

abbrev pub exit_args : StreamView → SyscallArgs
exit_args v = args_of v.offset v.at_eof v.error

args_of_eq : {a a' b b' c c' : ℤ} → a ≡ a' → b ≡ b' → c ≡ c' → args_of a b c ≡ args_of a' b' c'
args_of_eq p q r = λ i. args_of (p i) (q i) (r i)

pub view_eq :
    {a a' b b' c c' : ℤ}
    → a ≡ a'
    → b ≡ b'
    → c ≡ c'
    → ◌≡◌ {A = StreamView}
        (record { offset = a; at_eof = b; error = c })
        (record { offset = a'; at_eof = b'; error = c' })
view_eq p q r = λ i. record { offset = p i; at_eof = q i; error = r i }

-- The view that a structure tells.
abbrev pub seen_in : StreamDat → StreamView
seen_in d = record { offset = d.offs; at_eof = d.at_eof; error = d.ferr }

module _ {W : Type 0} (libc : Libc W) (stream : ℕ) (view : W → StreamView)
    (laws : StreamLaws libc stream view) where
  -- At the offset of the master, where it has met the end of the file, `fgetc` meets it too.
  abbrev pub Ends : StreamView → Type 0
  Ends v =
      (l : Local W)
      → v.at_eof ≢ pos 0
      → view l.world ≡ record v { at_eof = pos 0 }
      → ((libc.libc_fgetc stream l).0 ≡ eof) × (view (libc.libc_fgetc stream l).1.world ≡ v)

  pub told-view :
      (l : Local W)
      → let l1 = libc.libc_ftell stream l in
        let l2 = libc.libc_feof stream l1.1 in
        let l3 = libc.libc_ferror stream l2.1 in
        (l1.0 ≡ (view l.world).offset)
        × (l2.0 ≡ (view l.world).at_eof)
        × (l3.0 ≡ (view l.world).error)
        × (view l3.1.world ≡ view l.world)
  told-view l =
      let l1 = libc.libc_ftell stream l in
      let l2 = libc.libc_feof stream l1.1 in
      let l3 = libc.libc_ferror stream l2.1 in
      let k1 = laws.ftell_keeps l in
      let k2 = laws.feof_keeps l1.1 ∙ k1 in
      (
        laws.ftell_value l,
        laws.feof_value l1.1 ∙ ap (λ (v : StreamView). v.at_eof) k1,
        laws.ferror_value l2.1 ∙ ap (λ (v : StreamView). v.error) k2,
        laws.ferror_keeps l2.1 ∙ k2,
      )

  pub stream_dat-view :
      (calls : SystemCalls) (ret : ℤ) (l : Local W)
      → (seen_in (stream_dat libc calls stream ret l).0 ≡ view l.world)
        × (view (stream_dat libc calls stream ret l).1.world ≡ view l.world)
  unfolding stream_dat
  stream_dat-view calls ret l = let told = told-view l in (view_eq told.0 told.1 told.2, told.3)

  pub exit_state-args :
      (calls : SystemCalls) (c : Caller W)
      → ((exit_state libc calls stream c).area.proc.syscall_args ≡ exit_args (view c.here.world))
        × (view (exit_state libc calls stream c).here.world ≡ view c.here.world)
  unfolding exit_state store_args
  exit_state-args calls c = let told = told-view c.here in (args_of_eq told.0 told.1 told.2, told.3)

  -- How a process comes out: with the master's value, `errno` and stream.
  pub record Leaves (d : StreamDat) (done : Option (ℤ × Caller W)) (t : Caller W) : Type 0 where
    pub value : done ≡ some (d.ret, t)
    pub number : t.here.errno ≡ d.err
    pub sees : view t.here.world ≡ seen_in d
    pub compared : t.area.proc.syscall_args ≡ exit_args (seen_in d)

  pub stream_return-Leaves :
      (calls : SystemCalls) (d : StreamDat) (c : Caller W)
      → view c.here.world ≡ seen_in d
      → (t : Caller W) × Leaves d (stream_return libc calls stream d c) t
        × (t.area.cells ≡ c.area.cells)
        × (t.area.plr ≡ c.area.plr)
  unfolding stream_return exit_state store_args
  stream_return-Leaves calls d c h =
      let e = exit_state libc calls stream c in
      let x = exit_state-args calls c in
      (
        record e { here = record (e.here) { errno = d.err } },
        record { value = refl; number = refl; sees = x.1 ∙ h; compared = x.0 ∙ ap exit_args h },
        refl,
        refl,
      )

  reset_eof-view :
      (calls : SystemCalls) (d : StreamDat) (l : Local W)
      → Ends (seen_in d)
      → view l.world ≡ record (seen_in d) { at_eof = pos 0 }
      → (m : Local W) × (reset_eof libc calls stream d.at_eof l ≡ some m)
        × (view m.world ≡ seen_in d)
  unfolding reset_eof
  reset_eof-view calls d l ends h = elim (Bool-cases (eq_ℤ d.at_eof (pos 0))) [
    | inl e ↦ (l, if-true _ _ e, h ∙ view_eq refl (ground arith) refl)
    | inr e ↦
        let x = ends l (ground arith) h in
        ((libc.libc_fgetc stream l).1, if-false _ _ e ∙ if-true _ _ (ap (λ k. eq_ℤ k eof) x.0), x.1)
  ]

  pub stream_follow-Leaves :
      (calls : SystemCalls) (d : StreamDat) (c : Caller W)
      → d.ferr ≡ pos 0
      → pos 0 ≤ℤ d.offs
      → (view c.here.world).error ≡ pos 0
      → Ends (seen_in d)
      → (t : Caller W) × Leaves d (stream_follow libc calls stream d c) t
        × (t.area.cells ≡ c.area.cells)
        × (t.area.plr ≡ c.area.plr)
  unfolding stream_follow
  stream_follow-Leaves calls d c clear start own ends =
      let l = (libc.libc_fseek stream d.offs seek_set c.here).1 in
      let sought = laws.seek d.offs c.here start ∙ view_eq refl refl (own ∙ sym clear) in
      let (m, again, seen) = reset_eof-view calls d l ends sought in
      let (t, out, cells, shared) = stream_return-Leaves calls d (record c { here = m }) seen in
      (
        t,
        record {
          value =
              rw (again, stream_follow, ◌>>=◌)
                (if-true _ none (ap (λ k. eq_ℤ k (pos 0)) clear) ∙ out.value);
          number = out.number;
          sees = out.sees;
          compared = out.compared;
        },
        cells,
        shared,
      )
