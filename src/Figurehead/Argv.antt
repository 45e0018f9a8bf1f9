-- ===== src/Figurehead/Argv.antt =====
-- The command that the first process executes.
use mathlib.Core.Path.{subst}
use mathlib.Core.List.{append_assoc, append-nil}
use plr.Prelude.{
  ℕ, zero, suc, ◌+◌, ◌<◌, ◌≡◌, ◌≢◌, ◌≤◌, ◌⊎◌, refl, inl, inr, Bool-cases, Option-cases, if-true,
  if-false, eq→==, ne→==, true, Option, none, some, List, [], ◌∷◌, ◌++◌, length, length-append,
  if◌then◌else◌, update, pos, ltb_ℤ, arith, ap, ◌∙◌, sym, ℕ_discrete,
}
use plr.Figurehead.{Text, PintoolMode, off, trace, ins, Config}
use plr.Figurehead.Command.{
  pin_argv, trace_flag, trace_mean_flag, ins_flag, ins_mean_flag, end_of_options, Filled, put,
  put_all, put_mean, put_mode, fill_argv, max_argc, read_argv, child_argv,
}

-- The text at a place, if there is one.
abbrev text_at : List Text → ℕ → Option Text
text_at [] j = none
text_at (t ∷ ts) zero = some t
text_at (t ∷ ts) (suc j) = text_at ts j

text_at-append : (ts us : List Text) (j : ℕ) → j < length ts → text_at (ts ++ us) j ≡ text_at ts j
text_at-append [] us j h = absurd (omega arith)
text_at-append (t ∷ ts) us zero h = refl
text_at-append (t ∷ ts) us (suc j) h = text_at-append ts us j (omega arith)

text_at-last : (ts : List Text) (u : Text) → text_at (ts ++ u ∷ []) (length ts) ≡ some u
text_at-last [] u = refl
text_at-last (t ∷ ts) u = text_at-last ts u

read_argv-texts :
    (left i : ℕ) (ts : List Text) (cells : ℕ → Option Text)
    → ((j : ℕ) → j < length ts → cells (i + j) ≡ text_at ts j)
    → cells (i + length ts) ≡ none
    → length ts < left
    → read_argv left i cells ≡ ts
unfolding read_argv
read_argv-texts zero i ts cells h e lt = absurd (omega arith)
read_argv-texts (suc left) i [] cells h e lt =
    let up : i ≡ i + 0 = omega arith in
    let here : cells i ≡ none = ap cells up ∙ e in rw (here, read_argv) refl
read_argv-texts (suc left) i (t ∷ ts) cells h e lt =
    let here : cells i ≡ some t =
      (let up : i ≡ i + 0 = omega arith in ap cells up ∙ h 0 (omega arith)) in
    let next : (j : ℕ) → j < length ts → cells (i + 1 + j) ≡ text_at ts j = λ j q.
      (let up : i + 1 + j ≡ i + suc j = omega arith in ap cells up ∙ h (suc j) (omega arith)) in
    let last : cells (i + 1 + length ts) ≡ none =
      (let up : i + 1 + length ts ≡ i + suc (length ts) = omega arith in ap cells up ∙ e) in
    let rest = read_argv-texts left (i + 1) ts cells next last (omega arith) in
    rw (here, read_argv) (ap (λ us. t ∷ us) rest)

-- The flags for the tool.
abbrev pub mean_args : Text → Config → List Text
mean_args flag c =
    if ltb_ℤ (pos 0) c.inject_event_mean
    then elim c.inject_event_mean_str [ none ↦ [] | some mean ↦ flag ∷ mean ∷ [] ]
    else []

abbrev pub mode_args : Config → List Text
mode_args c = elim c.pintool_mode [
  | off ↦ []
  | trace ↦ (trace_flag ∷ []) ++ mean_args trace_mean_flag c
  | ins ↦ (ins_flag ∷ []) ++ mean_args ins_mean_flag c
]

-- A mean has its text.
abbrev pub MeanSet : Config → Type 0
MeanSet c =
    ltb_ℤ (pos 0) c.inject_event_mean ≡ true → (mean : Text) × (c.inject_event_mean_str ≡ some mean)

PintoolMode-cases : (m : PintoolMode) → m ≢ off → (m ≡ trace) ⊎ (m ≡ ins)
PintoolMode-cases off h = absurd (h refl)
PintoolMode-cases trace h = inl refl
PintoolMode-cases ins h = inr refl

mean_args-length : (flag : Text) (c : Config) → length (mean_args flag c) ≤ 2
mean_args-length flag c = elim (Bool-cases (ltb_ℤ (pos 0) c.inject_event_mean)) [
  | inl e ↦ elim (Option-cases c.inject_event_mean_str) [
    | inl n ↦ rw (e, n) (omega arith)
    | inr n ↦ rw (e, n.1) (omega arith)
  ]
  | inr e ↦ rw e (omega arith)
]

mode_args-length : (c : Config) → c.pintool_mode ≢ off → length (mode_args c) ≤ 3
mode_args-length c on = elim (PintoolMode-cases c.pintool_mode on) [
  | inl e ↦ let le = mean_args-length trace_mean_flag c in rw e (omega (arith, le))
  | inr e ↦ let le = mean_args-length ins_mean_flag c in rw e (omega (arith, le))
]

module _ (memory : ℕ → Option Text) where
  -- The array has the texts in its first places, and the next text goes behind them, where all is as
  -- it was.
  abbrev Holds : List Text → Filled → Type 0
  Holds ts f =
      (f.i ≡ length ts)
      × ((j : ℕ) → j < length ts → f.cells j ≡ text_at ts j)
      × ((j : ℕ) → f.i ≤ j → f.cells j ≡ memory j)

  put-Holds :
      (ts : List Text) (u : Text) (f : Filled) → Holds ts f → Holds (ts ++ u ∷ []) (put (some u) f)
  unfolding put
  put-Holds ts u f h =
      let size = length-append ts (u ∷ []) in
      (
        omega (arith, h.0, size),
        λ j lt. elim (ℕ_discrete j f.i) [
          | yes e ↦
              if-true (some u) (f.cells j) (eq→== j f.i e)
              ∙ sym (ap (text_at (ts ++ u ∷ [])) (e ∙ h.0) ∙ text_at-last ts u)
          | no e ↦
              let before : j < length ts = omega (arith, h.0, size, lt) in
              if-false (some u) (f.cells j) (ne→== j f.i e)
              ∙ h.1 j before
              ∙ sym (text_at-append ts (u ∷ []) j before)
        ],
        λ j le.
            if-false (some u) (f.cells j) (ne→== j f.i (λ e. absurd (omega arith)))
            ∙ h.2 j (omega arith),
      )

  put_all-Holds : (us ts : List Text) (f : Filled) → Holds ts f → Holds (ts ++ us) (put_all us f)
  unfolding put_all
  put_all-Holds [] ts f h = subst (λ vs. Holds vs f) (sym (append-nil ts)) h
  put_all-Holds (u ∷ us) ts f h =
      subst (λ vs. Holds vs (put_all us (put (some u) f))) (append_assoc ts (u ∷ []) us)
        (put_all-Holds us (ts ++ u ∷ []) (put (some u) f) (put-Holds ts u f h))

  Holds-eq : {ts us : List Text} {f g : Filled} → ts ≡ us → f ≡ g → Holds ts f → Holds us g
  Holds-eq {us = us} {f = f} p q h = subst (λ k. Holds us k) q (subst (λ vs. Holds vs f) p h)

  put_mean-Holds :
      (flag : Text) (c : Config) (ts : List Text) (f : Filled)
      → MeanSet c
      → Holds ts f
      → Holds (ts ++ mean_args flag c) (put_mean flag c f)
  unfolding put_mean
  put_mean-Holds flag c ts f set h = elim (Bool-cases (ltb_ℤ (pos 0) c.inject_event_mean)) [
    | inl e ↦
        let (mean, known) = set e in
        let twice = put-Holds (ts ++ flag ∷ []) mean (put (some flag) f) (put-Holds ts flag f h) in
        Holds-eq
          (append_assoc ts (flag ∷ []) (mean ∷ [])
            ∙ ap (λ us. ts ++ us)
                (sym
                  (if-true _ _ e ∙ ap (λ o. elim o [ none ↦ [] | some m ↦ flag ∷ m ∷ [] ]) known)))
          (sym (if-true _ _ e ∙ ap (λ o. put o (put (some flag) f)) known)) twice
    | inr e ↦
        Holds-eq (sym (append-nil ts) ∙ ap (λ us. ts ++ us) (sym (if-false _ _ e)))
          (sym (if-false _ _ e)) h
  ]

  put_mode-Holds :
      (c : Config) (ts : List Text) (f : Filled)
      → MeanSet c
      → c.pintool_mode ≢ off
      → Holds ts f
      → Holds (ts ++ mode_args c) (put_mode c f)
  unfolding put_mode put_mean
  put_mode-Holds c ts f set on h =
      let under : (flag mean_flag : Text)
          → Holds (ts ++ (flag ∷ [] ++ mean_args mean_flag c))
              (put_mean mean_flag c (put (some flag) f)) =
        λ flag mean_flag. Holds-eq (append_assoc ts (flag ∷ []) (mean_args mean_flag c)) refl (
          put_mean-Holds mean_flag c (ts ++ flag ∷ []) (put (some flag) f) set
            (put-Holds ts flag f h)) in
      elim (PintoolMode-cases c.pintool_mode on) [
        | inl e ↦ rw (e, put_mode) (under trace_flag trace_mean_flag)
        | inr e ↦ rw (e, put_mode) (under ins_flag ins_mean_flag)
      ]

abbrev exec_argv : Config → List Text → Option (ℕ → Option Text) → PintoolMode → Option (List Text)
exec_argv c argv malloc mode = elim mode [
  | off ↦ some argv
  | other ↦ elim malloc [
    | none ↦ none
    | some memory ↦ some (read_argv (max_argc argv) 0 (fill_argv c argv memory).cells)
  ]
]

exec_argv-some :
    (c : Config) (argv : List Text) (memory : ℕ → Option Text) (mode : PintoolMode)
    → (args : List Text) × (exec_argv c argv (some memory) mode ≡ some args)
exec_argv-some c argv memory off = (argv, refl)
exec_argv-some c argv memory trace =
    (read_argv (max_argc argv) 0 (fill_argv c argv memory).cells, refl)
exec_argv-some c argv memory ins =
    (read_argv (max_argc argv) 0 (fill_argv c argv memory).cells, refl)

-- With memory there are arguments for `execvp`.
pub child_argv-some :
    (c : Config) (argv : List Text) (memory : ℕ → Option Text)
    → (args : List Text) × (child_argv c argv (some memory) ≡ some args)
unfolding child_argv
child_argv-some c argv memory = exec_argv-some c argv memory c.pintool_mode

child_argv-read :
    (c : Config) (argv : List Text) (memory : ℕ → Option Text)
    → c.pintool_mode ≢ off
    → (child_argv c argv (some memory)
        ≡ some (read_argv (max_argc argv) 0 (fill_argv c argv memory).cells))
      × (child_argv c argv none ≡ none)
unfolding child_argv
child_argv-read c argv memory on = elim (PintoolMode-cases c.pintool_mode on) [
  | inl e ↦ (ap (exec_argv c argv (some memory)) e, ap (exec_argv c argv none) e)
  | inr e ↦ (ap (exec_argv c argv (some memory)) e, ap (exec_argv c argv none) e)
]

-- With the fault injection tool, where a mean has its text: `execvp` gets the call of the tool with the
-- flags of its mode and `--`, and behind that the command with all of its arguments; without memory
-- there is no call of `execvp`. No place of `cArgv` outside of its `maxArgc` places is written.
pub child_argv-mode :
    (c : Config) (argv : List Text) (memory : ℕ → Option Text)
    → c.pintool_mode ≢ off
    → MeanSet c
    → (child_argv c argv (some memory)
        ≡ some (pin_argv ++ mode_args c ++ end_of_options ∷ [] ++ argv))
      × (child_argv c argv none ≡ none)
      × ((fill_argv c argv memory).i < max_argc argv)
      × ((j : ℕ) → max_argc argv ≤ j → (fill_argv c argv memory).cells j ≡ memory j)
unfolding child_argv fill_argv
child_argv-mode c argv memory on set =
    let start : Filled = record { cells = memory; i = 0 } in
    let pin =
      put_all-Holds memory pin_argv [] start (refl, λ j lt. absurd (omega arith), λ j le. refl) in
    let mode = put_mode-Holds memory c pin_argv (put_all pin_argv start) set on pin in
    let before = pin_argv ++ mode_args c in
    let flags = put_mode c (put_all pin_argv start) in
    let marked = put-Holds memory before end_of_options flags mode in
    let f = put_all argv (put (some end_of_options) flags) in
    let full =
      put_all-Holds memory argv (before ++ end_of_options ∷ []) (put (some end_of_options) flags)
        marked in
    let whole = before ++ end_of_options ∷ [] ++ argv in
    let size = length-append (before ++ end_of_options ∷ []) argv in
    let size1 = length-append before (end_of_options ∷ []) in
    let size2 = length-append pin_argv (mode_args c) in
    let flag_count = mode_args-length c on in
    let bound : f.i < max_argc argv = omega (arith, full.0, size, size1, size2, flag_count) in
    let inner : (j : ℕ) → j < length whole → update f.cells f.i none (0 + j) ≡ text_at whole j =
      λ j lt.
        (let same : 0 + j ≡ j = omega arith in
          if-false none (f.cells (0 + j))
            (ne→== (0 + j) f.i (λ e. absurd (omega (arith, e, full.0, lt))))
          ∙ ap f.cells same
          ∙ full.1 j lt) in
    let end : update f.cells f.i none (0 + length whole) ≡ none =
      if-true none (f.cells (0 + length whole))
        (eq→== (0 + length whole) f.i (omega (arith, full.0))) in
    let seen =
      read_argv-texts (max_argc argv) 0 whole (update f.cells f.i none) inner end
        (omega (arith, bound, full.0)) in
    (
      (child_argv-read c argv memory on).0 ∙ ap some seen,
      (child_argv-read c argv memory on).1,
      bound,
      λ j le.
          if-false none (f.cells j) (ne→== j f.i (λ e. absurd (omega (arith, e, bound, le))))
          ∙ full.2 j (omega (arith, bound, le)),
    )
