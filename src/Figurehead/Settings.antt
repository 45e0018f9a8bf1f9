-- ===== src/Figurehead/Settings.antt =====
-- What the options come to.
use mathlib.Core.Path.{subst}
use plr.Prelude.{
  ℕ, ◌≡◌, ◌≢◌, refl, inl, inr, Bool, Bool-cases, true, false, Option, Option-cases, none, some,
  List, [], ◌∷◌, ◌++◌, ◌<◌, ◌≤◌, ◌||◌, ℤ, ◌==◌, ==_iff, if◌then◌else◌, ltb_ℤ, pos, arith, ap, ◌∙◌,
  sym,
}
use plr.Figurehead.{Text, off, Config}
use plr.Figurehead.Options.{
  Strtol, default_config, Parsed, config, returns, to_int, with_long, parse_long, parse_mode,
  set_option, parse_options,
}
use plr.Figurehead.Command.{pin_argv, end_of_options, fill_argv, max_argc, child_argv}
use plr.Figurehead.Argv.{MeanSet, mode_args, child_argv-mode}

-- The value of an option, if it is there and can be read, and the old one otherwise.
abbrev pub keep : {A : Type 0} → Bool → Option A → A → A
keep false read old = old
keep true none old = old
keep true (some value) old = value

abbrev pub with_int : Option ℤ → Option ℤ
with_int none = none
with_int (some val) = some (to_int val)

module _ (strtol : Text → Strtol) where
  -- The value of a setting after all options: only the option `key` sets it, the last one in the end.
  pub last : {A : Type 0} → ℕ → (Text → Option A) → List (ℕ × Text) → A → A
  last key read [] old = old
  last key read (x ∷ rest) old = last key read rest (keep (x.0 == key) (read x.1) old)

  -- The configuration after all options, each setting for itself.
  abbrev pub settings : List (ℕ × Text) → Config → Config
  settings options c = record {
    pintool_mode = last b'p' (parse_mode strtol) options c.pintool_mode;
    num_redun_proc = last b'n' (λ a. with_int (parse_long strtol a)) options c.num_redun_proc;
    inject_event_mean = last b'm' (parse_long strtol) options c.inject_event_mean;
    inject_event_mean_str = last b'm' (λ a. some (some a)) options c.inject_event_mean_str;
    watchdog_timeout = last b't' (parse_long strtol) options c.watchdog_timeout;
    output_file = last b'o' (λ a. some (some a)) options c.output_file;
    error_file = last b'e' (λ a. some (some a)) options c.error_file;
  }

  -- The value that `main` returns at an option: 0 for help, and 1 for an option that it does not know or
  -- an argument that it cannot read.
  abbrev readable : {A : Type 0} → Option A → Option ℕ
  readable none = some 1
  readable (some value) = none

  abbrev pub stops : ℕ × Text → Option ℕ
  stops x =
      if x.0 == b'h'
      then some 0
      else if x.0 == b'p'
      then readable (parse_mode strtol x.1)
      else if (x.0 == b'm') || ((x.0 == b'n') || (x.0 == b't'))
      then readable (parse_long strtol x.1)
      else if (x.0 == b'o') || (x.0 == b'e')
      then none
      else some 1

  pub first_stop : List (ℕ × Text) → Option ℕ
  first_stop [] = none
  first_stop (x ∷ rest) = elim (stops x) [ some status ↦ some status | none ↦ first_stop rest ]

  abbrev outcome : Option ℕ → Config → Parsed
  outcome none c = config c
  outcome (some status) c = returns status

  SetsOne : ℕ → Type 0
  SetsOne opt =
      (optarg : Text) (c : Config)
      → set_option strtol opt optarg c
        ≡ outcome (stops (opt, optarg)) (settings ((opt, optarg) ∷ []) c)

  mean_option : SetsOne b'm'
  unfolding SetsOne set_option last
  mean_option optarg c =
      elim (parse_long strtol optarg)
        as (λ o.
          with_long o
            (λ val. record c { inject_event_mean_str = some optarg; inject_event_mean = val })
          ≡ outcome (readable o) (record c {
            inject_event_mean_str = some optarg;
            inject_event_mean = keep true o c.inject_event_mean;
          })) [ none ↦ refl | some val ↦ refl ]

  process_option : SetsOne b'n'
  unfolding SetsOne set_option last
  process_option optarg c =
      elim (parse_long strtol optarg)
        as (λ o.
          with_long o (λ val. record c { num_redun_proc = to_int val })
          ≡ outcome (readable o)
              (record c { num_redun_proc = keep true (with_int o) c.num_redun_proc })) [
                | none ↦ refl
                | some val ↦ refl
              ]

  timeout_option : SetsOne b't'
  unfolding SetsOne set_option last
  timeout_option optarg c =
      elim (parse_long strtol optarg)
        as (λ o.
          with_long o (λ val. record c { watchdog_timeout = val })
          ≡ outcome (readable o) (record c { watchdog_timeout = keep true o c.watchdog_timeout })) [
            | none ↦ refl
            | some val ↦ refl
          ]

  mode_option : SetsOne b'p'
  unfolding SetsOne set_option last
  mode_option optarg c = elim (Option-cases (parse_mode strtol optarg)) [
    | inl q ↦ rw q refl
    | inr q ↦ rw q.1 refl
  ]

  one_setting : (opt : ℕ) → SetsOne opt
  unfolding SetsOne set_option last
  one_setting opt optarg c = elim (Bool-cases (opt == b'h')) [
    | inl e ↦ let same = (==_iff opt b'h').0 e in rw same refl
    | inr h ↦ elim (Bool-cases (opt == b'p')) [
      | inl e ↦ let same = (==_iff opt b'p').0 e in subst SetsOne (sym same) mode_option optarg c
      | inr p ↦ elim (Bool-cases (opt == b'm')) [
        | inl e ↦ let same = (==_iff opt b'm').0 e in subst SetsOne (sym same) mean_option optarg c
        | inr m ↦ elim (Bool-cases (opt == b'n')) [
          | inl e ↦
              let same = (==_iff opt b'n').0 e in subst SetsOne (sym same) process_option optarg c
          | inr n ↦ elim (Bool-cases (opt == b't')) [
            | inl e ↦
                let same = (==_iff opt b't').0 e in subst SetsOne (sym same) timeout_option optarg c
            | inr t ↦ elim (Bool-cases (opt == b'o')) [
              | inl e ↦ let same = (==_iff opt b'o').0 e in rw same refl
              | inr o ↦ elim (Bool-cases (opt == b'e')) [
                | inl e ↦ let same = (==_iff opt b'e').0 e in rw same refl
                | inr x ↦ rw (h, p, m, n, t, o, x, set_option) refl
              ]
            ]
          ]
        ]
      ]
    ]
  ]

  -- The loop over the options: if no option stops it, every setting has the value of its own option, as
  -- it stands last in the command line, or its old one; and if not, `main` returns what the first
  -- option that stops it says, 0 for `-h`, and 1 for an unknown option, a mode that is none, or a number
  -- that cannot be read.
  pub parse_options-settings :
      (options : List (ℕ × Text)) (c : Config)
      → parse_options strtol options c ≡ (elim (first_stop options) [
        | none ↦ config (settings options c)
        | some status ↦ returns status
      ])
  unfolding parse_options first_stop last SetsOne
  parse_options-settings [] c = refl
  parse_options-settings (x ∷ rest) c = elim (Option-cases (stops x)) [
    | inl e ↦
        let one = one_setting x.0 x.1 c ∙ ap (λ o. outcome o (settings (x ∷ []) c)) e in
        rw (one, e, parse_options) (parse_options-settings rest (settings (x ∷ []) c))
    | inr e ↦
        let one = one_setting x.0 x.1 c ∙ ap (λ o. outcome o (settings (x ∷ []) c)) e.1 in
        rw (one, e.1, parse_options) refl
  ]

  abbrev after : List (ℕ × Text) → Config → Option ℕ → Parsed
  after options c o = elim o [ none ↦ config (settings options c) | some status ↦ returns status ]

  abbrev config_of : Parsed → Config
  config_of (config c) = c
  config_of (returns status) = default_config

  one-MeanSet : (x : ℕ × Text) (c : Config) → MeanSet c → MeanSet (settings (x ∷ []) c)
  unfolding last
  one-MeanSet x c h = elim (Bool-cases (x.0 == b'm')) [
    | inl e ↦ λ _. (x.1, ap (λ b. keep b (some (some x.1)) c.inject_event_mean_str) e)
    | inr e ↦ λ positive.
        let same = ap (λ b. ltb_ℤ (pos 0) (keep b (parse_long strtol x.1) c.inject_event_mean)) e in
        let (mean, known) = h (sym same ∙ positive) in
        (mean, ap (λ b. keep b (some (some x.1)) c.inject_event_mean_str) e ∙ known)
  ]

  settings-MeanSet :
      (options : List (ℕ × Text)) (c : Config) → MeanSet c → MeanSet (settings options c)
  unfolding last
  settings-MeanSet [] c h = h
  settings-MeanSet (x ∷ rest) c h = settings-MeanSet rest (settings (x ∷ []) c) (one-MeanSet x c h)

  parsed-MeanSet :
      (options : List (ℕ × Text)) (c d : Config)
      → MeanSet c
      → parse_options strtol options c ≡ config d
      → MeanSet d
  parsed-MeanSet options c d h e = elim (Option-cases (first_stop options)) [
    | inl q ↦
        let all = sym (parse_options-settings options c ∙ ap (after options c) q) ∙ e in
        let same : settings options c ≡ d = ap config_of all in
        subst MeanSet same (settings-MeanSet options c h)
    | inr q ↦
        let all : returns q.0 ≡ config d =
          sym (parse_options-settings options c ∙ ap (after options c) q.1) ∙ e in
        absurd (ground arith)
  ]

  abbrev status_of : Parsed → ℕ
  status_of (config c) = 1
  status_of (returns status) = status

  told :
      (options : List (ℕ × Text)) (c : Config) (o : Option ℕ)
      → first_stop options ≡ o
      → after options c o ≡ parse_options strtol options c
  told options c o e = sym (parse_options-settings options c ∙ ap (after options c) e)

  -- `main` returns 0 from its options only for the help.
  pub parse_options-returns_zero :
      (options : List (ℕ × Text)) (c : Config)
      → parse_options strtol options c ≡ returns 0
      → first_stop options ≡ some 0
  parse_options-returns_zero options c h = elim (Option-cases (first_stop options)) [
    | inl e ↦
        let one : ◌≡◌ {A = ℕ} 1 0 = ap status_of (told options c none e ∙ h) in absurd (omega arith)
    | inr e ↦ e.1 ∙ ap some (ap status_of (told options c (some e.0) e.1 ∙ h))
  ]

  -- Where the options ask for the fault injection tool and `main` accepts them, and `malloc` succeeds,
  -- whatever the memory held before: `execvp` gets the call of
  -- the tool with the flags of its mode and with `--`, and behind that the command with all of its
  -- arguments, up to the `NULL` at their end; and no place of `cArgv` outside of its `maxArgc` places is
  -- written. Where `malloc` returns `NULL`, `execvp` is not called, since the child is ended before.
  pub parse_options-child_argv :
      (options : List (ℕ × Text)) (argv : List Text) (memory : ℕ → Option Text) (c : Config)
      → parse_options strtol options default_config ≡ config c
      → c.pintool_mode ≢ off
      → (child_argv c argv (some memory)
          ≡ some (pin_argv ++ mode_args c ++ end_of_options ∷ [] ++ argv))
        × (child_argv c argv none ≡ none)
        × ((fill_argv c argv memory).i < max_argc argv)
        × ((j : ℕ) → max_argc argv ≤ j → (fill_argv c argv memory).cells j ≡ memory j)
  parse_options-child_argv options argv memory c e on =
      child_argv-mode c argv memory on
        (parsed-MeanSet options default_config c (λ h. absurd (ground arith)) e)
