-- ===== src/Figurehead/Options.antt =====
-- plrMain.c: the loop over the options. What `getopt` finds comes as a list of the character and the
-- argument of each option.
use plr.Prelude.{
  ℕ, ◌+◌, ◌-◌, ◌%◌, ◌^◌, Bool, true, false, not, ◌&&◌, ◌||◌, Option, none, some, List, [], ◌∷◌,
  length, ◌==◌, if◌then◌else◌, ℤ, pos, negsuc, sub_ℕ, eq_ℤ,
}
use plr.Preload.Wrapper.{unsigned_long}
use plr.Figurehead.{Text, PintoolMode, off, trace, ins, Config}

-- The values at the start of `main`
abbrev pub default_config : Config
default_config = record {
  pintool_mode = off;
  num_redun_proc = pos 3;
  inject_event_mean = pos 0;
  inject_event_mean_str = none;
  watchdog_timeout = pos 200;
  output_file = none;
  error_file = none;
}

-- What the options come to: a configuration, or the value that `main` returns.
pub data Parsed : Type 0 where
  config : Config → Parsed
  returns : ℕ → Parsed

-- `strcmp(a, b) == 0`
unfoldable pub same_text : Text → Text → Bool
same_text [] [] = true
same_text [] (y ∷ ys) = false
same_text (x ∷ xs) [] = false
same_text (x ∷ xs) (y ∷ ys) = (x == y) && same_text xs ys

-- What `strtol` leaves: its value, `endptr - optarg`, and whether `errno` is `ERANGE` after it.
pub record Strtol : Type 0 where
  pub val : ℤ
  pub consumed : ℕ
  pub erange : Bool

abbrev pub long_max : ℤ
long_max = pos (2 ^ 63 - 1)

abbrev pub long_min : ℤ
long_min = negsuc (2 ^ 63 - 1)

-- The conversion of `long` to `int`, as the compilers for Linux make it.
abbrev pub to_int : ℤ → ℤ
to_int v = sub_ℕ ((unsigned_long v + 2 ^ 31) % 2 ^ 32) (2 ^ 31)

-- An option with a number, if that has been read.
abbrev pub with_long : Option ℤ → (ℤ → Config) → Parsed
with_long none f = returns 1
with_long (some val) f = config (f val)

module _ (strtol : Text → Strtol) where
  -- The number in `optarg`; none if it is not an integer value.
  unfoldable pub parse_long : Text → Option ℤ
  parse_long optarg =
      let r = strtol optarg in
      if (r.consumed == 0)
        || (not (r.consumed == length optarg)
            || ((eq_ℤ r.val long_min || eq_ℤ r.val long_max) && r.erange))
      then none
      else some r.val

  -- The argument of `-p`
  unfoldable pub parse_mode : Text → Option PintoolMode
  unfolding same_text
  parse_mode optarg =
      if same_text optarg (b't' ∷ []) || same_text optarg (b't' ∷ b'r' ∷ b'a' ∷ b'c' ∷ b'e' ∷ [])
      then some trace
      else (if same_text optarg (b'i' ∷ []) || same_text optarg (b'i' ∷ b'n' ∷ b's' ∷ [])
          then some ins
          else none)

  -- The switch in the loop
  unfoldable pub set_option : ℕ → Text → Config → Parsed
  set_option opt optarg c =
      if opt == b'h'
      then returns 0
      else if opt == b'p'
      then (elim (parse_mode optarg) [
        | none ↦ returns 1
        | some mode ↦ config (record c { pintool_mode = mode })
      ])
      else if opt == b'm'
      then with_long (parse_long optarg)
          (λ val. record c { inject_event_mean_str = some optarg; inject_event_mean = val })
      else if opt == b'n'
      then with_long (parse_long optarg) (λ val. record c { num_redun_proc = to_int val })
      else if opt == b't'
      then with_long (parse_long optarg) (λ val. record c { watchdog_timeout = val })
      else if opt == b'o'
      then config (record c { output_file = some optarg })
      else if opt == b'e'
      then config (record c { error_file = some optarg })
      else returns 1

  -- The loop
  unfoldable pub parse_options : List (ℕ × Text) → Config → Parsed
  unfolding set_option
  parse_options [] c = config c
  parse_options (x ∷ rest) c = elim (set_option x.0 x.1 c) [
    | config d ↦ parse_options rest d
    | returns n ↦ returns n
  ]
