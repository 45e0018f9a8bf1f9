-- ===== src/Figurehead/Command.antt =====
-- plrMain.c: `startFirstProcess`. The arguments of the command come without the `NULL` at their end.
use plr.Prelude.{
  ℕ, zero, suc, ◌+◌, Bool, Option, none, some, List, [], ◌∷◌, length, if◌then◌else◌, update, ℤ, pos,
  negsuc, ltb_ℤ,
}
use plr.Figurehead.{Text, off, trace, ins, Config, goes_on, returns, Part, ◌>>◌}

-- `"pin64"`, `"-t"`, `"lib/pinFaultInject.so"`
abbrev pub pin_argv : List Text
pin_argv =
    (b'p' ∷ b'i' ∷ b'n' ∷ b'6' ∷ b'4' ∷ [])
    ∷ (b'-' ∷ b't' ∷ [])
    ∷ (b'l' ∷ b'i' ∷ b'b' ∷ b'/' ∷ b'p' ∷ b'i' ∷ b'n' ∷ b'F' ∷ b'a' ∷ b'u' ∷ b'l' ∷ b't' ∷ b'I'
        ∷ b'n' ∷ b'j' ∷ b'e' ∷ b'c' ∷ b't' ∷ b'.' ∷ b's' ∷ b'o' ∷ [])
    ∷ []

abbrev pub trace_flag : Text
trace_flag = b'-' ∷ b't' ∷ b'r' ∷ b'a' ∷ b'c' ∷ b'e' ∷ []

abbrev pub trace_mean_flag : Text
trace_mean_flag = b'-' ∷ b't' ∷ b'r' ∷ b'a' ∷ b'c' ∷ b'e' ∷ b'M' ∷ b'e' ∷ b'a' ∷ b'n' ∷ []

abbrev pub ins_flag : Text
ins_flag = b'-' ∷ b'i' ∷ b'n' ∷ b's' ∷ []

abbrev pub ins_mean_flag : Text
ins_mean_flag = b'-' ∷ b'i' ∷ b'n' ∷ b's' ∷ b'M' ∷ b'e' ∷ b'a' ∷ b'n' ∷ []

abbrev pub end_of_options : Text
end_of_options = b'-' ∷ b'-' ∷ []

-- `"./lib/libplrPreload.so"`
abbrev pub preload_library : Text
preload_library =
    b'.' ∷ b'/' ∷ b'l' ∷ b'i' ∷ b'b' ∷ b'/' ∷ b'l' ∷ b'i' ∷ b'b' ∷ b'p' ∷ b'l' ∷ b'r' ∷ b'P' ∷ b'r'
    ∷ b'e' ∷ b'l' ∷ b'o' ∷ b'a' ∷ b'd' ∷ b'.' ∷ b's' ∷ b'o' ∷ []

-- The array `cArgv`, none for `NULL`, and the index `i`.
pub record Filled : Type 0 where
  pub cells : ℕ → Option Text
  pub i : ℕ

-- `cArgv[i] = text; ++i;`
unfoldable pub put : Option Text → Filled → Filled
put text f = record { cells = update f.cells f.i text; i = f.i + 1 }

-- The loops that copy an array into `cArgv`.
unfoldable pub put_all : List Text → Filled → Filled
unfolding put
put_all [] f = f
put_all (text ∷ rest) f = put_all rest (put (some text) f)

-- The flags of a mode, with the mean if there is one.
unfoldable pub put_mean : Text → Config → Filled → Filled
unfolding put
put_mean flag c f =
    if ltb_ℤ (pos 0) c.inject_event_mean then put c.inject_event_mean_str (put (some flag) f) else f

unfoldable pub put_mode : Config → Filled → Filled
unfolding put put_mean
put_mode c f = elim c.pintool_mode [
  | trace ↦ put_mean trace_mean_flag c (put (some trace_flag) f)
  | ins ↦ put_mean ins_mean_flag c (put (some ins_flag) f)
  | off ↦ put_mean ins_mean_flag c (put (some ins_flag) f)
]

-- `cArgv` with the tool in front of the command, up to the `NULL` at its end.
unfoldable pub fill_argv : Config → List Text → (ℕ → Option Text) → Filled
unfolding put put_all put_mode
fill_argv c argv memory =
    let start : Filled = record { cells = memory; i = 0 } in
    let f = put_all argv (put (some end_of_options) (put_mode c (put_all pin_argv start))) in
    record f { cells = update f.cells f.i none }

-- `maxArgc`
abbrev pub max_argc : List Text → ℕ
max_argc argv = length pin_argv + 4 + length argv + 1

-- What `execvp` sees of an array: the texts up to the first `NULL`.
unfoldable pub read_argv : (left i : ℕ) → (ℕ → Option Text) → List Text
read_argv zero i cells = []
read_argv (suc left) i cells = elim (cells i) [
  | none ↦ []
  | some text ↦ text ∷ read_argv left (i + 1) cells
]

-- The arguments of `execvp`; `malloc` is what `malloc` returns: none for `NULL`, or the array with what its
-- places held before. There is no value where the child is ended because it writes through `NULL`.
unfoldable pub child_argv : Config → List Text → Option (ℕ → Option Text) → Option (List Text)
unfolding fill_argv read_argv
child_argv c argv malloc = elim c.pintool_mode [
  | off ↦ some argv
  | other ↦ elim malloc [
    | none ↦ none
    | some memory ↦ some (read_argv (max_argc argv) 0 (fill_argv c argv memory).cells)
  ]
]

-- The system calls of `startFirstProcess`. `execvp`, with the value of `LD_PRELOAD`, gives no value if
-- it succeeds, and `errno` if not; `malloc` is what the places of the array hold that it returns, since
-- it is assumed to succeed; `write_fails` and `read_fails` are about the pipe.
pub record ExecCalls (W : Type 0) : Type 0 where
  pub pipe : W → ℤ × W
  pub fcntl : W → ℤ × W
  pub fork : W → ℤ × W
  pub malloc : ℕ → Option Text
  pub execvp : (ld_preload : Text) → List Text → Option ℤ
  pub write_fails : Bool
  pub read_fails : Bool

module _ {W : Type 0} (os : ExecCalls W) where
  -- What the child leaves in the pipe when its ends are closed, by `execvp` or by `exit`; `setenv` does not
  -- replace a value.
  unfoldable pub exec_child : Config → List Text → (env : Option Text) → List ℤ
  unfolding child_argv
  exec_child c argv env =
      let ld_preload : Text = elim env [ none ↦ preload_library | some value ↦ value ] in
      elim (child_argv c argv (some os.malloc)) [
        | none ↦ []
        | some args ↦ elim (os.execvp ld_preload args) [
          | none ↦ []
          | some err ↦ if os.write_fails then [] else err ∷ []
        ]
      ]

  -- `read` of an `int` from the pipe, when its other end is closed
  unfoldable pub rd_size : List ℤ → ℤ
  rd_size content =
      if os.read_fails then negsuc 0 else elim content [ [] ↦ pos 0 | err ∷ rest ↦ pos 4 ]

  -- A call of the system that fails with a negative value.
  unfoldable pub or_exit : (W → ℤ × W) → Part W (Unit {0})
  or_exit call w = let (r, v) = call w in if ltb_ℤ r (pos 0) then returns 1 v else goes_on tt v

  -- `startFirstProcess`, in the figurehead
  unfoldable pub start_first_process : Config → List Text → (env : Option Text) → Part W ℤ
  unfolding exec_child rd_size or_exit
  start_first_process c argv env = do
    or_exit os.pipe
    or_exit os.fcntl
    λ w.
        let (child, v) = os.fork w in
        let size = rd_size (exec_child c argv env) in
        if ltb_ℤ child (pos 0)
        then goes_on (negsuc 0) v
        else if ltb_ℤ size (pos 0)
        then returns 1 v
        else if ltb_ℤ (pos 0) size
        then goes_on (negsuc 0) v
        else goes_on (pos 0) v
