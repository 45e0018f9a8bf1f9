-- ===== src/Examples/Launch.antt =====
-- Instances of the theorems on the figurehead and the start of the processes.
use mathlib.Core.List.{Permᴰ}
use plr.Prelude.{
  ℕ, ◌+◌, ◌≡◌, refl, false, none, some, List, [], ◌∷◌, ◌++◌, pos, arith, zero, suc, ◌*◌, ◌-◌, ◌<◌,
  ◌≤◌, length,
}
use plr.SharedData.{zero_proc}
use plr.Core.Entry.{figurehead_init}
use plr.Core.Places.{places, Good}
use plr.Core.Init.{Shared, Child, Start, run_children, process_init}
use plr.Core.Init.Children.{pid_of, all_started}
use plr.Core.Init.Starts.{running, process_init-starts, process_init-Good}
use plr.Figurehead.{Text, trace, Config, returns}
use plr.Figurehead.Options.{
  config, returns, Strtol, default_config, parse_mode, parse_long, parse_options,
}
use plr.Figurehead.Command.{
  pin_argv, trace_flag, trace_mean_flag, end_of_options, fill_argv, child_argv, ExecCalls,
}
use plr.Figurehead.Main.{child, no_child, MainCalls}
use plr.Figurehead.Settings.{first_stop, settings, parse_options-settings, parse_options-child_argv}
use plr.Examples.Scenario.{fork_from_100, limit_from_100, fresh_from_100}

-- The pids 100, 101, ... as the kernel gives them.
abbrev from_100 : ℕ → ℕ
from_100 k = 100 + k

-- What the figurehead makes for three processes without the tool.
abbrev new_memory : Shared
new_memory = record { plr = figurehead_init 3 0 9 (pos 200); all_proc = λ _. zero_proc }

process_init-starts_example :
    (t : Start) × (process_init fork_from_100 10 none new_memory ≡ some t)
    × (t.my_proc ≡ some 0)
    × (t.internal ≡ false)
    × (t.forks + 1 ≡ 3)
    × ((order : List Child)
        → Permᴰ t.children order
        → run_children order t.mem ≡ some (all_started 3 0 9 (pos 200) 10 from_100))
process_init-starts_example =
    process_init-starts 3 0 9 (pos 200) 10 from_100 fork_from_100 (λ k. refl) (omega arith)
      (omega arith)

process_init-Good_example :
    (t : Start) × (process_init fork_from_100 10 none new_memory ≡ some t)
    × ((order : List Child)
        → Permᴰ t.children order
        → (m : Shared) × (run_children order t.mem ≡ some m)
          × Good limit_from_100 (places (running m (pid_of 10 from_100) t.forks)))
process_init-Good_example =
    process_init-Good 3 0 9 (pos 200) 10 from_100 fork_from_100 (λ k. refl) limit_from_100
      fresh_from_100 (omega arith) (omega arith) (omega arith)

abbrev value_of : Text → ℕ → ℕ
value_of [] value = value
value_of (x ∷ xs) value = value_of xs (10 * value + (x - 48))

-- `strtol` on a text of digits
abbrev decimal : Text → Strtol
decimal a = record { val = pos (value_of a 0); consumed = length a; erange = false }

-- `-p t -m 50`
abbrev tool_options : List (ℕ × Text)
tool_options = (b'p', b't' ∷ []) ∷ (b'm', b'5' ∷ b'0' ∷ []) ∷ []

abbrev tool_config : Config
tool_config = record default_config {
  pintool_mode = trace;
  inject_event_mean = pos 50;
  inject_event_mean_str = some (b'5' ∷ b'0' ∷ []);
}

-- The command `ls -l`
abbrev command : List Text
command = (b'l' ∷ b's' ∷ []) ∷ (b'-' ∷ b'l' ∷ []) ∷ []

-- The world is the number of children that have not ended.
abbrev main_calls : MainCalls ℕ
main_calls = record {
  ld_preload = none;
  open_output = λ file w. (pos 3, w);
  dup2 = λ fd fd' w. (pos fd', w);
  close = λ fd w. w;
  figurehead_init = λ n mode timeout w. (pos 0, w);
  at_exit = λ w. w;
  wait = λ w. elim w [ zero ↦ (no_child, 0) | suc n ↦ (child, n) ];
}

abbrev exec_calls : ExecCalls ℕ
exec_calls = record {
  pipe = λ w. (pos 0, w);
  fcntl = λ w. (pos 0, w);
  fork = λ w. (pos 10, w + 3);
  malloc = λ _. none;
  execvp = λ ld_preload argv. none;
  write_fails = false;
  read_fails = false;
}

fewer : (w : ℕ) → (main_calls.wait w).0 ≡ child → (main_calls.wait w).1 < w
fewer zero e = absurd (ground arith)
fewer (suc n) e = omega arith

parse_options-settings_example :
    parse_options decimal tool_options default_config ≡ (elim (first_stop decimal tool_options) [
      | none ↦ config (settings decimal tool_options default_config)
      | some status ↦ returns status
    ])
parse_options-settings_example = parse_options-settings decimal tool_options default_config

parse_options-child_argv_example :
    (child_argv tool_config command (some (λ _. none))
      ≡ some (
          pin_argv
          ++ (trace_flag ∷ trace_mean_flag ∷ (b'5' ∷ b'0' ∷ []) ∷ [])
          ++ end_of_options ∷ []
          ++ command))
    × (child_argv tool_config command none ≡ none)
    × ((fill_argv tool_config command (λ _. none)).i < 10)
    × ((j : ℕ) → 10 ≤ j → (fill_argv tool_config command (λ _. none)).cells j ≡ none)
unfolding parse_options parse_mode parse_long
parse_options-child_argv_example =
    parse_options-child_argv decimal tool_options command (λ _. none) tool_config refl
      (λ e. absurd (ground arith))
