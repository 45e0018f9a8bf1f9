-- ===== src/Preload/Process.antt =====
-- plrPreload/fork.c: a program that forks is ended, unless it is PLR that forks.
use plr.Prelude.{Bool, none, some, if◌then◌else◌}
use plr.Preload.Wrapper.{LibcCall, Act, check_inside_plr, just_call}

module _ {W : Type 0} where
  -- `fork` and `vfork`, each with its function of libc
  unfoldable pub fork_call : (internal : Bool) → LibcCall W → Act W
  unfolding check_inside_plr just_call
  fork_call internal libc_call c =
      if check_inside_plr internal c then some (just_call libc_call c) else none
