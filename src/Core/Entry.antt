-- ===== src/Core/Entry.antt =====
-- plrCommon/plr.c: `plr_refreshSharedData`, `plr_figureheadInit`, `plr_checkSyscallArgs` and
-- `plr_masterAction`.
use plr.Prelude.{ℕ, zero, suc, ◌+◌, Option, none, some, ◌==◌, if◌then◌else◌, ℤ}
use plr.Compare.{SyscallArgs}
use plr.SharedData.{PerProcData, PlrData, init_shared_data}
use plr.Core.State.{any, master, check_syscall_args, run, Reply, M, modify_proc}
use plr.Core.Wait.{wait_barrier}

-- The first place from `i` on, among `left`, with the given pid.
unfoldable pub find_pid : (left i my_pid : ℕ) → (ℕ → PerProcData) → Option ℕ
find_pid zero i my_pid all_proc = none
find_pid (suc left) i my_pid all_proc =
    let rest = find_pid left (i + 1) my_pid all_proc in
    if (all_proc i).pid == my_pid then some i else rest

-- `plr_refreshSharedData` once the area is mapped: `myProcShm` as the index of a place, none for `NULL`;
-- none as the result for `exit(1)`.
unfoldable pub refresh_shared_data : ℕ → ℕ → (ℕ → PerProcData) → Option ℕ → Option ℕ
unfolding find_pid
refresh_shared_data n_proc my_pid all_proc none = find_pid n_proc 0 my_pid all_proc
refresh_shared_data n_proc my_pid all_proc (some i) =
    if (all_proc i).pid == my_pid
    then some i
    else elim (find_pid n_proc 0 my_pid all_proc) [ some j ↦ some j | none ↦ some i ]

-- `plr_figureheadInit`, when its system calls succeed
unfoldable pub figurehead_init : (n_proc pintool_mode pid : ℕ) → ℤ → PlrData
unfolding init_shared_data
figurehead_init n_proc pintool_mode pid watchdog_timeout_ms = record (init_shared_data n_proc) {
  figurehead_pid = pid;
  inside_plr_init_true = pintool_mode;
  watchdog_timeout = watchdog_timeout_ms;
}

module _ (fork : ℕ → Option ℕ) where
  -- `plr_checkSyscallArgs` of process `me`, up to its first wait
  unfoldable pub check_args : ℕ → SyscallArgs → M (Unit {0})
  unfolding wait_barrier
  check_args me args s =
      wait_barrier fork me (record { action = check_syscall_args; action_type = any })
        (modify_proc me (λ p. record p { syscall_args = args }) s)

  -- `plr_masterAction` of process `me`, up to its first wait
  unfoldable pub master_action : ℕ → (PlrData → PerProcData → Reply) → M (Unit {0})
  unfolding wait_barrier
  master_action me act = wait_barrier fork me (record { action = run act; action_type = master })
