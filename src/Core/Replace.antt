-- ===== src/Core/Replace.antt =====
-- plrCommon/plr.c: `plr_forkNewProcess` and `plr_replaceProcessIdx`, with `kill` as far as they use
-- it.
use plr.Prelude.{ℕ, ◌+◌, true, Option, none, some, ◌==◌, if◌then◌else◌, ◌||◌, update}
use plr.Prelude.{ℤ, pos}
use plr.SharedData.{PerProcData, free_proc_data}
use plr.Core.State.{Phase, gone, System, M, done, ended, modify_proc}
use plr.Core.State.{exit_locked}

-- `kill(pid, SIGKILL)` as POSIX has it: a positive pid names one process, and 0 every process of
-- the caller's group, which all processes of PLR belong to.
unfoldable pub kill : ℕ → System → System
kill pid s = record s {
  process = λ i.
      if (pid == 0) || ((s.process i).self == pid)
      then record { self = (s.process i).self; phase = gone }
      else s.process i;
}

-- What `fork` returns at each call: the pid of the child, or none if it fails.
module _ (fork : ℕ → Option ℕ) where
  -- `plr_forkNewProcess(&allProcShm[idx])`. The child is a new process of place `idx`; `born` says
  -- where it stands, given its copy of the record of its parent.
  unfoldable pub fork_new_process : ℕ → (PerProcData → Phase) → ℕ → M ℤ
  unfolding exit_locked
  fork_new_process me born idx s = elim (fork s.forks) [
    | none ↦ exit_locked me s
    | some pid ↦ done (pos 0) (record s {
      process = update s.process idx (record { self = pid; phase = born (s.all_proc me) });
      forks = s.forks + 1;
    })
  ]

  -- `plr_replaceProcessIdx(idx)`; a caller that has killed itself goes no further.
  unfoldable pub replace_process_idx : ℕ → (PerProcData → Phase) → ℕ → M ℤ
  unfolding exit_locked kill fork_new_process free_proc_data
  replace_process_idx me born idx s =
      if me == idx
      then exit_locked me s
      else (let pid = (s.all_proc idx).pid in
          let t = kill pid s in
          if (pid == 0) || ((s.process me).self == pid)
          then ended (record t { lock_lost = true })
          else fork_new_process me born idx (modify_proc idx free_proc_data t))
