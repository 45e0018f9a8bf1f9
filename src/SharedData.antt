-- ===== src/SharedData.antt =====
-- plrCommon/plrSharedData.h and plrCommon/plrSharedData.c: the records in shared memory, and their
-- initialisation. The condition variables and the mutexes are library objects: who waits where is
-- kept with the processes (Core/State). The fields for the fault injection tool are left out.
pub mod ExtraShm
pub mod Names
pub mod Mapping
use plr.Prelude.{ℕ, Bool, false, ◌==◌, if◌then◌else◌, ℤ, pos, negsuc}
use plr.Compare.{SyscallArgs, zero_args}

-- `perProcData_t`
pub record PerProcData : Type 0 where
  pub pid : ℕ
  pub shm_fd : ℤ
  pub wait_idx : ℤ
  pub syscall_args : SyscallArgs
  pub extra_shm_mapped : ℕ
  pub inside_plr : Bool

-- `plrData_t`; of `condWaitCnt` only the places 0 and 1 are used.
pub record PlrData : Type 0 where
  pub figurehead_pid : ℕ
  pub n_proc : ℕ
  pub watchdog_timeout : ℤ
  pub cur_wait_idx : ℕ
  pub cond_wait_cnt : ℕ → ℕ
  pub restoring : Bool
  pub extra_shm_size : ℕ
  pub inside_plr_init_true : ℕ
  pub did_process_init : Bool

-- All bytes zero, as after `ftruncate` of a new file or after `memset`.
abbrev pub zero_proc : PerProcData
zero_proc = record {
  pid = 0;
  shm_fd = pos 0;
  wait_idx = pos 0;
  syscall_args = zero_args;
  extra_shm_mapped = 0;
  inside_plr = false;
}

-- `plrSD_initSharedData`, when its system calls succeed: the record over a zeroed area.
unfoldable pub init_shared_data : ℕ → PlrData
init_shared_data n_proc = record {
  figurehead_pid = 0;
  n_proc = n_proc;
  watchdog_timeout = pos 0;
  cur_wait_idx = 0;
  cond_wait_cnt = λ _. 0;
  restoring = false;
  extra_shm_size = 0;
  inside_plr_init_true = 0;
  did_process_init = false;
}

-- `plrSD_initProcData` in the process that `getpid` names `self`.
unfoldable pub init_proc_data : ℕ → PerProcData → PerProcData
init_proc_data self proc = record proc { pid = self; wait_idx = negsuc 0; shm_fd = negsuc 0 }

-- `plrSD_initProcDataAsCopy`
unfoldable pub init_proc_data_as_copy : ℕ → PerProcData → PerProcData → PerProcData
unfolding init_proc_data
init_proc_data_as_copy self proc src =
    let proc1 = record proc { inside_plr = src.inside_plr } in
    let proc2 = init_proc_data self proc1 in
    record proc2 { shm_fd = src.shm_fd; syscall_args = src.syscall_args }

-- `plrSD_freeProcData`; it always returns 0.
unfoldable pub free_proc_data : PerProcData → PerProcData
free_proc_data proc = if proc.pid == 0 then proc else zero_proc
