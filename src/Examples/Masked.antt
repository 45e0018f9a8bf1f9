-- ===== src/Examples/Masked.antt =====
-- A call of `write` by three processes, of which process 0, the master, has a wrong byte.
use plr.Prelude.{
  ◌+◌, true, ℕ, ◌≡◌, ◌==◌, refl, some, List, [], ◌∷◌, map, false, if-false, ne→==, ap, Both, ℤ, pos,
  pos_part, arith, if◌then◌else◌, update,
}
use mathlib.Core.List.{map-append}
use plr.SharedData.ExtraShm.{read_cells}
use plr.Core.State.{System, done, outside, waiting}
use plr.Core.Wait.{resume, wait_loop, rounds}
use plr.Core.Recovery.{check_call}
use plr.Preload.Wrapper.{Local, Caller, bytes}
use plr.Preload.Group.{run_group}
use plr.Preload.ReadWrite.{write_master, write_slave}
use plr.Preload.ReadWrite.Detects.{recorded}
use plr.Preload.ReadWrite.Masked.{write_masked}
use plr.Examples.Scenario.{three_running, fork_from_100, proc_at}
use plr.Examples.Machine.{World, machine, machine-SeekLaws, tell, keeps_output, all_succeed, caller}

abbrev faulty : Local World
faulty = record (caller.here) { buf = update caller.here.buf 1 (pos 4) }

abbrev writers : ℕ → Local World
writers j = if j == 0 then faulty else caller.here

-- Processes 0 and 1 wait for the vote, and process 2, the last to come, is at the top of the wait loop.
abbrev voting_on_write : System
voting_on_write = record three_running {
  plr = record (three_running.plr) { cond_wait_cnt = λ k. if k == 0 then 3 else 0 };
  all_proc = λ j. record (proc_at j) {
    wait_idx = pos 0;
    syscall_args = recorded machine all_succeed 600 (pos 3) 3 (writers j);
  };
  process = λ j. record {
    self = 10 + j;
    phase = if j == 2 then outside else waiting 0 false false check_call;
  };
}

-- A process of state `u` with a good buffer.
abbrev writer : System → ℕ → Caller World
writer u j = record {
  area = record { plr = u.plr; proc = u.all_proc j; extra_shm_valid = true; cells = λ _. pos 0 };
  here = caller.here;
}

abbrev shown : World → List ℕ
shown w = map pos_part w.output

write_masked_example :
    (t u : System) × (m : Caller World) × (others : List (ℤ × Caller World)) × (wait_loop
        fork_from_100 rounds 2 0 false check_call voting_on_write
      ≡ done tt t)
    × (resume fork_from_100 0 false t ≡ done tt u)
    × ((u.process 0).self ≡ 100)
    × ((u.all_proc 0).syscall_args ≡ recorded machine all_succeed 600 (pos 3) 3 caller.here)
    × (run_group
          (write_master machine all_succeed (pos 3) 3)
          (write_slave machine all_succeed (pos 3))
          (writer u 0)
          (writer u 1 ∷ writer u 2 ∷ [])
        ≡ some ((pos 3, m) ∷ others))
    × (shown m.here.world ≡ 0 ∷ 0 ∷ 0 ∷ [])
    × Both
        (λ s out. (out.0 ≡ pos 3) × (shown out.1.here.world ≡ shown s.here.world))
        (writer u 1 ∷ writer u 2 ∷ [])
        others
unfolding read_cells
write_masked_example =
    write_masked machine all_succeed 600 (pos 3) 3 writers (0 ∷ []) (0 ∷ []) 0 4 (omega arith)
      (omega arith) (λ e. absurd (ground arith)) fork_from_100 2 0 0 100 false voting_on_write
      (record {
        three = refl;
        voter = omega arith;
        other = λ e. absurd (ground arith);
        inside = omega arith;
        started = λ e. absurd (ground arith);
        apart = λ e. absurd (ground arith);
        forked = refl;
        full = refl;
        flag = refl;
        stored = λ j lt. refl;
        good = λ j lt n. ap (bytes 3) (if-false faulty caller.here (ne→== j 0 n));
        wrong = refl;
      })
      tell machine-SeekLaws all_succeed (refl, refl, refl) (refl, refl, refl) (λ _. true)
      (λ _. pos 0) (λ j. (omega arith, λ _. refl)) shown
      (λ offs whence l. ap (map pos_part) (keeps_output offs whence l))
      (λ l. map-append pos_part l.world.output (read_cells 3 0 l.buf)) 1 2 0 (omega arith)
