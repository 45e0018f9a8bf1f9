-- ===== src/Examples/Together.antt =====
-- Calls by a master and two slaves on the small machine.
use plr.Prelude.{◌+◌, ◌≡◌, refl, some, List, [], ◌∷◌, All, Both, ℤ, pos, negsuc, arith}
use plr.SharedData.ExtraShm.{read_cells}
use plr.Compare.{zero_args}
use plr.Preload.Wrapper.{seek_set, Caller}
use plr.Preload.Streams.Seek.{fseek_master, fseek_slave}
use plr.Preload.Streams.Sought.{fseek_together}
use plr.Preload.Group.{run_group}
use plr.Preload.Streams.Blocks.{fread_master, fread_slave}
use plr.Preload.Streams.Items.{fread_together}
use plr.Preload.ReadWrite.{write_master, write_slave}
use plr.Preload.ReadWrite.Together.{write_together}
use plr.Preload.Streams.{flush_stream, input_master, output_master, stream_slave}
use plr.Preload.Streams.Together.{input_together, output_together}
use plr.Examples.Machine.{
  machine-Keeps_buf, World, machine, machine-SeekLaws, tell, keeps_output, all_succeed,
  new_area-Mapped, caller, stream_view, machine-StreamLaws, machine-Ends, stream_seek-part,
  stream_getc-part,
}

abbrev two_slaves : List (Caller World)
two_slaves = caller ∷ caller ∷ []

write_together_example :
    (m : Caller World) × (others : List (ℤ × Caller World)) × (run_group
        (write_master machine all_succeed (pos 3) 1)
        (write_slave machine all_succeed (pos 3))
        caller
        two_slaves
      ≡ some ((pos 1, m) ∷ others))
    × (m.here.world.output ≡ pos 0 ∷ [])
    × Both
        (λ s out.
          (out.0 ≡ pos 1)
          × (out.1.here.world.output ≡ s.here.world.output)
          × (out.1.here.errno ≡ pos 0)
          × (tell out.1.here.world ≡ tell m.here.world))
        two_slaves
        others
unfolding All read_cells
write_together_example =
    write_together machine (pos 3) tell machine-SeekLaws all_succeed all_succeed (refl, refl, refl)
      (refl, refl, refl) 1 caller two_slaves new_area-Mapped
      (new_area-Mapped, (new_area-Mapped, tt)) (λ w. w.output) keeps_output

-- The master is at the end of the file.
abbrev at_end : Caller World
at_end = record caller {
  here = record (caller.here) { world = record { offset = 9; at_eof = pos 0; output = [] } };
}

input_together_example :
    (m : Caller World) × (others : List (ℤ × Caller World)) × (run_group
        (input_master machine all_succeed 1 (machine.libc_fgetc 1))
        (stream_slave machine all_succeed 1)
        at_end
        two_slaves
      ≡ some ((negsuc 0, m) ∷ others))
    × (m.here.errno ≡ pos 0)
    × (stream_view m.here.world ≡ record { offset = pos 9; at_eof = pos 1; error = pos 0 })
    × Both
        (λ s out.
          (out.0 ≡ negsuc 0)
          × (out.1.here.errno ≡ pos 0)
          × (stream_view out.1.here.world
              ≡ record { offset = pos 9; at_eof = pos 1; error = pos 0 })
          × (out.1.area.proc.syscall_args ≡ m.area.proc.syscall_args))
        two_slaves
        others
unfolding All
input_together_example =
    input_together machine 1 stream_view machine-StreamLaws all_succeed all_succeed
      (refl, refl, refl) (refl, refl, refl) at_end two_slaves new_area-Mapped
      (new_area-Mapped, (new_area-Mapped, tt)) (refl, (refl, tt)) (machine.libc_fgetc 1) refl
      (omega arith) (machine-Ends 9 (pos 1) (omega arith) refl)

output_together_example :
    (m : Caller World) × (others : List (ℤ × Caller World)) × (run_group
        (output_master machine all_succeed 1 (pos 1) (machine.libc_fputc (pos 66) 1))
        (stream_slave machine all_succeed 1)
        caller
        two_slaves
      ≡ some ((pos 66, m) ∷ others))
    × (m.here.world.output ≡ pos 66 ∷ [])
    × (m.here.errno ≡ pos 0)
    × (stream_view m.here.world ≡ record { offset = pos 7; at_eof = pos 0; error = pos 0 })
    × Both
        (λ s out.
          (out.0 ≡ pos 66)
          × (out.1.here.world.output ≡ s.here.world.output)
          × (out.1.here.errno ≡ pos 0)
          × (stream_view out.1.here.world
              ≡ record { offset = pos 7; at_eof = pos 0; error = pos 0 })
          × (out.1.area.proc.syscall_args ≡ m.area.proc.syscall_args))
        two_slaves
        others
unfolding All flush_stream
output_together_example =
    output_together machine 1 stream_view machine-StreamLaws all_succeed all_succeed
      (refl, refl, refl) (refl, refl, refl) caller two_slaves new_area-Mapped
      (new_area-Mapped, (new_area-Mapped, tt)) (refl, (refl, tt)) (λ w. w.output) (pos 1)
      (machine.libc_fputc (pos 66) 1)
      (record {
        fseek = λ offs whence l. (stream_seek-part offs whence l).1;
        fgetc = λ l. (stream_getc-part l).1;
        ftell = λ l. refl;
        feof = λ l. refl;
        ferror = λ l. refl;
        errno = λ err l. refl;
      })
      refl (omega arith) (λ l h seen. absurd (h refl))

-- The master has met the end of the file.
abbrev met_end : Caller World
met_end = record caller {
  here = record (caller.here) { world = record { offset = 9; at_eof = pos 1; output = [] } };
}

fseek_together_example :
    (m : Caller World) × (others : List (ℤ × Caller World)) × (run_group
        (fseek_master machine all_succeed 1 (negsuc 4) seek_set)
        (fseek_slave machine all_succeed 1)
        met_end
        two_slaves
      ≡ some ((negsuc 0, m) ∷ others))
    × (stream_view m.here.world ≡ record { offset = pos 9; at_eof = pos 1; error = pos 0 })
    × (m.area.proc.syscall_args ≡ record zero_args { arg0 = 9; arg1 = 1 })
    × Both
        (λ s out.
          (out.0 ≡ negsuc 0)
          × (out.1.here.errno ≡ pos 22)
          × (stream_view out.1.here.world
              ≡ record { offset = pos 9; at_eof = pos 0; error = pos 0 })
          × (out.1.area.proc.syscall_args ≡ record zero_args { arg0 = 9 }))
        two_slaves
        others
unfolding All
fseek_together_example =
    fseek_together machine 1 stream_view machine-StreamLaws all_succeed all_succeed
      (refl, refl, refl) (refl, refl, refl) met_end two_slaves new_area-Mapped
      (new_area-Mapped, (new_area-Mapped, tt)) (refl, (refl, tt)) (negsuc 4) seek_set refl
      (omega arith)

fread_together_example :
    (m : Caller World) × (others : List (ℤ × Caller World)) × (run_group
        (fread_master machine all_succeed 1 2 1)
        (fread_slave machine all_succeed 1)
        caller
        two_slaves
      ≡ some ((pos 2, m) ∷ others))
    × (m.here.errno ≡ pos 0)
    × (stream_view m.here.world ≡ record { offset = pos 9; at_eof = pos 0; error = pos 0 })
    × (m.here.buf ≡ (λ j. pos (65 + j)))
    × Both
        (λ s out.
          (out.0 ≡ pos 2)
          × (out.1.here.errno ≡ pos 0)
          × (stream_view out.1.here.world
              ≡ record { offset = pos 9; at_eof = pos 0; error = pos 0 })
          × (read_cells 2 0 out.1.here.buf ≡ pos 65 ∷ pos 66 ∷ [])
          × (out.1.area.proc.syscall_args ≡ m.area.proc.syscall_args))
        two_slaves
        others
unfolding All read_cells
fread_together_example =
    fread_together machine 1 stream_view machine-StreamLaws machine-Keeps_buf all_succeed
      all_succeed (refl, refl, refl) (refl, refl, refl) caller two_slaves new_area-Mapped
      (new_area-Mapped, (new_area-Mapped, tt)) (refl, (refl, tt)) 1 2 refl (omega arith)
      (λ l h seen. absurd (h refl)) (omega arith)
