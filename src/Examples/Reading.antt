-- ===== src/Examples/Reading.antt =====
-- A line that the master has read with `gets`.
use plr.Prelude.{◌≡◌, refl, some, List, [], ◌∷◌, ℤ, pos, arith}
use plr.SharedData.ExtraShm.{read_cells, write_cells}
use plr.Preload.Wrapper.{LibcCall, Caller}
use plr.Preload.ReadWrite.Laws.{seen_by}
use plr.Preload.Streams.Lines.{strlen, line_master, line_slave}
use plr.Preload.Streams.Texts.{line_agrees}
use plr.Examples.Machine.{
  stream_view, machine-StreamLaws, machine-Keeps_buf, World, machine, all_succeed, new_area,
  new_area-Mapped, caller,
}

abbrev line : List ℤ
line = pos 104 ∷ pos 105 ∷ pos 0 ∷ []

-- The call puts two letters and a 0 into the buffer, whose address is 900.
abbrev get_line : LibcCall World
get_line l = (pos 900, record l { buf = write_cells 0 line l.buf })

line_agrees_example :
    (m t : Caller World) × (line_master machine all_succeed 80 1 get_line caller
      ≡ some (pos 900, m))
    × (line_slave machine all_succeed 80 1
          (pos 700)
          (record caller { area = seen_by new_area m.area })
        ≡ some (pos 700, t))
    × (m.here.buf ≡ write_cells 0 line caller.here.buf)
    × (read_cells 3 0 t.here.buf ≡ line)
    × (m.here.errno ≡ pos 0)
    × (t.here.errno ≡ pos 0)
    × (stream_view m.here.world ≡ record { offset = pos 7; at_eof = pos 0; error = pos 0 })
    × (stream_view t.here.world ≡ record { offset = pos 7; at_eof = pos 0; error = pos 0 })
    × (m.area.proc.syscall_args ≡ t.area.proc.syscall_args)
unfolding read_cells write_cells strlen
line_agrees_example =
    line_agrees machine all_succeed all_succeed 80 1 (refl, refl, refl) (refl, refl, refl)
      stream_view machine-StreamLaws caller caller new_area-Mapped new_area-Mapped get_line
      (pos 700) refl (omega arith) machine-Keeps_buf refl (omega arith) refl
      (λ l h seen. absurd (h refl))
