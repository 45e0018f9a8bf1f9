-- ===== src/Preload/Streams/Texts.antt =====
-- The line that `fgets` or `gets` has read goes from the master to the slaves.
use plr.Prelude.{
  ◌+◌, ◌<◌, ℕ, suc, ◌≤◌, ◌≡◌, false, none, some, List, length, if◌then◌else◌, if-true, if-false, ℤ,
  pos, eq_ℤ, ◌≤ℤ◌, arith, ap, ◌∙◌, sym,
}
use mathlib.Core.Path.{subst}
use plr.SharedData.{PlrData}
use plr.SharedData.ExtraShm.{SystemCalls, Area, read_cells, write_cells}
use plr.SharedData.ExtraShm.Laws.{
  Succeed, Mapped, copy_to_shm-writes, copy_from_shm-reads, read_cells-write_cells, read_header,
  length-read_cells,
}
use plr.Preload.Wrapper.{Local, Libc, LibcCall, Caller, ◌>>=◌}
use plr.Preload.ReadWrite.Laws.{seen_by}
use plr.Preload.Streams.{StreamDat, stream_dat, stream_publish_data, stream_follow, stream_return}
use plr.Preload.Streams.Lines.{
  line_data_size, strlen, line_cells, of_line_cells, line_master, line_data, line_slave,
}
use plr.Preload.Streams.Keeps.{Keeps, stream_dat-Keeps, stream_return-Keeps, stream_follow-Keeps}
use plr.Preload.Streams.Agree.{
  StreamView, StreamLaws, Ends, stream_dat-view, stream_return-Leaves, stream_follow-Leaves,
}

told_back :
    (d : StreamDat) (s_len : ℕ) (s : ℤ)
    → eq_ℤ d.ret (pos 0) ≡ false
    → of_line_cells s (line_cells s_len d) ≡ record d { ret = s }
told_back d s_len s some_line =
    let first : (if eq_ℤ d.ret (pos 0) then pos 1 else pos 0) ≡ pos 0 =
      if-false (pos 1) (pos 0) some_line in
    ap (λ k. record d { ret = if eq_ℤ k (pos 0) then s else pos 0 }) first

module _ {W : Type 0} (libc : Libc W) (calls calls' : SystemCalls) (bound stream : ℕ)
    (ok : Succeed calls) (ok' : Succeed calls') where
  -- The master has put a structure and a text behind it into the area.
  put_both :
      (d : StreamDat) (s_len : ℕ) (text : List ℤ) (c : Caller W)
      → Mapped c.area
      → line_data_size + length text < 2147483648
      → d.ferr ≡ pos 0
      → (a : Area) × (stream_publish_data libc calls stream line_data_size
            (line_cells s_len d)
            text
            d
            c
          ≡ stream_return libc calls stream d (record c { area = a }))
        × (read_cells line_data_size 0 a.cells ≡ line_cells s_len d)
        × (read_cells (length text) line_data_size a.cells ≡ text)
        × ((c.area.plr).extra_shm_size ≤ (a.plr).extra_shm_size)
        × (line_data_size + length text ≤ (a.plr).extra_shm_size)
  unfolding stream_publish_data
  put_both d s_len text c mapped small clear =
      let w = copy_to_shm-writes calls (line_cells s_len d) 0 c.area (omega arith) ok mapped in
      let v = copy_to_shm-writes calls text line_data_size w.0 small ok w.3 in
      let cells = v.2 ∙ ap (write_cells line_data_size text) w.2 in
      (
        v.0,
        rw (w.1, v.1, ◌>>=◌) (if-true _ none (ap (λ k. eq_ℤ k (pos 0)) clear)),
        ap (read_cells line_data_size 0) cells ∙ read_header (line_cells s_len d) text c.area.cells,
        ap (read_cells (length text) line_data_size) cells
            ∙ read_cells-write_cells line_data_size text
                (write_cells 0 (line_cells s_len d) c.area.cells),
        omega (arith, w.4, v.4),
        omega (arith, v.5, v.6),
      )

  -- A slave has taken both.
  take_both :
      (d : StreamDat) (s_len : ℕ) (text : List ℤ) (s : ℤ) (c : Caller W)
      → Mapped c.area
      → line_data_size + length text ≤ (c.area.plr).extra_shm_size
      → eq_ℤ d.ret (pos 0) ≡ false
      → length text ≡ s_len
      → read_cells line_data_size 0 c.area.cells ≡ line_cells s_len d
      → read_cells (length text) line_data_size c.area.cells ≡ text
      → (a : Area) × (line_slave libc calls' bound stream s c
          ≡ stream_follow libc calls' stream
              (record d { ret = s })
              (record { area = a; here = record (c.here) { buf = write_cells 0 text c.here.buf } }))
  unfolding line_slave line_data
  take_both d s_len text s c mapped room some_line size header body =
      let r = copy_from_shm-reads calls' line_data_size 0 c.area (omega (arith, room)) ok' mapped in
      let r_size = ap (λ (p : PlrData). p.extra_shm_size) r.4 in
      let q =
        copy_from_shm-reads calls' s_len line_data_size r.0 (omega (arith, room, size, r_size)) ok'
          r.2 in
      let told = r.1 ∙ ap (λ xs. some (xs, r.0)) header in
      let line : read_cells s_len line_data_size r.0.cells ≡ text =
        ap (read_cells s_len line_data_size) r.3
        ∙ ap (λ n. read_cells n line_data_size c.area.cells) (sym size)
        ∙ body in
      let taken = q.1 ∙ ap (λ xs. some (xs, q.0)) line in
      (
        q.0,
        rw (told, some_line, taken, line_slave, line_data, ◌>>=◌)
            (ap
              (λ k. stream_follow libc calls' stream k (record {
                area = q.0;
                here = record (c.here) { buf = write_cells 0 text c.here.buf };
              }))
              (told_back d s_len s some_line)),
      )

  module _ (view : W → StreamView) (laws : StreamLaws libc stream view) (c slave : Caller W)
      (mapped : Mapped c.area) (mapped' : Mapped (seen_by slave.area c.area)) where
    -- `fgets` or `gets`, where libc returns a line and the two processes do not share the offset of an
    -- open file: the action of the master returns the value of the
    -- call, the part of a slave returns the address of its own buffer, and the buffers of both hold the
    -- line of that call, up to and with its 0. Both leave `errno` and the stream, its offset and its
    -- two indicators, as the call left them, and both have recorded the same arguments for the
    -- comparison at the end. The stream has no error, its offset is known, a slave that is brought to
    -- the end of the file meets it with `fgetc`, and the functions that ask for the state of the stream
    -- or set it leave the buffers alone; the system calls for shared memory succeed, and the
    -- line fits the extra area, whose size is an `int`.
    pub line_agrees :
        (call : LibcCall W) (s : ℤ)
        → eq_ℤ (call c.here).0 (pos 0) ≡ false
        → line_data_size + suc (strlen bound 0 (call c.here).1.buf) < 2147483648
        → Keeps libc stream (λ (l : Local W). l.buf)
        → (view (call c.here).1.world).error ≡ pos 0
        → pos 0 ≤ℤ (view (call c.here).1.world).offset
        → (view slave.here.world).error ≡ pos 0
        → Ends libc stream view laws (view (call c.here).1.world)
        → let after = (call c.here).1 in
          let s_len = suc (strlen bound 0 after.buf) in
          (m t : Caller W) × (line_master libc calls bound stream call c
            ≡ some ((call c.here).0, m))
          × (line_slave libc calls' bound stream s
                (record slave { area = seen_by slave.area m.area })
              ≡ some (s, t))
          × (m.here.buf ≡ after.buf)
          × (read_cells s_len 0 t.here.buf ≡ read_cells s_len 0 after.buf)
          × (m.here.errno ≡ after.errno)
          × (t.here.errno ≡ after.errno)
          × (view m.here.world ≡ view after.world)
          × (view t.here.world ≡ view after.world)
          × (m.area.proc.syscall_args ≡ t.area.proc.syscall_args)
    unfolding line_master stream_dat
    line_agrees call s some_line small keep clear start own ends =
        let (ret, after) = call c.here in
        let s_len = suc (strlen bound 0 after.buf) in
        let (d, l) = stream_dat libc calls stream ret after in
        let seen = stream_dat-view libc stream view laws calls ret after in
        let kept = stream_dat-Keeps libc calls stream (λ (l : Local W). l.buf) keep ret after in
        let text = read_cells s_len 0 l.buf in
        let size = length-read_cells s_len 0 l.buf in
        let d_clear : d.ferr ≡ pos 0 = ap (λ (v : StreamView). v.error) seen.0 ∙ clear in
        let p =
          put_both d s_len text (record c { here = l }) mapped (omega (arith, size, small))
            d_clear in
        let opened : Caller W = record { area = p.0; here = l } in
        let (m, led, cells, shared) =
          stream_return-Leaves libc stream view laws calls d opened (seen.1 ∙ sym seen.0) in
        let shared_size = ap (λ (p : PlrData). p.extra_shm_size) shared in
        let waiting : Caller W = record slave { area = seen_by slave.area m.area } in
        let q =
          take_both d s_len text s waiting (omega (arith, mapped'.0, p.4, shared_size), mapped'.1)
            (omega (arith, p.5, shared_size)) some_line size
            (ap (read_cells line_data_size 0) cells ∙ p.2)
            (ap (read_cells (length text) line_data_size) cells ∙ p.3) in
        let d' = record d { ret = s } in
        let via : Caller W = record {
          area = q.0;
          here = record (slave.here) { buf = write_cells 0 text slave.here.buf };
        } in
        let (t, out, _, _) =
          stream_follow-Leaves libc stream view laws calls' d' via d_clear
            (subst (λ (v : StreamView). pos 0 ≤ℤ v.offset) (sym seen.0) start) own
            (subst (Ends libc stream view laws) (sym seen.0) ends) in
        let m_kept =
          stream_return-Keeps libc calls stream (λ (l : Local W). l.buf) keep d opened m ret
            led.value in
        let t_kept =
          stream_follow-Keeps libc calls' stream (λ (l : Local W). l.buf) keep d' via t s
            out.value in
        (
          m,
          t,
          if-false _ _ some_line ∙ p.1 ∙ led.value,
          q.1 ∙ out.value,
          m_kept.1 ∙ kept,
          ap (read_cells s_len 0) t_kept.1
              ∙ ap (λ n. read_cells n 0 (write_cells 0 text slave.here.buf)) (sym size)
              ∙ read_cells-write_cells 0 text slave.here.buf
              ∙ ap (read_cells s_len 0) kept,
          led.number,
          out.number,
          led.sees ∙ seen.0,
          out.sees ∙ seen.0,
          led.compared ∙ sym out.compared,
        )
