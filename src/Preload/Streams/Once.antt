-- ===== src/Preload/Streams/Once.antt =====
-- A call on a stream is made once, by the master, and every process comes out with its outcome.
use plr.Prelude.{ℕ, ◌≡◌, some, [], All, ℤ, pos, ◌≤ℤ◌, ap, ◌∙◌, sym}
use plr.SharedData.ExtraShm.{SystemCalls}
use plr.SharedData.ExtraShm.Laws.{Succeed, Mapped}
use plr.Preload.Wrapper.{Local, Libc, LibcCall, Caller}
use plr.Preload.ReadWrite.Laws.{seen_by}
use plr.Preload.Streams.{
  StreamDat, stream_dat, flush_stream, input_master, output_master, stream_slave,
}
use plr.Preload.Streams.Keeps.{Keeps, stream_dat-Keeps, stream_return-Keeps, stream_follow-Keeps}
use plr.Preload.Streams.Agree.{StreamView, StreamLaws, Ends, stream_dat-view}
use plr.Preload.Streams.Deliver.{Delivered, deliver_after}

module _ {W : Type 0} (libc : Libc W) (stream : ℕ) (view : W → StreamView)
    (laws : StreamLaws libc stream view) (calls calls' : SystemCalls) (ok : Succeed calls)
    (ok' : Succeed calls') (c slave : Caller W) (mapped : Mapped c.area)
    (mapped' : Mapped (seen_by slave.area c.area)) where
  abbrev Alone : StreamDat → Local W → Type 0
  unfolding All
  Alone = Delivered libc stream view laws calls calls' ok ok' c [] mapped tt tt

  alone :
      (ret : ℤ) (after : Local W)
      → (view after.world).error ≡ pos 0
      → pos 0 ≤ℤ (view after.world).offset
      → Ends libc stream view laws (view after.world)
      → Alone (stream_dat libc calls stream ret after).0 (stream_dat libc calls stream ret after).1
  unfolding All
  alone = deliver_after libc stream view laws calls calls' ok ok' c [] mapped tt tt

  -- A function for input (`fgetc` and the like): the action of the master calls libc once, and it and
  -- the part of a slave return what that call returned. Both leave `errno` and the stream, its offset
  -- and its two indicators, as the call left them, and both have recorded the same arguments for the
  -- comparison at the end. The stream has no error, its offset is known, and a slave that is brought to
  -- the end of the file meets it with `fgetc`; the system calls for shared memory succeed.
  input_agrees :
      (call : LibcCall W)
      → (view (call c.here).1.world).error ≡ pos 0
      → pos 0 ≤ℤ (view (call c.here).1.world).offset
      → (view slave.here.world).error ≡ pos 0
      → Ends libc stream view laws (view (call c.here).1.world)
      → (m t : Caller W) × (input_master libc calls stream call c ≡ some ((call c.here).0, m))
        × (stream_slave libc calls' stream (record slave { area = seen_by slave.area m.area })
            ≡ some ((call c.here).0, t))
        × (m.here.errno ≡ (call c.here).1.errno)
        × (t.here.errno ≡ (call c.here).1.errno)
        × (view m.here.world ≡ view (call c.here).1.world)
        × (view t.here.world ≡ view (call c.here).1.world)
        × (m.area.proc.syscall_args ≡ t.area.proc.syscall_args)
  unfolding input_master stream_dat Alone
  input_agrees call clear start own ends =
      let (ret, after) = call c.here in
      let seen = (stream_dat-view libc stream view laws calls ret after).0 in
      let x = alone ret after clear start ends in
      let (out, done, f, _, _) = x.serves slave mapped' own in
      (
        x.master,
        out.1,
        x.leads.value,
        done ∙ ap (λ k. some (k, out.1)) f.value,
        x.leads.number,
        f.number,
        x.leads.sees ∙ seen,
        f.sees ∙ seen,
        x.leads.compared ∙ sym f.compared,
      )

  -- A function for output (`fputc`, `puts`, `fputs`, `fwrite`): the action of the master calls libc,
  -- `fflush` and `fsync` once and nothing else that changes the output, and the part of a slave changes
  -- no output. Both return what the call returned, with the `errno` and the state of the stream that
  -- the three calls left, and both have recorded the same arguments for the comparison at the end. The
  -- stream has no error, its offset is known, and a slave that is brought to the end of the file meets
  -- it with `fgetc`; the functions that ask for the state of the stream or set it change no output; the
  -- system calls for shared memory succeed.
  output_once :
      {O : Type 0} (output : W → O) (fn : ℤ) (call : LibcCall W)
      → let after = flush_stream libc calls stream fn (call c.here).1 in
        Keeps libc stream (λ l. output l.world)
        → (view after.world).error ≡ pos 0
        → pos 0 ≤ℤ (view after.world).offset
        → (view slave.here.world).error ≡ pos 0
        → Ends libc stream view laws (view after.world)
        → (m t : Caller W) × (output_master libc calls stream fn call c ≡ some ((call c.here).0, m))
          × (stream_slave libc calls' stream (record slave { area = seen_by slave.area m.area })
              ≡ some ((call c.here).0, t))
          × (output m.here.world ≡ output after.world)
          × (output t.here.world ≡ output slave.here.world)
          × (m.here.errno ≡ after.errno)
          × (t.here.errno ≡ after.errno)
          × (view m.here.world ≡ view after.world)
          × (view t.here.world ≡ view after.world)
          × (m.area.proc.syscall_args ≡ t.area.proc.syscall_args)
  unfolding output_master stream_dat Alone
  output_once {O = O} output fn call keep clear start own ends =
      let ret = (call c.here).0 in
      let after = flush_stream libc calls stream fn (call c.here).1 in
      let part : Local W → O = λ l. output l.world in
      let (d, l) = stream_dat libc calls stream ret after in
      let seen = (stream_dat-view libc stream view laws calls ret after).0 in
      let x = alone ret after clear start ends in
      let (out, done, f, _, _) = x.serves slave mapped' own in
      let led =
        stream_return-Keeps libc calls stream part keep d (record { area = x.led_from; here = l })
          x.master ret x.led in
      let followed =
        stream_follow-Keeps libc calls' stream part keep d (record slave { area = f.from }) out.1
          ret f.followed in
      (
        x.master,
        out.1,
        x.leads.value,
        done ∙ ap (λ k. some (k, out.1)) f.value,
        led.1 ∙ stream_dat-Keeps libc calls stream part keep ret after,
        followed.1,
        x.leads.number,
        f.number,
        x.leads.sees ∙ seen,
        f.sees ∙ seen,
        x.leads.compared ∙ sym f.compared,
      )
