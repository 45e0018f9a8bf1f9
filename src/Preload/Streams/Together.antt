-- ===== src/Preload/Streams/Together.antt =====
-- A call on a stream in the whole group: it is made once, by the master, and every process goes on with
-- its outcome.
use plr.Prelude.{ℕ, ◌≡◌, refl, some, List, ◌∷◌, All, Both, Both-map, ℤ, pos, ◌≤ℤ◌, ◌∙◌, sym}
use plr.SharedData.ExtraShm.{SystemCalls}
use plr.SharedData.ExtraShm.Laws.{Succeed, Mapped}
use plr.Preload.Wrapper.{Local, Libc, LibcCall, Caller, ◌>>=◌}
use plr.Preload.Group.{run_group}
use plr.Preload.ReadWrite.Laws.{seen_by}
use plr.Preload.Streams.{stream_dat, flush_stream, input_master, output_master, stream_slave}
use plr.Preload.Streams.Keeps.{Keeps, stream_dat-Keeps, stream_return-Keeps, stream_follow-Keeps}
use plr.Preload.Streams.Agree.{StreamView, StreamLaws, Ends, stream_dat-view}
use plr.Preload.Streams.Deliver.{deliver_after}

module _ {W : Type 0} (libc : Libc W) (stream : ℕ) (view : W → StreamView)
    (laws : StreamLaws libc stream view) (calls calls' : SystemCalls) (ok : Succeed calls)
    (ok' : Succeed calls') (c : Caller W) (slaves : List (Caller W)) (mapped : Mapped c.area)
    (all_mapped : All (λ s. Mapped (seen_by s.area c.area)) slaves)
    (no_error : All (λ s. (view s.here.world).error ≡ pos 0) slaves) where
  -- A function for input (`fgetc` and the like) in a group of any size, the slaves in any order,
  -- where no two processes share the offset of an open file: every process returns what the call of
  -- libc by the master returned. All leave `errno` and
  -- the stream, its offset and its two indicators, as the call left them, and all have recorded the
  -- same arguments for the comparison at the end. The stream has no error, its offset is known, and a
  -- slave that is brought to the end of the file meets it with `fgetc`; the system calls for shared
  -- memory succeed.
  pub input_together :
      (call : LibcCall W)
      → let (ret, after) = call c.here in
        (view after.world).error ≡ pos 0
        → pos 0 ≤ℤ (view after.world).offset
        → Ends libc stream view laws (view after.world)
        → (m : Caller W) × (others : List (ℤ × Caller W)) × (run_group
              (input_master libc calls stream call)
              (stream_slave libc calls' stream)
              c
              slaves
            ≡ some ((ret, m) ∷ others))
          × (m.here.errno ≡ after.errno)
          × (view m.here.world ≡ view after.world)
          × Both
              (λ s out.
                (out.0 ≡ ret)
                × (out.1.here.errno ≡ after.errno)
                × (view out.1.here.world ≡ view after.world)
                × (out.1.area.proc.syscall_args ≡ m.area.proc.syscall_args))
              slaves
              others
  unfolding run_group input_master stream_dat
  input_together call clear start ends =
      let (ret, after) = call c.here in
      let seen = (stream_dat-view libc stream view laws calls ret after).0 in
      let x =
        deliver_after libc stream view laws calls calls' ok ok' c slaves mapped all_mapped no_error
          ret after clear start ends in
      (
        x.master,
        x.others,
        rw (x.leads.value, x.rest, run_group, input_master, ◌>>=◌) refl,
        x.leads.number,
        x.leads.sees ∙ seen,
        Both-map slaves x.others
            (λ s out f. (f.value, f.number, f.sees ∙ seen, f.compared ∙ sym x.leads.compared))
            x.follow,
      )

  -- A function for output (`fputc`, `puts`, `fputs`, `fwrite`) in a group of any size, the slaves in any order,
  -- where no two processes share the offset of an open file: the output changes as by one call of libc with `fflush` and `fsync`, in the master, and in no
  -- slave. Every process returns what the call returned, with the `errno` and the state of the stream
  -- that the three calls left, and all have recorded the same arguments for the comparison at the end.
  -- The stream has no error, its offset is known, and a slave that is brought to the end of the file
  -- meets it with `fgetc`; the functions that ask for the state of the stream or set it change no
  -- output; the system calls for shared memory succeed.
  pub output_together :
      {O : Type 0} (output : W → O) (fn : ℤ) (call : LibcCall W)
      → let after = flush_stream libc calls stream fn (call c.here).1 in
        Keeps libc stream (λ l. output l.world)
        → (view after.world).error ≡ pos 0
        → pos 0 ≤ℤ (view after.world).offset
        → Ends libc stream view laws (view after.world)
        → (m : Caller W) × (others : List (ℤ × Caller W)) × (run_group
              (output_master libc calls stream fn call)
              (stream_slave libc calls' stream)
              c
              slaves
            ≡ some (((call c.here).0, m) ∷ others))
          × (output m.here.world ≡ output after.world)
          × (m.here.errno ≡ after.errno)
          × (view m.here.world ≡ view after.world)
          × Both
              (λ s out.
                (out.0 ≡ (call c.here).0)
                × (output out.1.here.world ≡ output s.here.world)
                × (out.1.here.errno ≡ after.errno)
                × (view out.1.here.world ≡ view after.world)
                × (out.1.area.proc.syscall_args ≡ m.area.proc.syscall_args))
              slaves
              others
  unfolding run_group output_master stream_dat
  output_together {O = O} output fn call keep clear start ends =
      let ret = (call c.here).0 in
      let after = flush_stream libc calls stream fn (call c.here).1 in
      let part : Local W → O = λ l. output l.world in
      let (d, l) = stream_dat libc calls stream ret after in
      let seen = (stream_dat-view libc stream view laws calls ret after).0 in
      let x =
        deliver_after libc stream view laws calls calls' ok ok' c slaves mapped all_mapped no_error
          ret after clear start ends in
      let led =
        stream_return-Keeps libc calls stream part keep d (record { area = x.led_from; here = l })
          x.master ret x.led in
      (
        x.master,
        x.others,
        rw (x.leads.value, x.rest, run_group, output_master, ◌>>=◌) refl,
        led.1 ∙ stream_dat-Keeps libc calls stream part keep ret after,
        x.leads.number,
        x.leads.sees ∙ seen,
        Both-map slaves x.others
            (λ s out f.
              let kept =
                stream_follow-Keeps libc calls' stream part keep d (record s { area = f.from })
                  out.1 ret f.followed in
              (f.value, kept.1, f.number, f.sees ∙ seen, f.compared ∙ sym x.leads.compared))
            x.follow,
      )
