-- ===== src/Preload/Streams/Deliver.antt =====
-- How the outcome of a call on a stream gets from the master to all slaves.
use plr.Prelude.{
  ℕ, ◌≤◌, ◌≡◌, refl, none, some, List, All, All-map, All-zip, Both, if-true, ℤ, pos, eq_ℤ, ◌≤ℤ◌,
  arith, ap, ◌∙◌, sym,
}
use mathlib.Core.Path.{subst}
use plr.SharedData.{PlrData}
use plr.SharedData.ExtraShm.{SystemCalls, Area, read_cells}
use plr.SharedData.ExtraShm.Laws.{
  Succeed, Mapped, copy_to_shm-writes, copy_from_shm-reads, read_cells-write_cells,
}
use plr.Preload.Wrapper.{Local, Libc, Caller, ◌>>=◌}
use plr.Preload.Group.{run_slaves, Serves, run_slaves-Both}
use plr.Preload.ReadWrite.Laws.{seen_by}
use plr.Preload.Streams.{
  StreamDat, stream_data_size, to_cells, stream_dat, stream_publish, stream_follow, stream_return,
  stream_slave,
}
use plr.Preload.Streams.Agree.{
  StreamView, StreamLaws, seen_in, exit_args, Ends, stream_dat-view, Leaves, stream_return-Leaves,
  stream_follow-Leaves,
}

module _ {W : Type 0} (libc : Libc W) (stream : ℕ) (view : W → StreamView)
    (laws : StreamLaws libc stream view) (calls calls' : SystemCalls) (ok : Succeed calls)
    (ok' : Succeed calls') (c : Caller W) (slaves : List (Caller W)) (mapped : Mapped c.area)
    (all_mapped : All (λ s. Mapped (seen_by s.area c.area)) slaves)
    (no_error : All (λ s. (view s.here.world).error ≡ pos 0) slaves) where
  abbrev Fits : Caller W → Type 0
  Fits s = Mapped (seen_by s.area c.area)

  abbrev Clear : Caller W → Type 0
  Clear s = (view s.here.world).error ≡ pos 0

  -- How slave `s` comes out.
  pub record Followed (d : StreamDat) (s : Caller W) (out : ℤ × Caller W) : Type 0 where
    pub value : out.0 ≡ d.ret
    pub number : out.1.here.errno ≡ d.err
    pub sees : view out.1.here.world ≡ seen_in d
    pub compared : out.1.area.proc.syscall_args ≡ exit_args (seen_in d)
    pub from : Area
    pub followed :
        stream_follow libc calls' stream d (record s { area = from }) ≡ some (d.ret, out.1)

  -- How the group comes out.
  pub record Delivered (d : StreamDat) (l : Local W) : Type 0 where
    pub master : Caller W
    pub others : List (ℤ × Caller W)
    pub leads :
        Leaves libc stream view laws d
          (stream_publish libc calls stream (to_cells d) d (record c { here = l }))
          master
    pub led_from : Area
    pub led :
        stream_return libc calls stream d (record { area = led_from; here = l })
        ≡ some (d.ret, master)
    pub rest : run_slaves (stream_slave libc calls' stream) slaves master.area ≡ some others
    pub follow : Both (Followed d) slaves others
    pub serves :
        (s : Caller W)
        → Fits s
        → Clear s
        → Serves (Followed d) (stream_slave libc calls' stream) master.area s

  -- A slave that finds `a`.
  serve :
      (d : StreamDat) (a : Area)
      → read_cells stream_data_size 0 a.cells ≡ to_cells d
      → (c.area.plr).extra_shm_size ≤ (a.plr).extra_shm_size
      → stream_data_size ≤ (a.plr).extra_shm_size
      → d.ferr ≡ pos 0
      → pos 0 ≤ℤ d.offs
      → Ends libc stream view laws (seen_in d)
      → (s : Caller W) → Fits s
      → Clear s
      → Serves (Followed d) (stream_slave libc calls' stream) a s
  unfolding stream_slave
  serve d a told grown room clear start ends s fits own =
      let waiting = seen_by s.area a in
      let r =
        copy_from_shm-reads calls' stream_data_size 0 waiting room ok'
          (omega (arith, fits.0, grown), fits.1) in
      let via : Caller W = record s { area = r.0 } in
      let (t, out, same_cells, same_shared) =
        stream_follow-Leaves libc stream view laws calls' d via clear start own ends in
      (
        (d.ret, t),
        rw (r.1 ∙ ap (λ xs. some (xs, r.0)) told, stream_slave, ◌>>=◌) out.value,
        record {
          value = refl;
          number = out.number;
          sees = out.sees;
          compared = out.compared;
          from = r.0;
          followed = out.value;
        },
        same_shared ∙ r.4,
        same_cells ∙ r.3,
      )

  deliver :
      (d : StreamDat) (l : Local W)
      → seen_in d ≡ view l.world
      → d.ferr ≡ pos 0
      → pos 0 ≤ℤ d.offs
      → Ends libc stream view laws (seen_in d)
      → Delivered d l
  unfolding stream_publish
  deliver d l seen clear start ends =
      let w = copy_to_shm-writes calls (to_cells d) 0 c.area (omega arith) ok mapped in
      let opened : Caller W = record { area = w.0; here = l } in
      let (m, led, cells, shared) =
        stream_return-Leaves libc stream view laws calls d opened (sym seen) in
      let size = ap (λ (p : PlrData). p.extra_shm_size) shared in
      let told : read_cells stream_data_size 0 m.area.cells ≡ to_cells d =
        ap (read_cells stream_data_size 0) (cells ∙ w.2)
        ∙ read_cells-write_cells 0 (to_cells d) c.area.cells in
      let serves =
        serve d m.area told (omega (arith, w.4, size)) (omega (arith, w.5, w.6, size)) clear start
          ends in
      let (others, rest, follow) =
        run_slaves-Both (Followed d) (stream_slave libc calls' stream) m.area slaves m.area refl
          refl
          (All-map {P = λ s. Fits s × Clear s} slaves (λ s h. serves s h.0 h.1)
            (All-zip Fits Clear slaves all_mapped no_error)) in
      record {
        master = m;
        others = others;
        leads = record {
          value = rw (w.1, ◌>>=◌) (if-true _ none (ap (λ k. eq_ℤ k (pos 0)) clear) ∙ led.value);
          number = led.number;
          sees = led.sees;
          compared = led.compared;
        };
        led_from = w.0;
        led = led.value;
        rest = rest;
        follow = follow;
        serves = serves;
      }

  -- The same from the state of the stream when `shmDat` is filled.
  pub deliver_after :
      (ret : ℤ) (after : Local W)
      → (view after.world).error ≡ pos 0
      → pos 0 ≤ℤ (view after.world).offset
      → Ends libc stream view laws (view after.world)
      → Delivered
          (stream_dat libc calls stream ret after).0
          (stream_dat libc calls stream ret after).1
  deliver_after ret after clear start ends =
      let (d, l) = stream_dat libc calls stream ret after in
      let seen = stream_dat-view libc stream view laws calls ret after in
      deliver d l (seen.0 ∙ sym seen.1) (ap (λ (v : StreamView). v.error) seen.0 ∙ clear)
        (subst (λ (v : StreamView). pos 0 ≤ℤ v.offset) (sym seen.0) start)
        (subst (Ends libc stream view laws) (sym seen.0) ends)
