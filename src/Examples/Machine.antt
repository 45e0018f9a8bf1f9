-- ===== src/Examples/Machine.antt =====
-- A small machine for the overriding functions: one file with an offset, and an output.
use plr.Prelude.{
  ℕ, ◌+◌, ◌*◌, true, refl, List, [], ◌∷◌, ◌++◌, ℤ, pos, negsuc, pos_part, arith, ◌≡◌, ◌≤ℤ◌, ◌≤◌,
  leb, if◌then◌else◌, if-true, inl, inr, Bool-cases, ap, ◌∙◌, sym,
}
use plr.SharedData.{zero_proc}
use plr.SharedData.ExtraShm.{SystemCalls, Area, read_cells}
use plr.SharedData.ExtraShm.Laws.{Mapped}
use plr.Preload.Streams.Keeps.{Keeps}
use plr.Preload.Wrapper.{Local, Libc, LibcCall, Whence, seek_set, seek_cur, seek_end, Caller}
use plr.Preload.ReadWrite.Laws.{SeekLaws}
use plr.Preload.Streams.{eof}
use plr.Preload.Streams.Agree.{StreamView, StreamLaws, Ends}
use plr.Examples.Scenario.{three_running}

pub record World : Type 0 where
  pub offset : ℕ
  pub at_eof : ℤ
  pub output : List ℤ

abbrev pub seek : ℤ → Whence → LibcCall World
seek offs seek_set l = (offs, record l { world = record (l.world) { offset = pos_part offs } })
seek offs seek_cur l = (pos l.world.offset, l)
seek offs seek_end l = (pos l.world.offset, l)

abbrev idle : LibcCall World
idle l = (pos 0, l)

-- The file has nine bytes, all of them `A`, for `fgetc`.
abbrev stream_getc : LibcCall World
stream_getc l =
    if leb 9 l.world.offset
    then (negsuc 0, record l { world = record (l.world) { at_eof = pos 1 } })
    else (pos 65, record l { world = record (l.world) { offset = l.world.offset + 1 } })

-- An offset below 0 is an error, which leaves the stream as it was.
abbrev stream_seek : ℤ → Whence → LibcCall World
stream_seek (pos n) whence l =
    seek (pos n) whence (record l { world = record (l.world) { at_eof = pos 0 } })
stream_seek (negsuc n) seek_set l = (negsuc 0, record l { errno = pos 22 })
stream_seek (negsuc n) seek_cur l = (negsuc 0, record l { errno = pos 22 })
stream_seek (negsuc n) seek_end l = (negsuc 0, record l { errno = pos 22 })

-- Two bytes are read at a time; there are no files by name.
abbrev pub machine : Libc World
machine = record {
  libc_read = λ fd count l. (
    pos 2,
    record l { world = record (l.world) { offset = l.world.offset + 2 }; buf = λ j. pos (65 + j) },
  );
  libc_write = λ fd count l. (
    pos count,
    record l { world = record (l.world) { output = l.world.output ++ read_cells count 0 l.buf } },
  );
  libc_lseek = λ fd. seek;
  libc_open = λ path flags mode l. (negsuc 0, record l { errno = pos 2 });
  libc_unlink = λ path l. (negsuc 0, record l { errno = pos 2 });
  libc_close = λ fd. idle;
  libc_getpid = idle;
  libc_fork = idle;
  libc_fopen = λ path mode l. (pos 0, record l { errno = pos 2 });
  libc_fread = λ size nmemb stream l. (
    pos nmemb,
    record l {
      world = record (l.world) { offset = l.world.offset + size * nmemb };
      buf = λ j. pos (65 + j);
    },
  );
  libc_fwrite = λ size nmemb stream. idle;
  libc_fgetc = λ stream. stream_getc;
  libc_puts = λ s. idle;
  libc_fputs = λ s stream. idle;
  libc_fputc =
      λ c stream l. (c, record l { world = record (l.world) { output = c ∷ l.world.output } });
  libc_fgets = λ s size stream. idle;
  libc_gets = λ s. idle;
  libc_fileno = λ stream. idle;
  libc_ftell = λ stream l. (pos l.world.offset, l);
  libc_feof = λ stream l. (l.world.at_eof, l);
  libc_ferror = λ stream. idle;
  libc_fseek = λ stream. stream_seek;
  libc_fflush = λ stream. idle;
  libc_fsync = λ fd. idle;
}

abbrev pub tell : World → ℤ
tell w = pos w.offset

set_offset : (offs : ℤ) → pos 0 ≤ℤ offs → pos (pos_part offs) ≡ offs
set_offset (pos n) h = refl
set_offset (negsuc n) h = absurd (omega arith)

abbrev pub keeps_buf :
    (offs : ℤ) (whence : Whence) (l : Local World) → (seek offs whence l).1.buf ≡ l.buf
keeps_buf offs seek_set l = refl
keeps_buf offs seek_cur l = refl
keeps_buf offs seek_end l = refl

abbrev pub keeps_output :
    (offs : ℤ) (whence : Whence) (l : Local World)
    → (seek offs whence l).1.world.output ≡ l.world.output
keeps_output offs seek_set l = refl
keeps_output offs seek_cur l = refl
keeps_output offs seek_end l = refl

pub machine-SeekLaws : SeekLaws machine (pos 3) tell
machine-SeekLaws = record {
  keeps_buf = keeps_buf;
  current = λ l. refl;
  stays = λ l. refl;
  set = λ offs l h. set_offset offs h;
  range = λ l. omega arith;
}

abbrev pub stream_view : World → StreamView
stream_view w = record { offset = pos w.offset; at_eof = w.at_eof; error = pos 0 }

stream_seek-view :
    (offs : ℤ) (l : Local World)
    → pos 0 ≤ℤ offs
    → stream_view (stream_seek offs seek_set l).1.world
      ≡ record { offset = offs; at_eof = pos 0; error = pos 0 }
stream_seek-view (pos n) l h = refl
stream_seek-view (negsuc n) l h = absurd (omega arith)

pub machine-StreamLaws : StreamLaws machine 1 stream_view
machine-StreamLaws = record {
  ftell_value = λ l. refl;
  ftell_keeps = λ l. refl;
  feof_value = λ l. refl;
  feof_keeps = λ l. refl;
  ferror_value = λ l. refl;
  ferror_keeps = λ l. refl;
  seek = stream_seek-view;
}

-- At the end of the file `fgetc` meets it again.
pub machine-Ends :
    (n : ℕ) (at_eof : ℤ)
    → 9 ≤ n
    → at_eof ≡ pos 1
    → Ends machine 1 stream_view machine-StreamLaws
        (record { offset = pos n; at_eof = at_eof; error = pos 0 })
machine-Ends n at_eof h one l _ seen =
    let at : l.world.offset ≡ n = ap (λ (v : StreamView). pos_part v.offset) seen in
    let last : leb 9 l.world.offset ≡ true = ground (arith, at, h) in
    let got : stream_getc l ≡ (eof, record l { world = record (l.world) { at_eof = pos 1 } }) =
      if-true _ _ last in
    (
      ap (λ (x : ℤ × Local World). x.0) got,
      ap (λ (x : ℤ × Local World). stream_view x.1.world) got
          ∙ (λ i. record { offset = pos (at i); at_eof = sym one i; error = pos 0 }),
    )

pub stream_seek-part :
    (offs : ℤ) (whence : Whence) (l : Local World)
    → ((stream_seek offs whence l).1.buf ≡ l.buf)
      × ((stream_seek offs whence l).1.world.output ≡ l.world.output)
stream_seek-part (pos n) seek_set l = (refl, refl)
stream_seek-part (pos n) seek_cur l = (refl, refl)
stream_seek-part (pos n) seek_end l = (refl, refl)
stream_seek-part (negsuc n) seek_set l = (refl, refl)
stream_seek-part (negsuc n) seek_cur l = (refl, refl)
stream_seek-part (negsuc n) seek_end l = (refl, refl)

pub stream_getc-part :
    (l : Local World)
    → ((stream_getc l).1.buf ≡ l.buf) × ((stream_getc l).1.world.output ≡ l.world.output)
stream_getc-part l = elim (Bool-cases (leb 9 l.world.offset)) [
  | inl e ↦ rw e (refl, refl)
  | inr e ↦ rw e (refl, refl)
]

abbrev pub all_succeed : SystemCalls
all_succeed = record { opened = pos 5; truncated = true; mapped = true; unmapped = true }

abbrev pub new_area : Area
new_area = record {
  plr = three_running.plr;
  proc = zero_proc;
  extra_shm_valid = true;
  cells = λ _. pos 0;
}

pub new_area-Mapped : Mapped new_area
new_area-Mapped = (omega arith, λ _. refl)

abbrev pub caller : Caller World
caller = record {
  area = new_area;
  here = record {
    world = record { offset = 7; at_eof = pos 0; output = [] };
    errno = pos 0;
    buf = λ _. pos 0;
  };
}

pub machine-Keeps_buf : Keeps machine 1 (λ (l : Local World). l.buf)
machine-Keeps_buf = record {
  fseek = λ offs whence l. (stream_seek-part offs whence l).0;
  fgetc = λ l. (stream_getc-part l).0;
  ftell = λ l. refl;
  feof = λ l. refl;
  ferror = λ l. refl;
  errno = λ err l. refl;
}
