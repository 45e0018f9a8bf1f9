-- ===== src/Preload/Streams/Chars.antt =====
-- plrPreload/fgetc.c, plrPreload/fputc.c, plrPreload/puts.c and plrPreload/fputs.c. `fn` is the file
-- number of the stream, and `fnc_name` the name of the function that the program has called.
use plr.Prelude.{ℕ, List, ℤ}
use plr.Compare.{zero_args}
use plr.SharedData.ExtraShm.{SystemCalls}
use plr.Preload.Crc.{crc32}
use plr.Preload.Wrapper.{Libc, Wrapper, unsigned_long}
use plr.Preload.Streams.{input_master, output_master, stream_slave}

module _ {W : Type 0} (libc : Libc W) (calls : SystemCalls) where
  -- `com_fgetc`, for `fgetc`, `getc` and `getchar`
  unfoldable pub fgetc_wrapper : (off_fgetc : ℕ) → List ℕ → (fn : ℤ) (stream : ℕ) → Wrapper W
  unfolding input_master stream_slave
  fgetc_wrapper off_fgetc fnc_name fn stream = record {
    args = record zero_args { addr = off_fgetc; arg0 = crc32 0 fnc_name; arg1 = unsigned_long fn };
    master_act = input_master libc calls stream (libc.libc_fgetc stream);
    slave_act = stream_slave libc calls stream;
  }

  -- `com_fputc`, for `fputc`, `putc` and `putchar`
  unfoldable pub fputc_wrapper :
      (off_fputc : ℕ) → List ℕ → (c : ℤ) (fn : ℤ) (stream : ℕ) → Wrapper W
  unfolding output_master stream_slave
  fputc_wrapper off_fputc fnc_name c fn stream = record {
    args = record zero_args {
      addr = off_fputc;
      arg0 = crc32 0 fnc_name;
      arg1 = unsigned_long fn;
      arg2 = unsigned_long c;
    };
    master_act = output_master libc calls stream fn (libc.libc_fputc c stream);
    slave_act = stream_slave libc calls stream;
  }

  -- `puts`; `stdout` is a stream with the file number `fn`.
  unfoldable pub puts_wrapper : (off_puts stdout : ℕ) (fn : ℤ) → List ℕ → Wrapper W
  unfolding output_master stream_slave
  puts_wrapper off_puts stdout fn s = record {
    args = record zero_args { addr = off_puts; arg0 = crc32 0 s };
    master_act = output_master libc calls stdout fn (libc.libc_puts s);
    slave_act = stream_slave libc calls stdout;
  }

  -- `fputs`
  unfoldable pub fputs_wrapper : (off_fputs : ℕ) (fn : ℤ) (stream : ℕ) → List ℕ → Wrapper W
  unfolding output_master stream_slave
  fputs_wrapper off_fputs fn stream s = record {
    args = record zero_args { addr = off_fputs; arg0 = unsigned_long fn; arg1 = crc32 0 s };
    master_act = output_master libc calls stream fn (libc.libc_fputs s stream);
    slave_act = stream_slave libc calls stream;
  }
