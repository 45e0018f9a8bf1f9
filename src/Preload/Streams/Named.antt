-- ===== src/Preload/Streams/Named.antt =====
-- plrPreload/fgetc.c, plrPreload/fputc.c, plrPreload/printf.c and plrPreload/printf_chk.c: the functions
-- that a program calls, each with the name that it passes on. `fileno` gives the number of a stream.
use plr.Prelude.{ℕ, List, [], ◌∷◌, ℤ}
use plr.SharedData.ExtraShm.{SystemCalls}
use plr.Preload.Wrapper.{Libc, LibcCall, Wrapper}
use plr.Preload.Streams.Chars.{fgetc_wrapper, fputc_wrapper}
use plr.Preload.Streams.Format.{Formatted, printf_wrapper, printf_chk_wrapper}

module _ {W : Type 0} (libc : Libc W) (calls : SystemCalls) (fileno : ℕ → ℤ) (stdin stdout : ℕ)
    (off : ℕ) where
  unfoldable pub fgetc : (stream : ℕ) → Wrapper W
  unfolding fgetc_wrapper
  fgetc stream =
      fgetc_wrapper libc calls off (b'f' ∷ b'g' ∷ b'e' ∷ b't' ∷ b'c' ∷ []) (fileno stream) stream

  unfoldable pub getc : (stream : ℕ) → Wrapper W
  unfolding fgetc_wrapper
  getc stream = fgetc_wrapper libc calls off (b'g' ∷ b'e' ∷ b't' ∷ b'c' ∷ []) (fileno stream) stream

  abbrev pub getchar_name : List ℕ
  getchar_name = b'g' ∷ b'e' ∷ b't' ∷ b'c' ∷ b'h' ∷ b'a' ∷ b'r' ∷ []

  unfoldable pub getchar : Wrapper W
  unfolding fgetc_wrapper
  getchar = fgetc_wrapper libc calls off getchar_name (fileno stdin) stdin

  unfoldable pub fputc : (c : ℤ) (stream : ℕ) → Wrapper W
  unfolding fputc_wrapper
  fputc c stream =
      fputc_wrapper libc calls off (b'f' ∷ b'p' ∷ b'u' ∷ b't' ∷ b'c' ∷ []) c (fileno stream) stream

  unfoldable pub putc : (c : ℤ) (stream : ℕ) → Wrapper W
  unfolding fputc_wrapper
  putc c stream =
      fputc_wrapper libc calls off (b'p' ∷ b'u' ∷ b't' ∷ b'c' ∷ []) c (fileno stream) stream

  -- With the name of `getchar`, as the source has it.
  unfoldable pub putchar : (c : ℤ) → Wrapper W
  unfolding fputc_wrapper
  putchar c = fputc_wrapper libc calls off getchar_name c (fileno stdout) stdout

  abbrev pub vfprintf_name : List ℕ
  vfprintf_name = b'v' ∷ b'f' ∷ b'p' ∷ b'r' ∷ b'i' ∷ b'n' ∷ b't' ∷ b'f' ∷ []

  abbrev pub vprintf_name : List ℕ
  vprintf_name = b'v' ∷ b'p' ∷ b'r' ∷ b'i' ∷ b'n' ∷ b't' ∷ b'f' ∷ []

  abbrev pub fprintf_name : List ℕ
  fprintf_name = b'f' ∷ b'p' ∷ b'r' ∷ b'i' ∷ b'n' ∷ b't' ∷ b'f' ∷ []

  abbrev pub printf_name : List ℕ
  printf_name = b'p' ∷ b'r' ∷ b'i' ∷ b'n' ∷ b't' ∷ b'f' ∷ []

  -- `call stream` is libc's function with the format and its arguments.
  module _ (f : Formatted) (call : ℕ → LibcCall W) where
    unfoldable pub vfprintf : (stream : ℕ) → Wrapper W
    unfolding printf_wrapper
    vfprintf stream = printf_wrapper calls off vfprintf_name (fileno stream) f (call stream)

    unfoldable pub vprintf : Wrapper W
    unfolding printf_wrapper
    vprintf = printf_wrapper calls off vprintf_name (fileno stdout) f (call stdout)

    unfoldable pub fprintf : (stream : ℕ) → Wrapper W
    unfolding printf_wrapper
    fprintf stream = printf_wrapper calls off fprintf_name (fileno stream) f (call stream)

    unfoldable pub printf : Wrapper W
    unfolding printf_wrapper
    printf = printf_wrapper calls off printf_name (fileno stdout) f (call stdout)

    -- The same with a flag, for programs that are compiled with checks.
    module _ (flag : ℤ) where
      unfoldable pub vfprintf_chk : (stream : ℕ) → Wrapper W
      unfolding printf_chk_wrapper
      vfprintf_chk stream =
          printf_chk_wrapper calls off vfprintf_name (fileno stream) flag f (call stream)

      unfoldable pub vprintf_chk : Wrapper W
      unfolding printf_chk_wrapper
      vprintf_chk = printf_chk_wrapper calls off vprintf_name (fileno stdout) flag f (call stdout)

      unfoldable pub fprintf_chk : (stream : ℕ) → Wrapper W
      unfolding printf_chk_wrapper
      fprintf_chk stream =
          printf_chk_wrapper calls off fprintf_name (fileno stream) flag f (call stream)

      unfoldable pub printf_chk : Wrapper W
      unfolding printf_chk_wrapper
      printf_chk = printf_chk_wrapper calls off printf_name (fileno stdout) flag f (call stdout)
