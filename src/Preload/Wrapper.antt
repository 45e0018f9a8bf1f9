-- ===== src/Preload/Wrapper.antt =====
-- plrPreload: what the overriding functions have in common, and plrCommon/plr.c: the flag that says
-- that a process is inside of PLR. The functions of libc are an interface.
use plr.Prelude.{
  ℕ, ◌-◌, ◌^◌, ◌||◌, Bool, true, false, Option, none, some, List, map, if◌then◌else◌, ℤ, pos,
  negsuc, pos_part,
}
use plr.Compare.{SyscallArgs}
use plr.SharedData.{PerProcData}
use plr.SharedData.ExtraShm.{Area, read_cells}

infixl 5 ◌>>=◌
abbrev pub ◌>>=◌ {ℓ κ} : {A : Type ℓ} {B : Type κ} → Option A → (A → Option B) → Option B
o >>= k = elim o [ none ↦ none | some a ↦ k a ]

-- What the functions of libc work on in one process: everything outside of the program, `errno`, and
-- the cells of the buffer that the caller has passed.
pub record Local (W : Type 0) : Type 0 where
  pub world : W
  pub errno : ℤ
  pub buf : ℕ → ℤ

abbrev pub LibcCall : Type 0 → Type 0
LibcCall W = Local W → ℤ × Local W

pub data Whence : Type 0 where
  seek_set seek_cur seek_end : Whence

-- The functions of libc, each with the value that it returns. A stream is a number, 0 for `NULL`, and
-- a text the list of its bytes.
pub record Libc (W : Type 0) : Type 0 where
  pub libc_read : ℤ → ℕ → LibcCall W
  pub libc_write : ℤ → ℕ → LibcCall W
  pub libc_lseek : ℤ → ℤ → Whence → LibcCall W
  pub libc_open : List ℕ → ℕ → ℕ → LibcCall W
  pub libc_unlink : List ℕ → LibcCall W
  pub libc_close : ℤ → LibcCall W
  pub libc_getpid : LibcCall W
  pub libc_fork : LibcCall W
  pub libc_fopen : List ℕ → List ℕ → LibcCall W
  pub libc_fread : (size nmemb stream : ℕ) → LibcCall W
  pub libc_fwrite : (size nmemb stream : ℕ) → LibcCall W
  pub libc_fgetc : ℕ → LibcCall W
  pub libc_puts : List ℕ → LibcCall W
  pub libc_fputs : List ℕ → (stream : ℕ) → LibcCall W
  pub libc_fputc : (c : ℤ) (stream : ℕ) → LibcCall W
  pub libc_fgets : (s size : ℤ) (stream : ℕ) → LibcCall W
  pub libc_gets : (s : ℤ) → LibcCall W
  pub libc_fileno : ℕ → LibcCall W
  pub libc_ftell : ℕ → LibcCall W
  pub libc_feof : ℕ → LibcCall W
  pub libc_ferror : ℕ → LibcCall W
  pub libc_fseek : ℕ → ℤ → Whence → LibcCall W
  pub libc_fflush : ℕ → LibcCall W
  pub libc_fsync : ℤ → LibcCall W

-- A process in an overriding function.
pub record Caller (W : Type 0) : Type 0 where
  pub area : Area
  pub here : Local W

-- What a process does in a step; none if it ends by `exit(1)` or by an assertion.
abbrev pub Act : Type 0 → Type 0
Act W = Caller W → Option (ℤ × Caller W)

-- An overriding function: the arguments that it records for the comparison, what the master does
-- while all wait, and what a slave does after it.
pub record Wrapper (W : Type 0) : Type 0 where
  pub args : SyscallArgs
  pub master_act : Act W
  pub slave_act : Act W

-- The conversions of `int` to `unsigned long`.
abbrev pub unsigned_long : ℤ → ℕ
unsigned_long (pos n) = n
unsigned_long (negsuc n) = 2 ^ 64 - 1 - n

-- The first `count` bytes of the buffer.
abbrev pub bytes : {W : Type 0} → ℕ → Local W → List ℕ
bytes count l = map pos_part (read_cells count 0 l.buf)

abbrev pub with_proc : {W : Type 0} → (PerProcData → PerProcData) → Caller W → Caller W
with_proc f c = record c { area = record (c.area) { proc = f c.area.proc } }

module _ {W : Type 0} where
  -- `plr_setInsidePLR`
  unfoldable pub set_inside_plr : Caller W → Option (Caller W)
  set_inside_plr c =
      if c.area.proc.inside_plr
      then none
      else some (with_proc (λ p. record p { inside_plr = true }) c)

  -- `plr_clearInsidePLR`
  unfoldable pub clear_inside_plr : Caller W → Option (Caller W)
  clear_inside_plr c =
      if c.area.proc.inside_plr
      then some (with_proc (λ p. record p { inside_plr = false }) c)
      else none

  -- `plr_checkInsidePLR`, with the flag `g_insidePLRInternal` of the process
  unfoldable pub check_inside_plr : Bool → Caller W → Bool
  check_inside_plr internal c = internal || c.area.proc.inside_plr

  -- `memcpy` of the arguments in `plr_checkSyscallArgs`
  unfoldable pub store_args : SyscallArgs → Caller W → Caller W
  store_args args = with_proc (λ p. record p { syscall_args = args })

  -- A call of libc with nothing around it.
  unfoldable pub just_call : LibcCall W → Caller W → ℤ × Caller W
  just_call call c = let (ret, l) = call c.here in (ret, record c { here = l })

  -- The way of one process through an overriding function. It waits for the others after it has stored
  -- its arguments, and once more before a slave goes on.
  unfoldable pub run_wrapper : (internal is_master : Bool) → LibcCall W → Wrapper W → Act W
  unfolding set_inside_plr clear_inside_plr check_inside_plr store_args just_call
  run_wrapper internal is_master libc_call wrapper c =
      if check_inside_plr internal c then some (just_call libc_call c) else (do
        entered ← set_inside_plr c
        let stored = store_args wrapper.args entered
        acted ← if is_master then wrapper.master_act stored else wrapper.slave_act stored
        left ← clear_inside_plr (acted.1)
        some (acted.0, left))
