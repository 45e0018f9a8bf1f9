-- ===== src/Preload/ReadWrite/Detects.antt =====
-- One wrong byte in the buffer of one process, from the call of `write` to the vote.
use plr.Prelude.{ℕ, ◌<◌, ◌≡◌, ◌≢◌, refl, List, ◌∷◌, ◌++◌, ℤ, pos, arith, ap, sym, ◌∙◌}
use plr.Compare.{SyscallArgs}
use plr.SharedData.ExtraShm.{SystemCalls}
use plr.Core.Vote.{find_bad_proc}
use plr.Core.Majority.{find_bad_proc_majority}
use plr.Preload.Crc.{crc32}
use plr.Preload.Crc.Detects.{crc32-detects}
use plr.Preload.Wrapper.{Local, Libc, bytes}
use plr.Preload.ReadWrite.{write_wrapper}

module _ {W : Type 0} (libc : Libc W) (calls : SystemCalls) (off_write : ℕ) (fd : ℤ)
    (count : ℕ) where
  abbrev pub recorded : Local W → SyscallArgs
  recorded l = (write_wrapper libc calls off_write fd count l).args

  pub recorded_same : (l m : Local W) → bytes count l ≡ bytes count m → recorded l ≡ recorded m
  unfolding write_wrapper
  recorded_same l m e = rw (e, write_wrapper) refl

  recorded_hash : (l : Local W) → (recorded l).arg1 ≡ crc32 0 (bytes count l)
  unfolding write_wrapper
  recorded_hash l = refl

  -- If three processes call `write` with the same descriptor and count, and of their buffers two hold
  -- the same bytes and the third differs from them in one byte only, then the vote names the process
  -- with the third buffer, whichever of the three it is.
  pub write_wrapper-find_bad_proc :
      (l m bad : Local W) (before after : List ℕ) (x y : ℕ)
      → bytes count l ≡ before ++ x ∷ after
      → bytes count m ≡ before ++ x ∷ after
      → bytes count bad ≡ before ++ y ∷ after
      → x < 256
      → y < 256
      → x ≢ y
      → (find_bad_proc 3 (recorded bad) (recorded l) (recorded m) ≡ pos 0)
        × (find_bad_proc 3 (recorded l) (recorded bad) (recorded m) ≡ pos 1)
        × (find_bad_proc 3 (recorded l) (recorded m) (recorded bad) ≡ pos 2)
  write_wrapper-find_bad_proc l m bad before after x y good good' wrong p q ne =
      let same = recorded_same l m (good ∙ sym good') in
      let other : recorded l ≢ recorded bad = λ e.
        crc32-detects 0 before after x y (omega arith) p q ne (
          sym (recorded_hash l ∙ ap (crc32 0) good)
          ∙ ap (λ (a : SyscallArgs). a.arg1) e
          ∙ recorded_hash bad
          ∙ ap (crc32 0) wrong) in
      let other' : recorded bad ≢ recorded l = λ e. other (sym e) in
      (
        (find_bad_proc_majority (recorded bad) (recorded l) (recorded m)).1.1 (other', same),
        (find_bad_proc_majority (recorded l) (recorded bad) (recorded m)).2.1 (other, same),
        (find_bad_proc_majority (recorded l) (recorded m) (recorded bad)).3.1 (same, other),
      )
