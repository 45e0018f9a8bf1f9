-- ===== src/Util/Time.antt =====
-- plrCommon/timeUtil.c. Seconds and nanoseconds are `long`; a result outside of its range wraps around, as it
-- does with the compilers for Linux. Division is that of C, rounded towards zero.
pub mod Laws
use plr.Prelude.{
  ℕ, ◌%◌, ◌-◌, leb, negsuc, if◌then◌else◌, ℤ, pos, ltb_ℤ, ◌+ℤ◌, ◌-ℤ◌, ◌*ℤ◌, div_ℤ, mod_ℤ,
}

pub record Timespec : Type 0 where
  pub sec : ℤ
  pub nsec : ℤ

abbrev pub billion : ℕ
billion = 1000000000

abbrev pub million : ℕ
million = 1000000

-- The largest `long`
abbrev pub largest_long : ℕ
largest_long = 9223372036854775807

-- What an operation on `long` leaves of its result.
abbrev pub to_long : ℤ → ℤ
to_long (pos n) =
    let low = n % 18446744073709551616 in
    if leb low largest_long then pos low else negsuc (18446744073709551615 - low)
to_long (negsuc n) =
    let low = n % 18446744073709551616 in
    if leb low largest_long then negsuc low else pos (18446744073709551615 - low)

-- Full seconds of the nanoseconds are shifted to the seconds.
unfoldable pub carry : ℤ → ℤ → Timespec
carry sec nsec = record { sec = to_long (sec +ℤ div_ℤ nsec billion); nsec = mod_ℤ nsec billion }

-- `tspecNew`
unfoldable pub tspec_new : ℤ → ℤ → Timespec
unfolding carry
tspec_new sec nsec =
    carry (if ltb_ℤ sec (pos 0) then pos 0 else sec) (if ltb_ℤ nsec (pos 0) then pos 0 else nsec)

-- `tspecNewMs`
unfoldable pub tspec_new_ms : ℤ → Timespec
tspec_new_ms msec = record { sec = div_ℤ msec 1000; nsec = mod_ℤ msec 1000 *ℤ million }

-- `tspecAdd`
unfoldable pub tspec_add : Timespec → Timespec → Timespec
unfolding carry
tspec_add t u = carry (to_long (t.sec +ℤ u.sec)) (to_long (t.nsec +ℤ u.nsec))

-- `tspecAddMs`: the whole interval is given as nanoseconds.
unfoldable pub tspec_add_ms : Timespec → ℤ → Timespec
unfolding tspec_add
tspec_add_ms t msec = tspec_add t (record { sec = pos 0; nsec = to_long (msec *ℤ million) })

-- `tspecSub`
unfoldable pub tspec_sub : Timespec → Timespec → Timespec
unfolding carry
tspec_sub t u = carry (to_long (t.sec -ℤ u.sec)) (to_long (t.nsec -ℤ u.nsec))
