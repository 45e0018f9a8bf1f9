-- ===== src/Util/Time/Laws.antt =====
-- The functions of timeUtil.c keep the number of nanoseconds.
use plr.Prelude.{
  true, refl, ◌≤◌, ◌%◌, if-true, ap, leb, ◌+◌, ◌*◌, ◌<◌, ◌≡◌, arith, ℤ, pos, negsuc, pos_part,
  neg_part, ◌≤ℤ◌, ◌+ℤ◌, ◌-ℤ◌, ◌*ℤ◌, div_ℤ, mod_ℤ, eq_of_parts, +ℤ_parts, -ℤ_parts, ◌∙◌,
}
use plr.Util.Time.{
  to_long, largest_long, Timespec, billion, million, carry, tspec_add, tspec_add_ms, tspec_sub,
}

-- The time in nanoseconds.
unfoldable pub total_ns : Timespec → ℤ
total_ns t = t.sec *ℤ billion +ℤ t.nsec

-- A time as the system calls take it.
abbrev pub IsNormal : Timespec → Type 0
IsNormal t = (pos 0 ≤ℤ t.sec) × (pos 0 ≤ℤ t.nsec) × (neg_part t.nsec + pos_part t.nsec < billion)

div_mod_parts :
    (a : ℤ)
    → (pos_part a + neg_part (div_ℤ a billion) * billion + neg_part (mod_ℤ a billion)
        ≡ neg_part a + pos_part (div_ℤ a billion) * billion + pos_part (mod_ℤ a billion))
      × (neg_part (mod_ℤ a billion) + pos_part (mod_ℤ a billion) < billion)
      × (pos 0 ≤ℤ a → (pos 0 ≤ℤ div_ℤ a billion) × (pos 0 ≤ℤ mod_ℤ a billion))
unfolding div_ℤ mod_ℤ
div_mod_parts (pos a) = ground arith
div_mod_parts (negsuc a) = ground arith

mul_parts :
    (a : ℤ)
    → pos_part (a *ℤ billion) + neg_part a * billion
      ≡ neg_part (a *ℤ billion) + pos_part a * billion
unfolding ◌*ℤ◌
mul_parts (pos a) = ground arith
mul_parts (negsuc a) = ground arith

-- In the range of `long`.
abbrev pub IsLong : ℤ → Type 0
IsLong v = (neg_part v ≤ largest_long + 1) × (pos_part v ≤ largest_long)

to_long_lem : (v : ℤ) → IsLong v → to_long v ≡ v
to_long_lem (pos n) h =
    let low : n % 18446744073709551616 ≡ n = omega (arith, h.1) in
    let inside : leb (n % 18446744073709551616) largest_long ≡ true = ground (arith, low, h.1) in
    if-true _ _ inside ∙ ap pos low
to_long_lem (negsuc n) h =
    let low : n % 18446744073709551616 ≡ n = omega (arith, h.0) in
    let inside : leb (n % 18446744073709551616) largest_long ≡ true = ground (arith, low, h.0) in
    if-true _ _ inside ∙ ap negsuc low

no_neg_part : (v : ℤ) → pos 0 ≤ℤ v → neg_part v ≡ 0
no_neg_part (pos n) h = refl
no_neg_part (negsuc n) h = absurd (omega arith)

-- The carry changes the representation of a time and not the time.
carry_total :
    (sec nsec : ℤ)
    → IsLong (sec +ℤ div_ℤ nsec billion)
    → total_ns (carry sec nsec) ≡ sec *ℤ billion +ℤ nsec
unfolding carry total_ns
carry_total sec nsec h =
    ap (λ k. k *ℤ billion +ℤ mod_ℤ nsec billion) (to_long_lem (sec +ℤ div_ℤ nsec billion) h)
    ∙ eq_of_parts _ _ (omega (arith, div_mod_parts nsec, mul_parts, +ℤ_parts))

-- `tspecAdd` gives the sum of the two times, whatever their signs.
tspec_add_total :
    (t u : Timespec)
    → IsLong (t.sec +ℤ u.sec)
    → IsLong (t.nsec +ℤ u.nsec)
    → IsLong ((t.sec +ℤ u.sec) +ℤ div_ℤ (t.nsec +ℤ u.nsec) billion)
    → total_ns (tspec_add t u) ≡ total_ns t +ℤ total_ns u
unfolding tspec_add total_ns
tspec_add_total t u sec nsec all =
    (λ i.
      total_ns (carry (to_long_lem (t.sec +ℤ u.sec) sec i) (to_long_lem (t.nsec +ℤ u.nsec) nsec i)))
    ∙ carry_total (t.sec +ℤ u.sec) (t.nsec +ℤ u.nsec) all
    ∙ eq_of_parts _ _ (omega (arith, mul_parts, +ℤ_parts))

-- `tspecSub` gives the difference.
tspec_sub_total :
    (t u : Timespec)
    → IsLong (t.sec -ℤ u.sec)
    → IsLong (t.nsec -ℤ u.nsec)
    → IsLong ((t.sec -ℤ u.sec) +ℤ div_ℤ (t.nsec -ℤ u.nsec) billion)
    → total_ns (tspec_sub t u) ≡ total_ns t -ℤ total_ns u
unfolding tspec_sub total_ns
tspec_sub_total t u sec nsec all =
    (λ i.
      total_ns (carry (to_long_lem (t.sec -ℤ u.sec) sec i) (to_long_lem (t.nsec -ℤ u.nsec) nsec i)))
    ∙ carry_total (t.sec -ℤ u.sec) (t.nsec -ℤ u.nsec) all
    ∙ eq_of_parts _ _ (omega (arith, mul_parts, +ℤ_parts, -ℤ_parts))

carry-IsNormal :
    (sec nsec : ℤ)
    → pos 0 ≤ℤ sec
    → pos 0 ≤ℤ nsec
    → IsLong (sec +ℤ div_ℤ nsec billion)
    → IsNormal (carry sec nsec)
unfolding carry
carry-IsNormal sec nsec p q h =
    let d = div_mod_parts nsec in
    let e = d.2 q in
    (rw (to_long_lem (sec +ℤ div_ℤ nsec billion) h) (omega (arith, e, +ℤ_parts)), e.1, d.1)

ms_parts :
    (m : ℤ)
    → pos_part (m *ℤ million) + neg_part m * million
      ≡ neg_part (m *ℤ million) + pos_part m * million
unfolding ◌*ℤ◌
ms_parts (pos a) = ground arith
ms_parts (negsuc a) = ground arith

-- The deadline of the watchdog, `tspecAddMs` of a normal time and an interval that is not negative,
-- is a normal time and lies exactly the interval later, if neither its nanoseconds before they are
-- carried nor its seconds after that leave the range of `long`.
pub tspec_add_ms_deadline :
    (now : Timespec) (msec : ℤ)
    → IsNormal now
    → pos 0 ≤ℤ msec
    → pos_part (now.nsec +ℤ msec *ℤ million) ≤ largest_long
    → pos_part (now.sec +ℤ div_ℤ (now.nsec +ℤ msec *ℤ million) billion) ≤ largest_long
    → IsNormal (tspec_add_ms now msec)
      × (total_ns (tspec_add_ms now msec) ≡ total_ns now +ℤ msec *ℤ million)
unfolding tspec_add_ms total_ns
tspec_add_ms_deadline now msec n m nsec_fits sec_fits =
    let nsec = now.nsec +ℤ msec *ℤ million in
    let whole : now.sec +ℤ pos 0 ≡ now.sec = eq_of_parts _ _ (omega (arith, +ℤ_parts)) in
    let d = (div_mod_parts nsec).2 (omega (arith, n.1, m, ms_parts, +ℤ_parts)) in
    let ms : pos 0 ≤ℤ msec *ℤ million = omega (arith, m, ms_parts) in
    let both : pos 0 ≤ℤ nsec = omega (arith, n.1, ms, +ℤ_parts) in
    let no_ms = no_neg_part (msec *ℤ million) ms in
    let no_nsec = no_neg_part nsec both in
    let no_sec = no_neg_part (now.sec +ℤ pos 0) (rw whole n.0) in
    let all_sec : pos 0 ≤ℤ now.sec +ℤ div_ℤ nsec billion = omega (arith, n.0, d, +ℤ_parts) in
    let no_all = no_neg_part (now.sec +ℤ div_ℤ nsec billion) all_sec in
    let no_div = no_neg_part (div_ℤ nsec billion) d.0 in
    let long_ms : IsLong (msec *ℤ million) = (
      omega (arith, no_ms),
      omega (arith, no_ms, no_nsec, nsec_fits, no_neg_part now.nsec n.1, +ℤ_parts),
    ) in
    let long_sec : IsLong (now.sec +ℤ pos 0) = (
      omega (arith, no_sec),
      rw whole (omega (arith, no_all, no_div, no_neg_part now.sec n.0, sec_fits, +ℤ_parts)),
    ) in
    let long_nsec : IsLong nsec = (omega (arith, no_nsec), nsec_fits) in
    let long_all : IsLong ((now.sec +ℤ pos 0) +ℤ div_ℤ nsec billion) =
      rw whole (omega (arith, no_all), sec_fits) in
    let product = to_long_lem (msec *ℤ million) long_ms in
    rw (product, tspec_add_ms)
      (
        unfold tspec_add in
            rw (to_long_lem (now.sec +ℤ pos 0) long_sec, to_long_lem nsec long_nsec)
              (carry-IsNormal (now.sec +ℤ pos 0) nsec (omega (arith, n.0, +ℤ_parts))
                (omega (arith, n.1, m, ms_parts, +ℤ_parts)) long_all),
        tspec_add_total now (record { sec = pos 0; nsec = msec *ℤ million }) long_sec long_nsec
              long_all
            ∙ eq_of_parts _ _ (omega (arith, mul_parts, ms_parts, +ℤ_parts)),
      )
