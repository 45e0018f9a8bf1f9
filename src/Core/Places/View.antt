-- ===== src/Core/Places/View.antt =====
-- The abstract view of the state after the parts of a section.
use plr.Prelude.{
  ℕ, zero, suc, ◌≡◌, refl, false, ◌==◌, ltb, if◌then◌else◌, arith, inl, inr, Bool-cases, ap, ◌∙◌,
  fun_ext,
}
use plr.Prelude.{pos, negsuc, ltb_ℤ}
use plr.Core.State.{
  Phase, gone, outside, waiting, forked_in_action, forked_in_watchdog, System, signal, wake,
  modify_proc,
}
use plr.Core.Barrier.{other_process, signal_all, signal_other, reset_all, release}
use plr.Core.Places.{kind, Place, Places, places}
use plr.Core.Places.Release.{unflag, flip}

-- A place of the view from the two records behind it.
abbrev pub place_of : System → ℕ → Place
place_of s j = (places s).place j

kind-wake : (w : ℕ) (ph : Phase) → kind (wake w ph) ≡ kind ph
kind-wake w gone = refl
kind-wake w outside = refl
kind-wake w (waiting v e k c) = ground arith
kind-wake w (forked_in_action p v) = refl
kind-wake w (forked_in_watchdog p v u c) = refl

signal_place : (w i : ℕ) (s : System) (j : ℕ) → place_of (signal w i s) j ≡ place_of s j
unfolding signal
signal_place w i s j = ground (arith, kind-wake w (s.process i).phase)

with_place : Places → (ℕ → Place) → Places
with_place a f = record a { place = f }

-- A signal changes nothing of the view.
pub places-signal : (w i : ℕ) (s : System) → places (signal w i s) ≡ places s
unfolding signal with_place
places-signal w i s = ap (with_place (places s)) (fun_ext (signal_place w i s))

pub places-signal_all : (n w : ℕ) (s : System) → places (signal_all n w s) ≡ places s
unfolding signal_all
places-signal_all zero w s = refl
places-signal_all (suc n) w s = places-signal w n (signal_all n w s) ∙ places-signal_all n w s

pub places-signal_other : (me w : ℕ) (s : System) → places (signal_other me w s) ≡ places s
unfolding signal_other
places-signal_other me w s = elim (Bool-cases (ltb (other_process me) s.plr.n_proc)) [
  | inl e ↦ rw e (places-signal w (other_process me) s)
  | inr e ↦ rw e refl
]

abbrev unflag_below : ℕ → Places → Places
unflag_below n a = record a { place = λ j. if ltb j n then unflag (a.place j) else a.place j }

abbrev unflag_one : ℕ → Places → Places
unflag_one n a = record a { place = λ j. if j == n then unflag (a.place n) else a.place j }

unflag_below-zero : (a : Places) → a ≡ unflag_below 0 a
unfolding with_place
unflag_below-zero a = ap (with_place a) (fun_ext (λ j. ground arith))

unflag_below-suc : (n : ℕ) (a : Places) → unflag_one n (unflag_below n a) ≡ unflag_below (suc n) a
unfolding with_place
unflag_below-suc n a = ap (with_place a) (fun_ext (λ j. ground arith))

clear_flag : ℕ → System → System
clear_flag n s = modify_proc n (λ p. record p { wait_idx = negsuc 0 }) s

places-clear_flag : (n : ℕ) (s : System) → places (clear_flag n s) ≡ unflag_one n (places s)
unfolding with_place clear_flag
places-clear_flag n s = ap (with_place (places s)) (fun_ext (λ j. ground arith))

places-reset_all : (n w : ℕ) (s : System) → places (reset_all n w s) ≡ unflag_below n (places s)
unfolding reset_all clear_flag
places-reset_all zero w s = unflag_below-zero (places s)
places-reset_all (suc n) w s =
    places-clear_flag n (signal w n (reset_all n w s))
    ∙ ap (unflag_one n) (places-signal w n (reset_all n w s) ∙ places-reset_all n w s)
    ∙ unflag_below-suc n (places s)

pub places-release :
    (me w : ℕ) (s : System)
    → ltb_ℤ (s.all_proc me).wait_idx (pos 0) ≡ false
    → places (release me w s) ≡ flip (places s)
unfolding release
places-release me w s h = rw h (places-reset_all s.plr.n_proc w _)
