-- ===== src/Core/Reach.antt =====
-- Runs of the processes: sections in any order, timeouts at any time, and processes that end.
pub mod Safety
pub mod Drain
pub mod Progress
use plr.Prelude.{
  ℕ, ◌<◌, ◌≡◌, refl, ◌⊎◌, inl, inr, Option, Bool, true, false, ◌||◌, arith, ap, sym, ◌∙◌,
}
use plr.Prelude.{ℤ, pos, negsuc}
use mathlib.Core.Bool.{false≢true}
use plr.Core.State.{
  Call, Phase, gone, outside, waiting, System, Run, done, ended, out_of_fuel, set_phase,
}
use plr.Core.Wait.{wait_barrier, resume}
use plr.Core.Places.{Kind, kind, absent, free, Places, places, Good, FreshPids}
use plr.Core.Places.Move.{Moved, Good-put}
use plr.Core.Invariant.Middle.{GoodRun, as_at, places-set_phase}
use plr.Core.Invariant.Exit.{ActionOk}
use plr.Core.Invariant.Sections.{PhaseOk, PromptFor, at_fits, wait_barrier-Good, resume-Good}

-- The state in which a section ends.
abbrev pub Ends : Run (Unit {0}) → System → Type 0
Ends (done _ u) t = u ≡ t
Ends (ended u) t = u ≡ t
Ends out_of_fuel t = ⊥

pub data Step (fork : ℕ → Option ℕ) (s t : System) : Type 0 where
  -- a process calls `plr_waitBarrier`
  enter :
      (i : ℕ) (call : Call)
      → i < s.plr.n_proc
      → s.lock_lost ≡ false
      → (s.process i).phase ≡ outside
      → ActionOk call.action
      → Ends (wait_barrier fork i call s) t
      → Step fork s t
  -- a process takes the lock again; a wake-up may be a signal, a timeout or spurious
  proceed :
      (i : ℕ) (timed_out : Bool)
      → i < s.plr.n_proc
      → s.lock_lost ≡ false
      → PhaseOk (s.process i).phase
      → Ends (resume fork i timed_out s) t
      → Step fork s t
  -- a process ends outside of the barrier; one that is stuck there just takes no step
  crash :
      (i : ℕ)
      → i < s.plr.n_proc
      → (s.process i).phase ≡ outside
      → t ≡ set_phase i gone s
      → Step fork s t

pub data Reach (fork : ℕ → Option ℕ) (s : System) : System → Type 0 where
  here : Reach fork s s
  next : {t u : System} → Reach fork s t → Step fork t u → Reach fork s u

-- In a step in which the watchdog of a waiting process has expired, or in which the child of such a
-- process joins the barrier, all processes that were released before have left the barrier.
abbrev pub IsPrompt : {fork : ℕ → Option ℕ} {s t : System} → Step fork s t → Type 0
IsPrompt {fork} {s} {t} (enter i call lt ok ph a e) = Unit
IsPrompt {fork} {s} {t} (proceed i timed_out lt ok a e) =
    PromptFor s i timed_out (s.process i).phase
IsPrompt {fork} {s} {t} (crash i lt ph e) = Unit

-- All steps of a run are like that.
abbrev pub AllPrompt : {fork : ℕ → Option ℕ} {s t : System} → Reach fork s t → Type 0
AllPrompt here = Unit
AllPrompt (next r st) = AllPrompt r × IsPrompt st

-- A state in which the lock can still be taken is good.
abbrev pub Sound : (ℕ → ℕ) → System → Type 0
Sound limit s = (s.lock_lost ≡ true) ⊎ Good limit (places s)

Ends-Sound :
    (limit : ℕ → ℕ) (r : Run (Unit {0})) (t : System) → GoodRun limit r → Ends r t → Sound limit t
Ends-Sound limit (done _ u) t g e = rw (← e) (inr g)
Ends-Sound limit (ended u) t g e = rw (← e) g
Ends-Sound limit out_of_fuel t g e = absurd e

module _ (fork : ℕ → Option ℕ) (limit : ℕ → ℕ) (fresh : FreshPids fork limit) where
  crash-Good :
      (s : System) (i : ℕ)
      → i < s.plr.n_proc
      → (s.process i).phase ≡ outside
      → Good limit (places s)
      → Good limit (places (set_phase i gone s))
  crash-Good s i lt e h =
      Good-put h i lt
        (record {
          same_n = refl;
          same_cur = refl;
          same = λ j p q. ground arith;
          cnt = λ k. ground arith;
        })
        {p = record ((places s).place i) { at = absent }} (ground arith) refl
        (at_fits fork limit fresh i s h lt free (ap kind e)).1 (inl refl) (λ w v c. cc) refl

  pub Step-Sound :
      {s t : System} → Sound limit s → (st : Step fork s t) → IsPrompt st → Sound limit t
  Step-Sound (inl lost) (enter i call lt ok ph a e) p = absurd (false≢true (sym ok ∙ lost))
  Step-Sound {s} {t} (inr h) (enter i call lt ok ph a e) p =
      Ends-Sound limit (wait_barrier fork i call s) t
        (wait_barrier-Good fork limit fresh i s h lt call a ph) e
  Step-Sound (inl lost) (proceed i b lt ok a e) p = absurd (false≢true (sym ok ∙ lost))
  Step-Sound {s} {t} (inr h) (proceed i b lt ok a e) p =
      Ends-Sound limit (resume fork i b s) t (resume-Good fork limit fresh i s h lt b a p) e
  Step-Sound (inl lost) (crash i lt ph e) p = rw e (inl lost)
  Step-Sound {s} (inr h) (crash i lt ph e) p = rw e (inr (crash-Good s i lt ph h))

  pub Reach-Sound :
      {s t : System} → Sound limit s → (r : Reach fork s t) → AllPrompt r → Sound limit t
  Reach-Sound h here p = h
  Reach-Sound h (next r st) p = Step-Sound (Reach-Sound h r p.0) st p.1
