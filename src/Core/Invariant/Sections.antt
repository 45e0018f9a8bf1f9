-- ===== src/Core/Invariant/Sections.antt =====
-- Every critical section keeps the invariant and comes to an end.
use plr.Prelude.{
  ℕ, ◌<◌, ◌≡◌, refl, inl, inr, Option, Bool, true, false, Bool-cases, ◌||◌, ◌&&◌, ◌==◌, ltb, not,
  if◌then◌else◌, arith, sym, ap, fun_ext, pos, negsuc, ltb_ℤ, ℕ_discrete,
}
use mathlib.Core.Path.{subst}
use mathlib.Core.Bool.{false≢true}
use plr.SharedData.{PerProcData, init_proc_data_as_copy}
use plr.Core.State.{
  Call, Phase, gone, outside, waiting, forked_in_action, forked_in_watchdog, System, modify_proc,
  add_wait_cnt, exit_locked,
}
use plr.Core.Barrier.{signal_all, set_wait_idx, set_restoring, leave, release}
use plr.Core.Wait.{wait_loop, wait_barrier, rounds, resume_phase, resume}
use plr.Core.Places.{
  Kind, kind, free, inside, child_of_action, child_of_watchdog, FitsAt, Places, places, Good,
  FreshPids,
}
use plr.Core.Places.Move.{NoOther, Good-put}
use plr.Core.Places.View.{places-signal_all}
use plr.Core.Invariant.Middle.{as_at, GoodRun, Middle, leave-Good}
use plr.Core.Invariant.Exit.{ActionOk}
use plr.Core.Invariant.Watchdog.{Prompt}
use plr.Core.Invariant.Loop.{wait_loop-Good}

-- The action functions of the caller, if any, leave the barrier's fields alone.
abbrev pub PhaseOk : Phase → Type 0
PhaseOk (waiting w e k c) = ActionOk c.action
PhaseOk (forked_in_watchdog p w v c) = ActionOk c.action
PhaseOk gone = Unit
PhaseOk outside = Unit
PhaseOk (forked_in_action p w) = Unit

-- When the watchdog of process `me`, which still waits, expires in the next section, every process
-- that has been released has left the barrier.
abbrev pub PromptFor : System → ℕ → Bool → Phase → Type 0
PromptFor s me timed_out (waiting w expired k c) =
    (expired || timed_out) ≡ true
    → ltb_ℤ (s.all_proc me).wait_idx (pos 0) ≡ false
    → Prompt (places s)
PromptFor s me timed_out (forked_in_watchdog p w v c) = Prompt (places s)
PromptFor s me timed_out gone = Unit
PromptFor s me timed_out outside = Unit
PromptFor s me timed_out (forked_in_action p w) = Unit

pub as_at_self : (i : ℕ) (k : Kind) (a : Places) → (a.place i).at ≡ k → as_at i k a ≡ a
as_at_self i k a e = ap (λ f. record a { place = f }) (fun_ext (λ j. ground arith))

module _ (fork : ℕ → Option ℕ) (limit : ℕ → ℕ) (fresh : FreshPids fork limit) (me : ℕ) (s : System)
    (h : Good limit (places s)) (lt : me < s.plr.n_proc) where
  pub at_fits :
      (k : Kind)
      → kind (s.process me).phase ≡ k
      → FitsAt s.plr.cur_wait_idx s.plr.restoring
          (s.all_proc me).pid
          (s.all_proc me).wait_idx
          (s.process me).self
          k
  at_fits k e = rw e at (h.fits me lt)

  unfoldable pub entered : System
  entered = add_wait_cnt s.plr.cur_wait_idx (set_wait_idx me (pos s.plr.cur_wait_idx) s)

  pub entered-Middle : kind (s.process me).phase ≡ free → Middle limit me s.plr.cur_wait_idx entered
  unfolding entered
  entered-Middle e =
      Good-put h me lt
        (record {
          same_n = refl;
          same_cur = refl;
          same = λ j p q. ground arith;
          cnt = λ k. ground arith;
        })
        {p = record {
          pid = (s.all_proc me).pid;
          flag = pos s.plr.cur_wait_idx;
          self = (s.process me).self;
          at = inside s.plr.cur_wait_idx;
        }}
        (ground arith) refl ((at_fits free e).1, inr (refl, refl)) (inl refl) (λ w v c. cc) refl

  -- The first section of `plr_waitBarrier`.
  pub wait_barrier-Good :
      (call : Call)
      → ActionOk call.action
      → (s.process me).phase ≡ outside
      → GoodRun limit (wait_barrier fork me call s)
  unfolding wait_barrier exit_locked entered
  wait_barrier-Good call ok e =
      elim (Bool-cases (not ((s.all_proc me).pid == (s.process me).self))) [
        | inl f ↦ rw (f, wait_barrier) h
        | inr f ↦ elim (Bool-cases (ltb s.plr.n_proc (s.plr.cond_wait_cnt s.plr.cur_wait_idx))) [
          | inl g ↦ rw (f, g, wait_barrier) (inl refl)
          | inr g ↦
              rw (f, g, wait_barrier)
                (loop (
                  ltb 1 (entered.plr.cond_wait_cnt s.plr.cur_wait_idx)
                  && ltb (entered.plr.cond_wait_cnt s.plr.cur_wait_idx) s.plr.n_proc))
        ]
      ]
    where
      signalled : places (signal_all s.plr.n_proc s.plr.cur_wait_idx entered) ≡ places entered
      signalled = places-signal_all s.plr.n_proc s.plr.cur_wait_idx entered

      m : Middle limit me s.plr.cur_wait_idx entered
      m = entered-Middle (ap kind e)

      loop :
          (b : Bool)
          → GoodRun limit (
              wait_loop fork rounds me s.plr.cur_wait_idx false call
                (if b then signal_all s.plr.n_proc s.plr.cur_wait_idx entered else entered))
      loop false =
          wait_loop-Good fork limit fresh me s.plr.cur_wait_idx call ok entered m lt false
            (λ x _. absurd (false≢true x)) 0
      loop true =
          wait_loop-Good fork limit fresh me s.plr.cur_wait_idx call ok
            (signal_all s.plr.n_proc s.plr.cur_wait_idx entered)
            (subst (λ a. Good limit (as_at me (inside s.plr.cur_wait_idx) a)) (sym signalled) m)
            (rw (ap (λ (a : Places). a.n) signalled) lt) false (λ x _. absurd (false≢true x)) 0

  born : PerProcData → System
  born parent = modify_proc me (λ p. init_proc_data_as_copy (s.process me).self p parent) s

  born-Middle :
      (parent : PerProcData) (w : ℕ)
      → kind (s.process me).phase ≡ child_of_action w
      → Middle limit me w (born parent)
  unfolding born init_proc_data_as_copy
  born-Middle parent w e =
      Good-put h me lt
        (record {
          same_n = refl;
          same_cur = refl;
          same = λ j p q. ground arith;
          cnt = λ k. ground arith;
        })
        {p = record {
          pid = (s.process me).self;
          flag = negsuc 0;
          self = (s.process me).self;
          at = inside w;
        }}
        (ground arith) refl (refl, inl (refl, (at_fits (child_of_action w) e).1)) (inl refl)
        (λ w v c. cc) refl

  joined : PerProcData → ℕ → System
  unfolding born
  joined parent captured =
      set_restoring false
        (add_wait_cnt captured (set_wait_idx me (pos (born parent).plr.cur_wait_idx) (born parent)))

  joined-Middle :
      (parent : PerProcData) (w captured : ℕ)
      → kind (s.process me).phase ≡ child_of_watchdog w captured
      → Middle limit me w (joined parent captured)
  unfolding joined init_proc_data_as_copy
  joined-Middle parent w captured e =
      let f = at_fits (child_of_watchdog w captured) e in
      Good-put h me lt
        (record {
          same_n = refl;
          same_cur = refl;
          same = λ j p q. ground arith;
          cnt = λ k. ground arith;
        })
        {p = record {
          pid = (s.process me).self;
          flag = pos s.plr.cur_wait_idx;
          self = (s.process me).self;
          at = inside w;
        }}
        (ground arith) refl (refl, inr (ap pos (sym f.0), f.0)) (inr (inr alone)) (λ w v c. cc) refl
    where
      alone : NoOther me (places s)
      alone j x v p q c = q (h.one_child j me x v w captured p lt c e)

  joined-Prompt :
      (parent : PerProcData) (captured : ℕ)
      → Prompt (places s)
      → Prompt (places (joined parent captured))
  unfolding joined init_proc_data_as_copy
  joined-Prompt parent captured prompt j p e = elim (ℕ_discrete j me) [
    | yes q ↦ absurd (ground arith)
    | no q ↦ prompt j p (ground arith)
  ]

  pub resume_phase-Good :
      (timed_out : Bool) (ph : Phase)
      → PhaseOk ph
      → (s.process me).phase ≡ ph
      → PromptFor s me timed_out ph
      → GoodRun limit (resume_phase fork me timed_out ph s)
  unfolding resume_phase born
  resume_phase-Good timed_out gone ok e prompt = h
  resume_phase-Good timed_out outside ok e prompt = h
  resume_phase-Good timed_out (waiting w x k call) ok e prompt =
      wait_loop-Good fork limit fresh me w call ok s
        (subst (Good limit) (sym (as_at_self me (inside w) (places s) (ap kind e))) h) lt
        (x || timed_out) prompt 0
  resume_phase-Good timed_out (forked_in_action parent w) ok e prompt =
      subst (λ u. GoodRun limit (leave me w u)) (sym released)
        (leave-Good limit me w (born parent) (born-Middle parent w (ap kind e)) lt flag)
    where
      flag : ((born parent).all_proc me).wait_idx ≡ negsuc 0
      flag = unfold born init_proc_data_as_copy in ground arith

      released : release me w (born parent) ≡ born parent
      released = unfold release in rw flag refl
  resume_phase-Good timed_out (forked_in_watchdog parent w v call) ok e prompt =
      unfold joined in
      wait_loop-Good fork limit fresh me w call ok (joined parent v)
        (joined-Middle parent w v (ap kind e)) lt true (λ _ _. joined-Prompt parent v prompt) 0

  -- A section of a process that has waited, or of a new child.
  pub resume-Good :
      (timed_out : Bool)
      → PhaseOk (s.process me).phase
      → PromptFor s me timed_out (s.process me).phase
      → GoodRun limit (resume fork me timed_out s)
  unfolding resume
  resume-Good timed_out ok prompt = resume_phase-Good timed_out (s.process me).phase ok refl prompt
