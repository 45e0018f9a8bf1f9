-- ===== src/Core/Invariant/Exit.antt =====
-- The top of the wait loop of `plr_waitBarrier` in the middle of a section.
use plr.Prelude.{
  ℕ, ◌<◌, ◌≡◌, refl, ◌⊎◌, inl, inr, Option, Bool, true, false, Bool-cases, ◌==◌, ==_iff,
  if◌then◌else◌, ◌&&◌, arith, sym, ap, ◌∙◌, ℤ, pos, negsuc, pos_part, ltb_ℤ, eq_ℤ, update, fun_ext,
}
use mathlib.Core.Path.{subst}
use plr.SharedData.{PerProcData, PlrData}
use plr.Core.State.{
  WaitActionType, any, master, slave, Reply, returns, exits, Action, null, check_syscall_args, run,
  Call, forked_in_action, System, done, ◌>>=◌, pure, exit_locked,
}
use plr.Core.Replace.{replace_process_idx}
use plr.Core.Vote.{act_on_bad_proc, check_syscall_args_act, find_bad_proc}
use plr.Core.Barrier.{release}
use plr.Core.Wait.{may_run, take_reply, use_result, call_action, barrier_action, check_exit}
use plr.Core.Places.{inside, Places, places, Good, FreshPids}
use plr.Core.Places.View.{places-signal, places-signal_other}
use plr.Core.Invariant.Middle.{as_at, RunOk, RunOk-bind, Middle, own, exit_barrier-Good}
use plr.Core.Invariant.Replaced.{Replaced, replace-Replaced}
use plr.Core.Invariant.Ready.{Ready, release-Middle, full-Ready, all_inside, Replaced-Ready}

-- What an action function of a caller leaves alone in the records.
pub record KeepsBarrier (act : PlrData → PerProcData → Reply) : Type 0 where
  pub keeps :
      (plr plr' : PlrData) (proc proc' : PerProcData) (ret : ℤ)
      → act plr proc ≡ returns ret plr' proc'
      → (plr'.n_proc ≡ plr.n_proc)
        × (plr'.cur_wait_idx ≡ plr.cur_wait_idx)
        × (plr'.cond_wait_cnt ≡ plr.cond_wait_cnt)
        × (plr'.restoring ≡ plr.restoring)
        × (proc'.pid ≡ proc.pid)
        × (proc'.wait_idx ≡ proc.wait_idx)

abbrev pub ActionOk : Action → Type 0
ActionOk null = Unit
ActionOk check_syscall_args = Unit
ActionOk (run act) = KeepsBarrier act

module _ (fork : ℕ → Option ℕ) (limit : ℕ → ℕ) (fresh : FreshPids fork limit) (me w : ℕ)
    (s : System) (h : Middle limit me w s) (lt : me < s.plr.n_proc) where
  -- After an action: it has succeeded and the barrier can be released, or nothing has changed.
  abbrev pub ActedAs : ℤ → System → Type 0
  ActedAs ret t =
      ((t.plr.n_proc ≡ s.plr.n_proc) × (ret ≡ pos 0) × Ready limit me w (places t))
      ⊎ ((eq_ℤ ret (pos 0) ≡ false) × (places t ≡ places s))

  abbrev pub Acted : Bool → System → Type 0
  Acted success t =
      ((t.plr.n_proc ≡ s.plr.n_proc) × (success ≡ true) × Ready limit me w (places t))
      ⊎ ((success ≡ false) × (places t ≡ places s))

  pub Middle-same : (t : System) → places t ≡ places s → Middle limit me w t
  Middle-same t e = subst (λ a. Good limit (as_at me (inside w) a)) (sym e) h

  pub n_same : (t : System) → places t ≡ places s → t.plr.n_proc ≡ s.plr.n_proc
  n_same t e = ap (λ (a : Places). a.n) e

  pub lt_same : (t : System) → places t ≡ places s → me < t.plr.n_proc
  lt_same t e = rw (n_same t e) lt

  use_result-Acted :
      (ret : ℤ) (t : System) → ActedAs ret t → RunOk limit Acted (use_result me w ret t)
  unfolding use_result
  use_result-Acted ret t (inl (n, e, r)) = rw (e, use_result) (inl (n, refl, r))
  use_result-Acted ret t (inr (e, p)) = elim (Bool-cases (ltb_ℤ ret (pos 0))) [
    | inl neg ↦
        rw (neg, use_result) (exit_barrier-Good limit me w t (Middle-same t p) (lt_same t p) Acted)
    | inr more ↦ rw (more, e, use_result) (inr (refl, places-signal_other me w t ∙ p))
  ]

  -- The action is run in the state itself, or signals are sent.
  abbrev Chosen : Bool → System → Type 0
  Chosen runs t = ((runs ≡ true) × (t ≡ s)) ⊎ ((runs ≡ false) × (places t ≡ places s))

  may_run-Chosen : (at : WaitActionType) → RunOk limit Chosen (may_run me w at s)
  unfolding may_run
  may_run-Chosen any = inl (refl, refl)
  may_run-Chosen master = elim (Bool-cases (me == 0)) [
    | inl e ↦ rw (e, may_run) (inl (refl, refl))
    | inr e ↦ rw (e, may_run) (inr (refl, places-signal w 0 s))
  ]
  may_run-Chosen slave = elim (Bool-cases (me == 0)) [
    | inl e ↦ rw (e, may_run) (inr (refl, places-signal w 1 s))
    | inr e ↦ rw (e, may_run) (inl (refl, refl))
  ]

  module _ (flagged : ltb_ℤ (s.all_proc me).wait_idx (pos 0) ≡ false)
      (full : s.plr.cond_wait_cnt w ≡ s.plr.n_proc) where
    ready : Ready limit me w (places s)
    ready = full-Ready limit me w s h lt flagged full

    after_replace :
        (v : ℕ)
        → v < s.plr.n_proc
        → (ret : ℤ) (t : System)
        → (ret ≡ pos 0) × Replaced limit me v (λ parent. forked_in_action parent w) s t
        → RunOk limit ActedAs ((if ltb_ℤ ret (pos 0) then pure (negsuc 0) else pure (pos 0)) t)
    after_replace v lv ret t (e, r) = rw e (
        inl (
          ap (λ (p : PlrData). p.n_proc) r.same_plr,
          refl,
          Replaced-Ready limit me w s h lt flagged full v t lv r,
        ))

    replace-Acted :
        (bad : ℤ)
        → pos_part bad < s.plr.n_proc
        → RunOk limit ActedAs (
            (replace_process_idx fork me (λ parent. forked_in_action parent w) (pos_part bad)
                >>= λ ret. if ltb_ℤ ret (pos 0) then pure (negsuc 0) else pure (pos 0))
              s)
    replace-Acted bad lv =
        RunOk-bind limit
          (λ ret t.
            (ret ≡ pos 0)
            × Replaced limit me (pos_part bad) (λ parent. forked_in_action parent w) s t)
          ActedAs (replace_process_idx fork me (λ parent. forked_in_action parent w) (pos_part bad))
          (λ ret. if ltb_ℤ ret (pos 0) then pure (negsuc 0) else pure (pos 0)) s
          (replace-Replaced fork limit fresh me w _ (pos_part bad) s h lt lv
            (ground (arith, all_inside limit me w s h lt flagged full (pos_part bad) lv)))
          (after_replace (pos_part bad) lv)

    act-Acted :
        (bad : ℤ)
        → RunOk limit ActedAs (act_on_bad_proc fork me (λ parent. forked_in_action parent w) bad s)
    unfolding act_on_bad_proc
    act-Acted bad = elim (Bool-cases (eq_ℤ bad (negsuc 0))) [
      | inl e ↦ rw (e, act_on_bad_proc) (inl (refl, refl, ready))
      | inr e ↦ elim (Bool-cases (ltb_ℤ (negsuc 0) bad && ltb_ℤ bad (pos s.plr.n_proc))) [
        | inl r ↦ elim (Bool-cases (me == pos_part bad)) [
          | inl q ↦ rw (e, r, q, act_on_bad_proc) (inr (refl, refl))
          | inr q ↦ rw (e, r, q, act_on_bad_proc) (replace-Acted bad (ground arith))
        ]
        | inr r ↦ rw (e, r, act_on_bad_proc) (inr (refl, refl))
      ]
    ]

    check_act-Acted :
        RunOk limit ActedAs (check_syscall_args_act fork me (λ parent. forked_in_action parent w) s)
    unfolding check_syscall_args_act exit_locked
    check_act-Acted = elim (Bool-cases (s.plr.n_proc == 3)) [
      | inl e ↦
          rw (e, check_syscall_args_act)
            (act-Acted (
              find_bad_proc s.plr.n_proc (s.all_proc 0).syscall_args (s.all_proc 1).syscall_args
                (s.all_proc 2).syscall_args))
      | inr e ↦ rw (e, check_syscall_args_act) (inl refl)
    ]

    replied : PlrData → PerProcData → System
    replied plr proc = record s { plr = plr; all_proc = update s.all_proc me proc }

    replied_place :
        (plr : PlrData) (proc : PerProcData)
        → proc.pid ≡ (s.all_proc me).pid
        → proc.wait_idx ≡ (s.all_proc me).wait_idx
        → (j : ℕ) → (places (replied plr proc)).place j ≡ (places s).place j
    unfolding replied
    replied_place plr proc p f j = elim (Bool-cases (j == me)) [
      | inl e ↦ ground arith
      | inr e ↦ ground arith
    ]

    replied-same :
        (act : PlrData → PerProcData → Reply) (ret : ℤ) (plr : PlrData) (proc : PerProcData)
        → KeepsBarrier act
        → act s.plr (s.all_proc me) ≡ returns ret plr proc
        → places (replied plr proc) ≡ places s
    unfolding replied
    replied-same act ret plr proc k e =
        let c = k.keeps s.plr plr (s.all_proc me) proc ret e in
        let at = replied_place plr proc c.4 c.5 in
        λ i. record {
          n = c.0 i;
          cur = c.1 i;
          cnt = c.2 i;
          restoring = c.3 i;
          forks = s.forks;
          place = fun_ext at i;
        }

    reply-Acted :
        (act : PlrData → PerProcData → Reply)
        → KeepsBarrier act
        → (reply : Reply) → act s.plr (s.all_proc me) ≡ reply
        → RunOk limit ActedAs (take_reply me reply s)
    unfolding take_reply exit_locked replied
    reply-Acted act k exits e = inl refl
    reply-Acted act k (returns ret plr proc) e = elim (Bool-cases (eq_ℤ ret (pos 0))) [
      | inl z ↦ inl (
        n_same (replied plr proc) (replied-same act ret plr proc k e),
        ground arith,
        subst (Ready limit me w) (sym (replied-same act ret plr proc k e)) ready,
      )
      | inr z ↦ inr (z, replied-same act ret plr proc k e)
    ]

    call_action-Acted :
        (act : Action) → ActionOk act → RunOk limit Acted (call_action fork me w act s)
    unfolding call_action
    call_action-Acted null k = inl (refl, refl, ready)
    call_action-Acted check_syscall_args k =
        RunOk-bind limit ActedAs Acted
          (check_syscall_args_act fork me (λ parent. forked_in_action parent w)) (use_result me w) s
          check_act-Acted use_result-Acted
    call_action-Acted (run act) k =
        RunOk-bind limit ActedAs Acted (take_reply me (act s.plr (s.all_proc me))) (use_result me w)
          s (reply-Acted act k (act s.plr (s.all_proc me)) refl) use_result-Acted

    Chosen-Acted :
        (act : Action)
        → ActionOk act
        → (runs : Bool) (t : System) → Chosen runs t
        → RunOk limit Acted ((if runs then call_action fork me w act else pure false) t)
    Chosen-Acted act ok runs t (inl (e, same)) = rw (e, same) (call_action-Acted act ok)
    Chosen-Acted act ok runs t (inr (e, same)) = rw e (inr (refl, same))

    run_action-Acted :
        (act : Action) (at : WaitActionType)
        → ActionOk act
        → RunOk limit Acted
            ((may_run me w at >>= λ runs. if runs then call_action fork me w act else pure false) s)
    run_action-Acted act at ok =
        RunOk-bind limit Chosen Acted (may_run me w at)
          (λ runs. if runs then call_action fork me w act else pure false) s (may_run-Chosen at)
          (Chosen-Acted act ok)

    barrier_action-Acted :
        (act : Action) (at : WaitActionType)
        → ActionOk act
        → RunOk limit Acted (barrier_action fork me w (record { action = act; action_type = at }) s)
    unfolding barrier_action
    barrier_action-Acted null at ok = inl (refl, refl, ready)
    barrier_action-Acted check_syscall_args at ok = run_action-Acted check_syscall_args at ok
    barrier_action-Acted (run act) at ok = run_action-Acted (run act) at ok

  -- Leaving the loop, or going on with nothing changed.
  abbrev pub Exited : Bool → System → Type 0
  Exited true t = Middle limit me w t × ((t.all_proc me).wait_idx ≡ negsuc 0) × (me < t.plr.n_proc)
  Exited false t = (places t ≡ places s) × (ltb_ℤ (s.all_proc me).wait_idx (pos 0) ≡ false)

  after_action :
      ltb_ℤ (s.all_proc me).wait_idx (pos 0) ≡ false
      → (success : Bool) (t : System) → Acted success t
      → RunOk limit Exited ((if success then (λ u. done true (release me w u)) else pure false) t)
  after_action flagged success t (inl (n, e, r)) =
      let lt' : me < t.plr.n_proc = rw n lt in
      let (m, f, n') = release-Middle limit me w t r lt' in rw e (m, f, rw n' lt')
  after_action flagged success t (inr (e, same)) = rw e (same, flagged)

  left : ltb_ℤ (s.all_proc me).wait_idx (pos 0) ≡ true → (s.all_proc me).wait_idx ≡ negsuc 0
  left e = elim (own limit me w s h lt).1 [ inl f ↦ f.0 | inr f ↦ ground arith ]

  pub check_exit-Exited :
      (call : Call) → ActionOk call.action → RunOk limit Exited (check_exit fork me w call s)
  unfolding check_exit
  check_exit-Exited call ok = elim (Bool-cases (ltb_ℤ (s.all_proc me).wait_idx (pos 0))) [
    | inl e ↦ rw (e, check_exit) (h, left e, lt)
    | inr e ↦ elim (Bool-cases (s.plr.cond_wait_cnt w == s.plr.n_proc)) [
      | inl f ↦
          rw (e, f, check_exit)
            (RunOk-bind limit Acted Exited (barrier_action fork me w call)
              (λ success. if success then (λ u. done true (release me w u)) else pure false) s
              (barrier_action-Acted e ((==_iff _ _).0 f) call.action call.action_type ok)
              (after_action e))
      | inr f ↦ rw (e, f, check_exit) (refl, e)
    ]
  ]
