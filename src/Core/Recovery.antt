-- ===== src/Core/Recovery.antt =====
-- What the vote achieves: the process that disagrees is replaced, and all agree.
use plr.Prelude.{
  ℕ, Bool, zero, suc, ◌+◌, if◌then◌else◌, ◌<◌, ◌≡◌, ◌≢◌, refl, ◌⊎◌, inl, inr, Option, some, true,
  false, ◌||◌, ◌&&◌, ◌==◌, eq→==, ne→==, if-true, if-false, arith, sym, ap, ◌∙◌, pos, negsuc, eq_ℤ,
  ltb_ℤ, update, ℕ_discrete,
}
use plr.Compare.{SyscallArgs}
use plr.SharedData.{PerProcData, PlrData, init_proc_data_as_copy, free_proc_data}
use plr.Core.State.{
  Phase, Process, forked_in_action, outside, System, done, ◌>>=◌, modify_proc, set_phase,
  sub_wait_cnt, signal, wake, Call, check_syscall_args, any,
}
use plr.Core.Replace.{kill, fork_new_process, replace_process_idx}
use plr.Core.Vote.{find_bad_proc, act_on_bad_proc, check_syscall_args_act}
use plr.Core.Majority.{find_bad_proc_majority}
use plr.Core.Barrier.{release, leave, reset_all}
use plr.Core.Wait.{
  resume, resume_phase, wait_loop, rounds, check_exit, barrier_action, call_action, may_run,
  use_result,
}

abbrev args : System → ℕ → SyscallArgs
args s j = (s.all_proc j).syscall_args

-- Two equal values at the two places that remain.
at_pair :
    (a : ℕ → SyscallArgs) (x y j k : ℕ)
    → a x ≡ a y
    → (j ≡ x) ⊎ (j ≡ y)
    → (k ≡ x) ⊎ (k ≡ y)
    → a j ≡ a k
at_pair a x y j k e (inl p) (inl q) = ap a (p ∙ sym q)
at_pair a x y j k e (inl p) (inr q) = ap a p ∙ e ∙ ap a (sym q)
at_pair a x y j k e (inr p) (inl q) = ap a p ∙ sym e ∙ ap a (sym q)
at_pair a x y j k e (inr p) (inr q) = ap a (p ∙ sym q)

below_3 : (b : ℕ) → b < 3 → (b ≡ 0) ⊎ ((b ≡ 1) ⊎ (b ≡ 2))
below_3 zero h = inl refl
below_3 (suc zero) h = inr (inl refl)
below_3 (suc (suc zero)) h = inr (inr refl)
below_3 (suc (suc (suc b))) h = absurd (omega arith)

not_first : {A B C : Type 0} → A ⊎ (B ⊎ C) → (A → ⊥) → B ⊎ C
not_first (inl a) n = absurd (n a)
not_first (inr r) n = r

not_second : {A B C : Type 0} → A ⊎ (B ⊎ C) → (B → ⊥) → A ⊎ C
not_second (inl a) n = inl a
not_second (inr (inl b)) n = absurd (n b)
not_second (inr (inr c)) n = inr c

not_third : {A B C : Type 0} → A ⊎ (B ⊎ C) → (C → ⊥) → A ⊎ B
not_third (inl a) n = inl a
not_third (inr (inl b)) n = inr b
not_third (inr (inr c)) n = absurd (n c)

abbrev pub check_call : Call
check_call = record { action = check_syscall_args; action_type = any }

-- The loop that resets the wait flags changes nothing else of a record,
reset_all-record :
    (n w : ℕ) (s : System) (j : ℕ)
    → (args (reset_all n w s) j ≡ args s j)
      × (((reset_all n w s).all_proc j).extra_shm_mapped ≡ (s.all_proc j).extra_shm_mapped)
unfolding reset_all signal
reset_all-record zero w s j = (refl, refl)
reset_all-record (suc n) w s j =
    let r = reset_all-record n w s j in
    elim (ℕ_discrete j n) [
      | yes e ↦
          let at =
            if-true (record ((reset_all n w s).all_proc n) { wait_idx = negsuc 0 })
              ((reset_all n w s).all_proc j) (eq→== j n e) in
          let same = ap (reset_all n w s).all_proc (sym e) in
          (
            ap (λ (p : PerProcData). p.syscall_args) at
                ∙ ap (λ (p : PerProcData). p.syscall_args) same
                ∙ r.0,
            ap (λ (p : PerProcData). p.extra_shm_mapped) at
                ∙ ap (λ (p : PerProcData). p.extra_shm_mapped) same
                ∙ r.1,
          )
      | no e ↦
          let at =
            if-false (record ((reset_all n w s).all_proc n) { wait_idx = negsuc 0 })
              ((reset_all n w s).all_proc j) (ne→== j n e) in
          (
            ap (λ (p : PerProcData). p.syscall_args) at ∙ r.0,
            ap (λ (p : PerProcData). p.extra_shm_mapped) at ∙ r.1,
          )
    ]

-- nothing of the shared record,
reset_all-plr : (n w : ℕ) (s : System) → (reset_all n w s).plr ≡ s.plr
unfolding reset_all signal
reset_all-plr zero w s = refl
reset_all-plr (suc n) w s = reset_all-plr n w s

-- and nothing of a new child.
reset_all-forked :
    (n w : ℕ) (s : System) (j pid v : ℕ) (parent : PerProcData)
    → s.process j ≡ record { self = pid; phase = forked_in_action parent v }
    → (reset_all n w s).process j ≡ record { self = pid; phase = forked_in_action parent v }
unfolding reset_all signal
reset_all-forked zero w s j pid v parent e = e
reset_all-forked (suc n) w s j pid v parent e =
    let r = reset_all-forked n w s j pid v parent e in
    elim (ℕ_discrete j n) [
      | yes q ↦
          if-true _ _ (eq→== j n q)
          ∙ ap (λ (p : Process). record { self = p.self; phase = wake w p.phase })
              (ap (reset_all n w s).process (sym q) ∙ r)
      | no q ↦ if-false _ _ (ne→== j n q) ∙ r
    ]

module _ (fork : ℕ → Option ℕ) (me bad w pid : ℕ) (expired : Bool) (s : System) where
  -- All three processes are counted in the barrier `w`, the wait flag of process `me` stands, the vote
  -- finds another process `bad`, which is alive in its place, and the fork succeeds.
  pub record OneBad : Type 0 where
    pub three : s.plr.n_proc ≡ 3
    pub voter : me < 3
    pub other : me ≢ bad
    pub found : find_bad_proc 3 (args s 0) (args s 1) (args s 2) ≡ pos bad
    pub inside : bad < 3
    pub started : (s.all_proc bad).pid ≢ 0
    pub apart : (s.process me).self ≢ (s.all_proc bad).pid
    pub forked : fork s.forks ≡ some pid
    pub full : s.plr.cond_wait_cnt w ≡ 3
    pub flag : ltb_ℤ (s.all_proc me).wait_idx (pos 0) ≡ false

  module _ (h : OneBad) where
    open h use {three, voter, other, found, inside, started, apart, forked, full, flag}

    freed : System
    freed = modify_proc bad free_proc_data (kill (s.all_proc bad).pid s)

    born : PerProcData → Phase
    born parent = forked_in_action parent w

    replaced : System
    replaced = record freed {
      process = update freed.process bad (record { self = pid; phase = born (freed.all_proc me) });
      forks = freed.forks + 1;
    }

    forks : fork_new_process fork me born bad freed ≡ done (pos 0) replaced
    unfolding fork_new_process freed replaced kill
    forks = rw (forked, fork_new_process) refl

    replaces : replace_process_idx fork me born bad s ≡ done (pos 0) replaced
    unfolding replace_process_idx freed
    replaces =
        let alive : (((s.all_proc bad).pid == 0) || ((s.process me).self == (s.all_proc bad).pid))
            ≡ false =
          ground (arith, started, apart) in
        if-false _ _ (ne→== me bad other) ∙ if-false _ _ alive ∙ forks

    act : act_on_bad_proc fork me born (pos bad) s ≡ done (pos 0) replaced
    unfolding act_on_bad_proc
    act =
        let faulty : eq_ℤ (pos bad) (negsuc 0) ≡ false = ground arith in
        let place : (ltb_ℤ (negsuc 0) (pos bad) && ltb_ℤ (pos bad) (pos s.plr.n_proc)) ≡ true =
          ground (arith, three, inside) in
        if-false _ _ faulty
        ∙ if-true _ _ place
        ∙ if-false _ _ (ne→== me bad other)
        ∙ rw (replaces, ◌>>=◌) refl

    acts : check_syscall_args_act fork me born s ≡ done (pos 0) replaced
    unfolding check_syscall_args_act
    acts =
        if-true _ _ (eq→== _ _ three)
        ∙ ap (λ b. act_on_bad_proc fork me born b s)
            (ap (λ n. find_bad_proc n (args s 0) (args s 1) (args s 2)) three ∙ found)
        ∙ act

    flipped : System
    flipped = record replaced {
      plr = record (replaced.plr) {
        cur_wait_idx = if replaced.plr.cur_wait_idx == 0 then 1 else 0;
      };
    }

    released : System
    released = reset_all replaced.plr.n_proc w flipped

    -- The state in which the voter has left the barrier.
    left : System
    left = set_phase me outside (sub_wait_cnt w released)

    standing : ltb_ℤ (replaced.all_proc me).wait_idx (pos 0) ≡ false
    unfolding replaced freed kill
    standing =
        ap (λ (p : PerProcData). ltb_ℤ p.wait_idx (pos 0)) (if-false _ _ (ne→== me bad other))
        ∙ flag

    releases : release me w replaced ≡ released
    unfolding release released flipped
    releases = if-false _ _ standing

    votes : barrier_action fork me w check_call s ≡ done true replaced
    unfolding barrier_action call_action may_run use_result born
    votes = rw (acts, barrier_action, ◌>>=◌) refl

    leaves : wait_loop fork rounds me w expired check_call s ≡ done tt left
    unfolding wait_loop check_exit leave left
    leaves =
        let exits : check_exit fork me w check_call s ≡ done true released =
          if-false _ _ flag
          ∙ if-true _ _ (eq→== _ _ (full ∙ sym three))
          ∙ (rw (votes, releases, ◌>>=◌) refl) in
        rw (exits, wait_loop, ◌>>=◌) refl

    joined : System
    joined = modify_proc bad (λ p. init_proc_data_as_copy pid p (freed.all_proc me)) left

    -- The state in which the child has left the barrier too.
    settled : System
    settled = set_phase bad outside (sub_wait_cnt w joined)

    here : left.process bad ≡ record { self = pid; phase = born (freed.all_proc me) }
    unfolding left released replaced flipped born
    here =
        if-false _ _ (ne→== bad me (λ e. other (sym e)))
        ∙ reset_all-forked replaced.plr.n_proc w flipped bad pid w (freed.all_proc me)
            (if-true _ _ (eq→== bad bad refl))

    mine : joined.all_proc bad ≡ init_proc_data_as_copy pid (left.all_proc bad) (freed.all_proc me)
    unfolding joined
    mine = if-true _ _ (eq→== bad bad refl)

    no_flag : ltb_ℤ (joined.all_proc bad).wait_idx (pos 0) ≡ true
    unfolding init_proc_data_as_copy
    no_flag = ap (λ (p : PerProcData). ltb_ℤ p.wait_idx (pos 0)) mine

    joins : resume fork bad false left ≡ done tt settled
    unfolding resume resume_phase settled joined born release leave
    joins =
        ap (λ (p : Process). resume_phase fork bad false p.phase left) here
        ∙ ap
            (λ (p : Process). leave bad w (
              release bad w
                (modify_proc bad (λ q. init_proc_data_as_copy p.self q (freed.all_proc me)) left)))
            here
        ∙ ap (leave bad w) (if-true _ _ no_flag)

    copied : args settled bad ≡ args s me
    unfolding settled freed kill init_proc_data_as_copy
    copied =
        ap (λ (p : PerProcData). p.syscall_args) mine
        ∙ ap (λ (p : PerProcData). p.syscall_args) (if-false _ _ (ne→== me bad other))

    -- The records of the other processes are as they were, but for the wait flag.
    kept :
        (j : ℕ)
        → j ≢ bad
        → (args settled j ≡ args s j)
          × ((settled.all_proc j).extra_shm_mapped ≡ (s.all_proc j).extra_shm_mapped)
    unfolding settled joined left released flipped replaced freed kill
    kept j n =
        let outer = if-false _ _ (ne→== j bad n) in
        let r = reset_all-record replaced.plr.n_proc w flipped j in
        let inner = if-false _ _ (ne→== j bad n) in
        (
          ap (λ (p : PerProcData). p.syscall_args) outer
              ∙ r.0
              ∙ ap (λ (p : PerProcData). p.syscall_args) inner,
          ap (λ (p : PerProcData). p.extra_shm_mapped) outer
              ∙ r.1
              ∙ ap (λ (p : PerProcData). p.extra_shm_mapped) inner,
        )

    others : (j : ℕ) → j < 3 → j ≢ bad → args s j ≡ args s me
    others j lt n =
        let majority = find_bad_proc_majority (args s 0) (args s 1) (args s 2) in
        elim (below_3 bad inside) [
          | inl e ↦
              at_pair (args s) 1 2 j me (majority.1.0 (found ∙ ap pos e)).1
                (not_first (below_3 j lt) (λ q. n (q ∙ sym e)))
                (not_first (below_3 me voter) (λ q. other (q ∙ sym e)))
          | inr (inl e) ↦
              at_pair (args s) 0 2 j me (majority.2.0 (found ∙ ap pos e)).1
                (not_second (below_3 j lt) (λ q. n (q ∙ sym e)))
                (not_second (below_3 me voter) (λ q. other (q ∙ sym e)))
          | inr (inr e) ↦
              at_pair (args s) 0 1 j me (majority.3.0 (found ∙ ap pos e)).0
                (not_third (below_3 j lt) (λ q. n (q ∙ sym e)))
                (not_third (below_3 me voter) (λ q. other (q ∙ sym e)))
        ]

    all_agree : (j : ℕ) → j < 3 → args settled j ≡ args s me
    all_agree j lt = elim (ℕ_discrete j bad) [
      | yes e ↦ ap (args settled) e ∙ copied
      | no n ↦ (kept j n).0 ∙ others j lt n
    ]

    at_bad : settled.process bad ≡ record { self = (joined.process bad).self; phase = outside }
    unfolding settled
    at_bad = if-true _ _ (eq→== bad bad refl)

    new_self : (settled.process bad).self ≡ pid
    unfolding settled joined
    new_self = ap (λ (p : Process). p.self) at_bad ∙ ap (λ (p : Process). p.self) here

    unmapped : (settled.all_proc bad).extra_shm_mapped ≡ 0
    unfolding settled init_proc_data_as_copy left released flipped replaced freed free_proc_data
        kill
    unmapped =
        ap (λ (p : PerProcData). p.extra_shm_mapped) mine
        ∙ (reset_all-record replaced.plr.n_proc w flipped bad).1
        ∙ ap (λ (p : PerProcData). p.extra_shm_mapped) (if-true _ _ (eq→== bad bad refl))
        ∙ ap (λ (p : PerProcData). p.extra_shm_mapped) (if-false _ _ (ne→== _ 0 started))

    mapped_of : ℕ → ℕ
    mapped_of j = if j == bad then 0 else (s.all_proc j).extra_shm_mapped

    still_mapped : (j : ℕ) → (settled.all_proc j).extra_shm_mapped ≡ mapped_of j
    unfolding mapped_of
    still_mapped j = elim (ℕ_discrete j bad) [
      | yes e ↦
          ap (λ i. (settled.all_proc i).extra_shm_mapped) e
          ∙ unmapped
          ∙ sym (if-true _ _ (eq→== j bad e))
      | no n ↦ (kept j n).1 ∙ sym (if-false _ _ (ne→== j bad n))
    ]

    same_size : settled.plr.extra_shm_size ≡ s.plr.extra_shm_size
    unfolding settled joined left released flipped replaced freed kill
    same_size = ap (λ (p : PlrData). p.extra_shm_size) (reset_all-plr replaced.plr.n_proc w flipped)

    pub recovers :
        (t u : System) × (wait_loop fork rounds me w expired check_call s ≡ done tt t)
        × (resume fork bad false t ≡ done tt u)
        × ((j : ℕ) → j < 3 → args u j ≡ args s me)
        × ((u.process bad).self ≡ pid)
        × ((j : ℕ)
            → (u.all_proc j).extra_shm_mapped
              ≡ (if j == bad then 0 else (s.all_proc j).extra_shm_mapped))
        × (u.plr.extra_shm_size ≡ s.plr.extra_shm_size)
    unfolding mapped_of
    recovers = (left, settled, leaves, joins, all_agree, new_self, still_mapped, same_size)
