-- ===== src/Core/Reach/Progress.antt =====
-- The last process that arrives at a barrier releases all.
use plr.Prelude.{
  ℕ, ◌+◌, ◌<◌, ◌≡◌, ◌≢◌, refl, inl, inr, Option, Bool, true, false, ◌&&◌, ◌==◌, not, List, All, Any,
  ltb, if◌then◌else◌, arith, sym, ap, ◌∙◌, pos, ltb_ℤ, ℕ_discrete, if-true, if-false, eq→==, ne→==,
  total-zero,
}
use mathlib.Core.Path.{subst}
use mathlib.Core.Bool.{false≢true}
use plr.SharedData.{PerProcData}
use plr.Core.State.{
  Call, outside, Process, System, ◌>>=◌, ◌>>◌, done, set_phase, add_wait_cnt, sub_wait_cnt,
}
use plr.Core.Barrier.{set_wait_idx, signal_all, leave, release}
use plr.Core.Wait.{barrier_action, check_exit, wait_loop, rounds, wait_barrier}
use plr.Core.Places.{kind, free, inside, weight, Place, Places, places, Good, FreshPids}
use plr.Core.Places.Release.{flip, unflag, other_index, full-AllIn}
use plr.Core.Places.View.{places-release}
use plr.Core.Invariant.Middle.{as_at, GoodRun}
use plr.Core.Invariant.Exit.{ActionOk}
use plr.Core.Invariant.Sections.{at_fits, entered, entered-Middle, wait_barrier-Good}
use plr.Core.Reach.{Reach, AllPrompt, Reach-Sound}
use plr.Core.Reach.Drain.{Draining, phase-free, resume_all, resume_all-Later}

not_below : (n : ℕ) → (ltb 1 n && ltb n n) ≡ false
not_below n = ground arith

module _ (fork : ℕ → Option ℕ) (limit : ℕ → ℕ) (fresh : FreshPids fork limit) (s : System)
    (h : Good limit (places s)) (me : ℕ) (lt : me < s.plr.n_proc) (call : Call)
    (ph : (s.process me).phase ≡ outside) (ok : ActionOk call.action)
    (acts : barrier_action fork me s.plr.cur_wait_idx call
        (add_wait_cnt s.plr.cur_wait_idx (set_wait_idx me (pos s.plr.cur_wait_idx) s))
      ≡ done true (add_wait_cnt s.plr.cur_wait_idx (set_wait_idx me (pos s.plr.cur_wait_idx) s)))
    (last : s.plr.cond_wait_cnt s.plr.cur_wait_idx + 1 ≡ s.plr.n_proc) where
  abbrev w : ℕ
  w = s.plr.cur_wait_idx

  abbrev inside_barrier : System
  inside_barrier = entered fork limit fresh me s h lt

  abbrev left : System
  left = set_phase me outside (sub_wait_cnt w (release me w inside_barrier))

  counter : inside_barrier.plr.cond_wait_cnt w ≡ s.plr.n_proc
  unfolding entered
  counter = if-true _ _ (eq→== w w refl) ∙ last

  flag : (inside_barrier.all_proc me).wait_idx ≡ pos w
  unfolding entered
  flag = ap (λ (p : PerProcData). p.wait_idx) (if-true _ _ (eq→== me me refl))

  full_now : (inside_barrier.plr.cond_wait_cnt w == inside_barrier.plr.n_proc) ≡ true
  unfolding entered
  full_now = eq→== _ _ counter

  standing : ltb_ℤ (inside_barrier.all_proc me).wait_idx (pos 0) ≡ false
  standing = let e = flag in ground arith

  exits : check_exit fork me w call inside_barrier ≡ done true (release me w inside_barrier)
  unfolding check_exit entered
  exits = rw (standing, full_now, acts, check_exit, ◌>>=◌) refl

  loops :
      (b : Bool)
      → b ≡ false
      → wait_loop fork rounds me w false call
          (if b then signal_all s.plr.n_proc w inside_barrier else inside_barrier)
        ≡ done tt left
  unfolding wait_loop leave
  loops false e = rw (exits, wait_loop, ◌>>=◌) refl
  loops true e = absurd (false≢true (sym e))

  passes : wait_barrier fork me call s ≡ done tt left
  unfolding wait_barrier entered
  passes =
      let mine : not ((s.all_proc me).pid == (s.process me).self) ≡ false =
        ap not (eq→== _ _ (at_fits fork limit fresh me s h lt free (ap kind ph)).1) in
      let room : ltb s.plr.n_proc (s.plr.cond_wait_cnt w) ≡ false = ground (arith, last) in
      let b =
        ltb 1 (inside_barrier.plr.cond_wait_cnt w)
        && ltb (inside_barrier.plr.cond_wait_cnt w) s.plr.n_proc in
      let no_signal : b ≡ false =
        ap (λ c. ltb 1 c && ltb c s.plr.n_proc) counter ∙ not_below s.plr.n_proc in
      rw (mine, room, wait_barrier) (loops b no_signal)

  left-Good : Good limit (places left)
  left-Good = subst (GoodRun limit) passes (wait_barrier-Good fork limit fresh me s h lt call ok ph)

  released : places (release me w inside_barrier) ≡ flip (places inside_barrier)
  released = places-release me w inside_barrier standing

  same_n : (places left).n ≡ s.plr.n_proc
  unfolding entered
  same_n = ap (λ (a : Places). a.n) released

  same_cur : left.plr.cur_wait_idx ≡ other_index w
  unfolding entered
  same_cur = ap (λ (a : Places). a.cur) released

  cleared :
      (j : ℕ)
      → j < s.plr.n_proc
      → (flip (places inside_barrier)).place j ≡ unflag ((places inside_barrier).place j)
  unfolding entered
  cleared j p =
      let below : ltb j (places inside_barrier).n ≡ true = ground (arith, p) in if-true _ _ below

  all_in : (j : ℕ) → j < s.plr.n_proc → j ≢ me → ((places inside_barrier).place j).at ≡ inside w
  unfolding entered
  all_in j p q =
      let a = as_at me (inside w) (places inside_barrier) in
      ap (λ (k : Place). k.at) (sym (if-false _ _ (ne→== j me q)))
      ∙ (full-AllIn {a = a} (entered-Middle fork limit fresh me s h lt (ap kind ph)) counter j p).0

  left-Draining : Draining w (places left)
  left-Draining j p =
      let p' : j < s.plr.n_proc = rw (← same_n) p in
      (
        ap (λ (a : Places). (a.place j).flag) released ∙ ap (λ (k : Place). k.flag) (cleared j p'),
        elim (ℕ_discrete j me) [
          | yes q ↦ inl (ap (λ (k : Process). kind k.phase) (if-true _ _ (eq→== j me q)))
          | no q ↦ inr (
              ap (λ (k : Process). kind k.phase) (if-false _ _ (ne→== j me q))
              ∙ ap (λ (a : Places). (a.place j).at) released
              ∙ ap (λ (k : Place). k.at) (cleared j p')
              ∙ all_in j p' q)
        ],
      )

  last_drains :
      (order : List (ℕ × Bool))
      → All (λ x. x.0 < s.plr.n_proc) order
      → ((j : ℕ) → j < s.plr.n_proc → j ≢ me → Any (λ x. x.0 ≡ j) order)
      → (t : System) × ((wait_barrier fork me call >> resume_all fork order) s ≡ done tt t)
        × ((j : ℕ) → j < t.plr.n_proc → (t.process j).phase ≡ outside)
        × ((k : ℕ) → t.plr.cond_wait_cnt k ≡ 0)
        × (t.plr.n_proc ≡ s.plr.n_proc)
        × (t.plr.cur_wait_idx ≡ other_index w)
  last_drains order range serves =
      let range' = subst (λ n. All (λ x. x.0 < n) order) (sym same_n) range in
      let (t, ran, later, reached) =
        resume_all-Later fork limit w order left range' left-Good left-Draining in
      let all_out : (j : ℕ) → j < t.plr.n_proc → kind (t.process j).phase ≡ free = λ j p.
        elim (ℕ_discrete j me) [
          | yes q ↦ later.stay j (ap (λ (k : Process). kind k.phase) (if-true _ _ (eq→== j me q)))
          | no q ↦ reached j (serves j (rw (← later.same_n ∙ same_n) p) q)
        ] in
      (
        t,
        rw (passes, ◌>>=◌) ran,
        λ j p. phase-free (t.process j).phase (all_out j p),
        λ k.
            later.good.count k
            ∙ total-zero (weight k) t.plr.n_proc (places t).place (λ j p. rw (all_out j p) refl),
        later.same_n ∙ same_n,
        later.same_cur ∙ same_cur,
      )

module _ (fork : ℕ → Option ℕ) (limit : ℕ → ℕ) (fresh : FreshPids fork limit) {start s : System}
    (good : Good limit (places start)) (reach : Reach fork start s) (prompt : AllPrompt reach)
    (unlocked : s.lock_lost ≡ false) where
  -- In every state that is reached from a good one and whose lock can be taken, where new children
  -- get pids that were not in use, where the actions of callers leave the fields of the barrier
  -- alone, and where on the way no process has acted on its expired watchdog, and no child that it
  -- forked then has joined the barrier, while another one, already released, had yet to leave it:
  -- if all processes but one are counted in the current barrier, and that one is outside and calls
  -- `plr_waitBarrier` with an action that succeeds and changes nothing in the state, as the vote
  -- does where all agree, it comes back; and when each of the others has got the lock at least once
  -- after that, in whatever order, by signals or by timeouts, all are outside of the barrier, both
  -- counters are 0, and the other condition variable is the current one.
  pub last_releases :
      (me : ℕ) (call : Call)
      → me < s.plr.n_proc
      → (s.process me).phase ≡ outside
      → ActionOk call.action
      → (let w = s.plr.cur_wait_idx in
          let all_in = add_wait_cnt w (set_wait_idx me (pos w) s) in
          barrier_action fork me w call all_in ≡ done true all_in)
      → s.plr.cond_wait_cnt s.plr.cur_wait_idx + 1 ≡ s.plr.n_proc
      → (order : List (ℕ × Bool)) → All (λ x. x.0 < s.plr.n_proc) order
      → ((j : ℕ) → j < s.plr.n_proc → j ≢ me → Any (λ x. x.0 ≡ j) order)
      → (t : System) × ((wait_barrier fork me call >> resume_all fork order) s ≡ done tt t)
        × ((j : ℕ) → j < t.plr.n_proc → (t.process j).phase ≡ outside)
        × ((k : ℕ) → t.plr.cond_wait_cnt k ≡ 0)
        × (t.plr.n_proc ≡ s.plr.n_proc)
        × (t.plr.cur_wait_idx ≡ other_index s.plr.cur_wait_idx)
  last_releases me call lt ph ok acts last order range serves =
      elim (Reach-Sound fork limit fresh (inr good) reach prompt) [
        | inl lost ↦ absurd (false≢true (sym unlocked ∙ lost))
        | inr now ↦ last_drains fork limit fresh s now me lt call ph ok acts last order range serves
      ]
