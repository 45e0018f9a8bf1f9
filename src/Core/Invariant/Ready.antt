-- ===== src/Core/Invariant/Ready.antt =====
-- The point of a section where the action has succeeded and the barrier can be released.
use plr.Prelude.{
  ℕ, ◌+◌, ◌≤◌, ◌<◌, ◌≡◌, ◌≢◌, refl, inl, inr, false, ◌==◌, ne→==, if◌then◌else◌, arith, sym, ap,
  ◌∙◌, fun_ext, pos, negsuc, ltb_ℤ, ℕ_discrete,
}
use mathlib.Core.Path.{subst, ap₂}
use plr.SharedData.{PerProcData, PlrData}
use plr.Core.State.{Phase, forked_in_action, System}
use plr.Core.Barrier.{release}
use plr.Core.Places.{
  Kind, kind, inside, child_of_action, Place, counted, Places, places, Good, weight,
}
use plr.Core.Places.Move.{Moved, moved_count, moved_distinct, moved_known}
use plr.Core.Places.Release.{flip, Loose, IsIn, AllIn, flip-Good, full-AllIn}
use plr.Core.Places.View.{places-release}
use plr.Core.Invariant.Middle.{as_at, Middle, own}
use plr.Core.Invariant.Replaced.{Replaced}

pub record Ready (limit : ℕ → ℕ) (me w : ℕ) (a : Places) : Type 0 where
  pub loose : Loose limit (as_at me (inside w) a)
  pub all_in : AllIn a.cur (as_at me (inside w) a)
  pub flag : (a.place me).flag ≡ pos w
  pub current : w ≡ a.cur

as_at-flip : (me : ℕ) (k : Kind) (a : Places) → as_at me k (flip a) ≡ flip (as_at me k a)
as_at-flip me k a = ap (λ f. record (flip a) { place = f }) (fun_ext (λ j. ground arith))

flip-flag : (me : ℕ) (a : Places) → me < a.n → ((flip a).place me).flag ≡ negsuc 0
flip-flag me a lt = ground arith

-- The places after a replacement, with process `me` inside.
module _ {limit : ℕ → ℕ} {me v : ℕ} {born : PerProcData → Phase} {s t : System} (w : ℕ)
    (r : Replaced limit me v born s t) (lt : me < s.plr.n_proc) where
  pub replaced_same :
      (j : ℕ)
      → j < s.plr.n_proc
      → j ≢ v
      → (as_at me (inside w) (places t)).place j ≡ (as_at me (inside w) (places s)).place j
  replaced_same j p q =
      let e : (places t).place me ≡ (places s).place me = r.same me lt (λ x. r.other (sym x)) in
      ap₂ (λ (x y : Place). if j == me then record x { at = inside w } else y) e (r.same j p q)

  pub replaced_at :
      (as_at me (inside w) (places t)).place v
      ≡ record { pid = 0; flag = pos 0; self = r.pid; at = kind (born (s.all_proc me)) }
  replaced_at = rw (ne→== v me r.other) r.at_v

  pub replaced-Moved :
      ((k : ℕ)
        → t.plr.cond_wait_cnt k + weight k ((as_at me (inside w) (places s)).place v)
          ≡ s.plr.cond_wait_cnt k + counted k (kind (born (s.all_proc me))))
      → Moved v (as_at me (inside w) (places s)) (as_at me (inside w) (places t))
  replaced-Moved c = record {
    same_n = ap (λ (p : PlrData). p.n_proc) r.same_plr;
    same_cur = ap (λ (p : PlrData). p.cur_wait_idx) r.same_plr;
    same = replaced_same;
    cnt = λ k. c k ∙ ap (λ x. s.plr.cond_wait_cnt k + weight k x) (sym replaced_at);
  }

  module _ (h : Middle limit me w s) where
    new_self : ((as_at me (inside w) (places t)).place v).self ≡ r.pid
    new_self = ap (λ (p : Place). p.self) replaced_at

    pub replaced_away :
        (j : ℕ)
        → j < s.plr.n_proc
        → j ≢ v
        → ((as_at me (inside w) (places t)).place v).self
          ≢ ((as_at me (inside w) (places s)).place j).self
    replaced_away j p q x = absurd (omega (arith, h.known j p, r.new_pid, new_self, x))

    pub replaced_known :
        (0 < ((as_at me (inside w) (places t)).place v).self)
        × (((as_at me (inside w) (places t)).place v).self < limit t.forks)
    replaced_known = rw new_self (omega (arith, h.known me lt, r.new_pid))

    pub replaced_more : limit s.forks ≤ limit t.forks
    replaced_more = omega (arith, r.new_pid)

module _ (limit : ℕ → ℕ) (me w : ℕ) where
  pub release-Middle :
      (t : System)
      → Ready limit me w (places t)
      → me < t.plr.n_proc
      → Middle limit me w (release me w t)
        × ((release me w t).all_proc me).wait_idx ≡ negsuc 0
        × (release me w t).plr.n_proc ≡ t.plr.n_proc
  release-Middle t r lt = (
    subst (λ a. Good limit (as_at me (inside w) a)) (sym released)
        (subst (Good limit) (sym (as_at-flip me (inside w) (places t)))
          (flip-Good r.loose r.all_in)),
    ap (λ (a : Places). (a.place me).flag) released ∙ flip-flag me (places t) lt,
    ap (λ (a : Places). a.n) released,
  )
    where
      flagged : ltb_ℤ (t.all_proc me).wait_idx (pos 0) ≡ false
      flagged = let f = r.flag in ground arith

      released : places (release me w t) ≡ flip (places t)
      released = places-release me w t flagged

  module _ (s : System) (h : Middle limit me w s) (lt : me < s.plr.n_proc)
      (flagged : ltb_ℤ (s.all_proc me).wait_idx (pos 0) ≡ false)
      (full : s.plr.cond_wait_cnt w ≡ s.plr.n_proc) where
    standing : ((s.all_proc me).wait_idx ≡ pos w) × (w ≡ s.plr.cur_wait_idx)
    standing = elim (own limit me w s h lt).1 [ inl e ↦ ground arith | inr e ↦ e ]

    pub all_inside :
        (i : ℕ)
        → i < s.plr.n_proc
        → (((as_at me (inside w) (places s)).place i).at ≡ inside s.plr.cur_wait_idx)
          × (((as_at me (inside w) (places s)).place i).pid
              ≡ ((as_at me (inside w) (places s)).place i).self)
    all_inside = full-AllIn h (ap s.plr.cond_wait_cnt (sym standing.1) ∙ full)

    pub full-Ready : Ready limit me w (places s)
    full-Ready = record {
      loose = record { index = h.index; count = h.count; distinct = h.distinct; known = h.known };
      all_in = λ i p. inl (all_inside i p);
      flag = standing.0;
      current = standing.1;
    }

    -- The vote's replacement keeps all places counted: the child stands for its victim.
    pub Replaced-Ready :
        (v : ℕ) (t : System)
        → v < s.plr.n_proc
        → Replaced limit me v (λ parent. forked_in_action parent w) s t
        → Ready limit me w (places t)
    Replaced-Ready v t lv r = record {
      loose = record {
        index = rw m.same_cur h.index;
        count = moved_count h v lv m;
        distinct = moved_distinct h v lv m (replaced_away w r lt h);
        known = moved_known h v lv m (replaced_known w r lt h) (replaced_more w r lt h);
      };
      all_in = in_t;
      flag = ap (λ (p : PerProcData). p.wait_idx) r.same_me ∙ standing.0;
      current = standing.1 ∙ sym m.same_cur;
    }
      where
        moved :
            (k : ℕ)
            → t.plr.cond_wait_cnt k + weight k ((as_at me (inside w) (places s)).place v)
              ≡ s.plr.cond_wait_cnt k + counted k (child_of_action w)
        moved k = rw (r.same_plr, (all_inside v lv).0, standing.1) refl

        m : Moved v (as_at me (inside w) (places s)) (as_at me (inside w) (places t))
        m = replaced-Moved w r lt moved

        in_t :
            (i : ℕ)
            → i < t.plr.n_proc
            → IsIn t.plr.cur_wait_idx ((as_at me (inside w) (places t)).place i)
        in_t i p = elim (ℕ_discrete i v) [
          | yes e ↦ rw (e, replaced_at w r lt, m.same_cur) (inr (ap child_of_action standing.1))
          | no q ↦
              let p' : i < s.plr.n_proc = rw (← m.same_n) p in
              rw (replaced_same w r lt i p' q, m.same_cur) (inl (all_inside i p'))
        ]
