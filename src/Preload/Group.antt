-- ===== src/Preload/Group.antt =====
-- plrPreload: an overriding function in the whole group, with the area passed on from process to process.
-- The master acts while all wait; the slaves follow in any order.
use plr.Prelude.{◌≡◌, refl, Option, some, List, [], ◌∷◌, All, Both, ℤ, ap, ◌∙◌}
use plr.SharedData.ExtraShm.{Area}
use plr.Preload.Wrapper.{Caller, Act, ◌>>=◌}
use plr.Preload.ReadWrite.Laws.{seen_by}

seen_by_eq : (own a b : Area) → a.plr ≡ b.plr → a.cells ≡ b.cells → seen_by own a ≡ seen_by own b
seen_by_eq own a b e f = λ i. record own { plr = e i; cells = f i }

module _ {W : Type 0} where
  -- The slaves, each with the value that it returns.
  unfoldable pub run_slaves : Act W → List (Caller W) → Area → Option (List (ℤ × Caller W))
  run_slaves act [] a = some []
  run_slaves act (c ∷ cs) a = do
    (ret, t) ← act (record c { area = seen_by c.area a })
    others ← run_slaves act cs t.area
    some ((ret, t) ∷ others)

  unfoldable pub run_group :
      (master_act slave_act : Act W) → Caller W → List (Caller W) → Option (List (ℤ × Caller W))
  unfolding run_slaves
  run_group master_act slave_act c slaves = do
    (ret, m) ← master_act c
    others ← run_slaves slave_act slaves m.area
    some ((ret, m) ∷ others)

  -- A slave that finds the area as `a` comes to an end, with what `Q` says of it, and leaves the shared part of
  -- the area as it was.
  abbrev pub Serves : (Caller W → ℤ × Caller W → Type 0) → Act W → Area → Caller W → Type 0
  Serves Q act a c =
      (out : ℤ × Caller W) × (act (record c { area = seen_by c.area a }) ≡ some out)
      × Q c out
      × (out.1.area.plr ≡ a.plr)
      × (out.1.area.cells ≡ a.cells)

  pub run_slaves-Both :
      (Q : Caller W → ℤ × Caller W → Type 0) (act : Act W) (shared : Area)
      (slaves : List (Caller W)) (a : Area)
      → a.plr ≡ shared.plr
      → a.cells ≡ shared.cells
      → All (Serves Q act shared) slaves
      → (outs : List (ℤ × Caller W)) × (run_slaves act slaves a ≡ some outs) × Both Q slaves outs
  unfolding run_slaves All Both
  run_slaves-Both Q act shared [] a e f h = ([], refl, tt)
  run_slaves-Both Q act shared (c ∷ cs) a e f h =
      let (out, done, good, same_plr, same_cells) = h.0 in
      let (outs, rest, others) =
        run_slaves-Both Q act shared cs out.1.area same_plr same_cells h.1 in
      let here = ap (λ b. act (record c { area = b })) (seen_by_eq c.area a shared e f) ∙ done in
      (out ∷ outs, rw (here, rest, run_slaves, ◌>>=◌) refl, (good, others))
