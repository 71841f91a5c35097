-- ===== src/Release/Bodies.antt =====
-- How the sums over the bodies of live objects change under the moves of src/lgc.c's releases.
use mathlib.Core.Option.{some-injective}
use luarc.Prelude.{
  ℕ, ◌+◌, ◌≡◌, refl, ap, ◌≢◌, Bool, false, Option, none, some, if◌then◌else◌, length-set, arith,
}
use luarc.Object.{Ptr, GcObject, Body}
use luarc.Heap.{Heap, cell, update, erase, State}
use luarc.Heap.Cells.{cell-erase, cell-update, length-update}
use luarc.Heap.Total.{total_ext, total_change}
use luarc.Release.Counted.{body_weight, sum_bodies, with_doomed}
use luarc.Release.Links.{core, SameCores}

module _ (f : Body → ℕ) (doomed : Ptr → Bool) where
  body_weight-core :
      (q : Ptr) (c c' : Option GcObject)
      → core c' ≡ core c
      → body_weight f doomed q c' ≡ body_weight f doomed q c
  body_weight-core q none none e = refl
  body_weight-core q none (some o') e = absurd (cc)
  body_weight-core q (some o) none e = absurd (cc)
  body_weight-core q (some o) (some o') e =
      ap (λ x. if doomed q then 0 else f x.body) (some-injective _ _ e)

  -- A change of links.
  pub sum_bodies-SameCores :
      {s t : State} → SameCores s t → sum_bodies f doomed t.heap ≡ sum_bodies f doomed s.heap
  sum_bodies-SameCores {s} {t} same =
      total_ext (body_weight f doomed) (body_weight f doomed) t.heap s.heap same.same_length
        (λ q. body_weight-core q (cell s.heap q) (cell t.heap q) (same.same_core q))

  -- A change of a count.
  pub sum_bodies-update :
      (h : Heap) (p : Ptr) (o o' : GcObject)
      → cell h p ≡ some o
      → o'.body ≡ o.body
      → sum_bodies f doomed (update h p (λ _. o')) ≡ sum_bodies f doomed h
  sum_bodies-update h p o o' e same =
      total_ext (body_weight f doomed) (body_weight f doomed) (update h p (λ _. o')) h
        (length-update h p (λ _. o')) (λ q. ground (arith, cell-update h p (λ _. o') q))

  -- An object at `p` comes under release.
  pub sum_bodies-doom :
      (h : Heap) (p : Ptr) (o : GcObject)
      → cell h p ≡ some o
      → doomed p ≡ false
      → sum_bodies f (with_doomed p doomed) h + f o.body ≡ sum_bodies f doomed h
  sum_bodies-doom h p o e live =
      let other : (q : Ptr)
          → q ≢ p
          → body_weight f doomed q (cell h q) ≡ body_weight f (with_doomed p doomed) q (cell h q) =
        λ q ne. ground arith in
      ground (
        arith,
        total_change (body_weight f doomed) (body_weight f (with_doomed p doomed)) h h p refl other
            refl refl,
      )

  -- The object under release is freed.
  pub sum_bodies-erase :
      (h : Heap) (p : Ptr) → sum_bodies f doomed (erase h p) ≡ sum_bodies f (with_doomed p doomed) h
  sum_bodies-erase h p =
      total_ext (body_weight f doomed) (body_weight f (with_doomed p doomed)) (erase h p) h
        (length-set h p none) (λ q. ground (arith, cell-erase h p q))
