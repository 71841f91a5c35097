-- ===== src/Release/Kinds.antt =====
-- Each case of `luaC_freeobj` (src/lgc.c) frees its object and releases what it held.
use native.Mathlib.Nat.{le_of_eq}
use luarc.Prelude.{
  ℕ, ◌≡◌, ◌≤◌, refl, ap, ◌∙◌, ◌≢◌, Bool, true, false, some, List, ◌==◌, arith, Bool-cases, inl, inr,
}
use luarc.Object.{
  Ptr, Value, GcObject, Body, testbit, l_setbit, finalizedbit, tstring, udata, open_upval,
  closed_upval,
}
use luarc.Heap.{cell, State, store, ok}
use luarc.Heap.Cells.{cell-update}
use luarc.Release.{
  Loop, Call, freestring, freetraversable, freeupval, finish_udata, freeudata, freeobj,
}
use luarc.Unlink.{unlink_udata}
use luarc.Release.Bodies.{sum_bodies-update, sum_bodies-SameCores}
use luarc.Release.Counted.{Counted}
use luarc.Release.Doom.{body_core, Counted-SameCores, Counted-rewrite}
use luarc.Release.Free.{Returns, Returns-mono, Releases, Freed, Freed-before, free_with-Freed_after}
use luarc.Release.Links.{
  core, SameCores-trans, unlink_root-SameCores, unlink_gray-SameCores, adjust_sweep-SameCores,
  unlink_udata-SameCores, unlink_string-SameCores,
}
use luarc.Release.Methods.{BodyKept, BodyKept-Shrunk, NoMethods, NoMethods-kept}
use luarc.Release.Shrink.{cost, weight, kind_frees, Shrunk-core}

module _ {fuel : ℕ} {rec : Loop} (ih : Releases fuel rec) (call : Call) {doomed : Ptr → Bool}
    {pending : List Value} (p : Ptr) (o : GcObject) (s : State) (here : cell s.heap p ≡ some o)
    (empty : o.ref ≡ 0) (live : doomed p ≡ false) (counted : Counted doomed pending s)
    (quiet : NoMethods s) (fits : weight doomed s.heap ≤ fuel) where
  freestring-Freed : (hash : ℕ) → Returns (Freed doomed pending p s) (freestring rec p o hash s)
  unfolding freestring
  freestring-Freed hash =
      free_with-Freed_after ih p o s _ (unlink_string-SameCores p o hash s) here empty live counted
        quiet fits

  freetraversable-Freed : Returns (Freed doomed pending p s) (freetraversable rec p o s)
  unfolding freetraversable
  freetraversable-Freed =
      free_with-Freed_after ih p o s _
        (SameCores-trans (unlink_root-SameCores p o s)
          (SameCores-trans (unlink_gray-SameCores p o _) (adjust_sweep-SameCores p o _)))
        here empty live counted quiet fits

  freeupval-Freed : Returns (Freed doomed pending p s) (freeupval rec p o s)
  unfolding freeupval
  freeupval-Freed =
      free_with-Freed_after ih p o s _
        (SameCores-trans (unlink_root-SameCores p o s) (adjust_sweep-SameCores p o _)) here empty
        live counted quiet fits

  -- The udata with its finalized bit, and the heap with it off its list.
  abbrev marked : GcObject
  marked = record o { marked = l_setbit o.marked finalizedbit }

  abbrev with_mark : State
  with_mark = store p (λ _. marked) s

  abbrev unlinked : State
  unlinked = unlink_udata p o with_mark

  marked_here : cell with_mark.heap p ≡ some marked
  marked_here = ground (arith, cell-update s.heap p (λ _. marked) p)

  marked_else : (q : Ptr) → q ≢ p → cell with_mark.heap q ≡ cell s.heap q
  marked_else q ne = ground (arith, cell-update s.heap p (λ _. marked) q)

  unlinked_core : (q : Ptr) → core (cell unlinked.heap q) ≡ core (cell with_mark.heap q)
  unlinked_core q = (unlink_udata-SameCores p o with_mark).same_core q

  with_mark-BodyKept : (q : Ptr) → BodyKept (cell s.heap q) (cell with_mark.heap q)
  with_mark-BodyKept q x found = elim (Bool-cases (q == p)) [
    | inl at ↦ (o, ground (arith, here), ground (arith, cell-update s.heap p (λ _. marked) q))
    | inr other ↦ (x, ground (arith, cell-update s.heap p (λ _. marked) q), refl)
  ]

  quiet_with_mark : NoMethods with_mark
  quiet_with_mark = NoMethods-kept s with_mark with_mark-BodyKept refl quiet

  quiet_unlinked : NoMethods unlinked
  quiet_unlinked =
      let same = unlink_udata-SameCores p o with_mark in
      NoMethods-kept with_mark unlinked
        (λ q.
          BodyKept-Shrunk
            (Shrunk-core (cell with_mark.heap q) (cell unlinked.heap q) (same.same_core q)))
        same.same_gc quiet_with_mark

  unlinked_weight : weight doomed unlinked.heap ≡ weight doomed s.heap
  unlinked_weight =
      sum_bodies-SameCores cost doomed (unlink_udata-SameCores p o with_mark)
      ∙ sum_bodies-update cost doomed s.heap p o marked here refl

  unlinked_here :
      (o' : GcObject) × (cell unlinked.heap p ≡ some o')
      × (o'.body ≡ o.body)
      × (o'.ref ≡ o.ref)
      × (o'.marked ≡ marked.marked)
  unlinked_here = body_core (cell unlinked.heap p) marked (unlinked_core p ∙ ap core marked_here)

  finish_udata-Freed : Returns (Freed doomed pending p s) (finish_udata rec p unlinked)
  unfolding finish_udata
  finish_udata-Freed =
      let now = unlinked_here in
      let same = unlink_udata-SameCores p o with_mark in
      rw (now.1, finish_udata)
        (Returns-mono
          (free_with-Freed_after ih p now.0 unlinked _ (adjust_sweep-SameCores p now.0 unlinked)
            now.1 (now.3 ∙ empty) live
            (Counted-SameCores same (Counted-rewrite p o marked here refl refl counted))
            quiet_unlinked (omega (arith, unlinked_weight)))
          λ u r.
            Freed-before p
              (λ q ne.
                Shrunk-core (cell s.heap q) (cell unlinked.heap q)
                  (unlinked_core q ∙ ap core (marked_else q ne)))
              (le_of_eq unlinked_weight) same.same_roots same.same_gc r)

  freeudata-Freed :
      (mt env : Ptr)
      → o.body ≡ udata mt env
      → testbit o.marked finalizedbit ≡ false
      → Returns (Freed doomed pending p s) (freeudata rec call p o mt s)
  unfolding freeudata
  freeudata-Freed mt env is fresh =
      let now = unlinked_here in
      rw (quiet_unlinked p now.0 mt env now.1 (now.2 ∙ is), fresh) finish_udata-Freed

  pub freeobj-Freed :
      (b : Body)
      → o.body ≡ b
      → kind_frees o.marked b ≡ true
      → Returns (Freed doomed pending p s) (freeobj rec call p o b s)
  unfolding freeobj
  freeobj-Freed (tstring hash len) is f = freestring-Freed hash
  freeobj-Freed (udata mt env) is f = freeudata-Freed mt env is (ground arith)
  freeobj-Freed (open_upval level) is f = absurd (cc)
  freeobj-Freed (closed_upval v) is f = freeupval-Freed
  freeobj-Freed _ is f = freetraversable-Freed

-- The cases that free nothing.
pub freeobj-kept :
    (rec : Loop) (call : Call) (p : Ptr) (o : GcObject) (b : Body) (s : State)
    → kind_frees o.marked b ≡ false
    → freeobj rec call p o b s ≡ ok s
unfolding freeobj freeudata
freeobj-kept rec call p o (open_upval level) s h = refl
freeobj-kept rec call p o (udata mt env) s h = ground arith
freeobj-kept rec call p o _ s h = absurd (cc)
