-- ===== src/Release/Finalize.antt =====
-- `luarc_freeudata` of src/lgc.c runs the `__gc` method of a userdata before it frees the object.
use luarc.Prelude.{
  ◌≡◌, refl, ap, ◌∙◌, true, false, Option, none, some, if◌then◌else◌, ◌==◌, inl, inr, Option-cases,
  Bool-cases, arith,
}
use luarc.Object.{Ptr, GcObject, null, testbit, l_setbit, finalizedbit}
use luarc.Heap.{cell, map_cell, set_next, set_prev, store, State, Run, ok, fault, ◌>>=◌}
use luarc.Heap.Cells.{cell-update}
use luarc.Release.Leaves.{Leaves-ok, finish_udata-Leaves, ok_bind, method_core, bit_kept}
use luarc.Release.Doom.{body_core}
use luarc.Unlink.{unlink_udata}
use luarc.Release.Links.{
  core, SameCores, SameCores-trans, unlink_udata-SameCores, store-SameCores, set_next-SameCores,
  set_prev-SameCores, if-SameCores,
}
use luarc.Release.{
  Loop, Call, cell_has_method, has_gc, makewhite, gctm, run_method, finish_udata, freeudata,
}

-- Nothing about the object is different from `o` but links and mark bits, and it is finalized.
pub record IsFinalizing (o : GcObject) (p : Ptr) (s called : State) : Type 0 where
  pub instance : GcObject
  pub there : cell called.heap p ≡ some instance
  pub same_body : instance.body ≡ o.body
  pub same_ref : instance.ref ≡ o.ref
  pub is_finalized : testbit instance.marked finalizedbit ≡ true
  pub same_roots : called.roots ≡ s.roots

module _ (call : Call) (p : Ptr) (o : GcObject) (mt : Ptr) (s : State)
    (here : cell s.heap p ≡ some o) (fresh : testbit o.marked finalizedbit ≡ false) where
  abbrev marked : GcObject
  marked = record o { marked = l_setbit o.marked finalizedbit }

  abbrev unlinked : State
  unlinked = unlink_udata p o (store p (λ _. marked) s)

  marked_here : cell (store p (λ _. marked) s).heap p ≡ some marked
  marked_here = ground (arith, cell-update s.heap p (λ _. marked) p)

  unlinked_core : core (cell unlinked.heap p) ≡ core (some marked)
  unlinked_core =
      (unlink_udata-SameCores p o (store p (λ _. marked) s)).same_core p ∙ ap core marked_here

  seen_body :
      (k : Ptr)
      → cell_has_method k (cell (store p (λ _. marked) s).heap mt)
        ≡ cell_has_method k (cell s.heap mt)
  seen_body k = elim (Bool-cases (mt == p)) [
    | inl at ↦ ground (arith, here, cell-update s.heap p (λ _. marked) mt)
    | inr other ↦ ap (cell_has_method k) (ground (arith, cell-update s.heap p (λ _. marked) mt))
  ]

  -- The same method is found after the udata is unlinked.
  same_has_gc : has_gc unlinked mt ≡ has_gc s mt
  unfolding has_gc
  same_has_gc =
      let same = unlink_udata-SameCores p o (store p (λ _. marked) s) in
      ap (λ k. cell_has_method k (cell unlinked.heap mt)) same.same_gc
      ∙ method_core s.tm_gc (cell unlinked.heap mt) (cell (store p (λ _. marked) s).heap mt)
          (same.same_core mt)
      ∙ seen_body s.tm_gc

  module _ (m : GcObject) where
    abbrev behind : State
    behind = store p (λ x. record x { next = m.next; prev = unlinked.mainthread }) unlinked

    abbrev linked : State
    linked =
        set_next unlinked.mainthread p (if m.next == null then behind else set_prev m.next p behind)

    abbrev called : State
    called = store p (makewhite unlinked.currentwhite) linked

    core_links :
        (c : Option GcObject)
        → core (map_cell (λ x. record x { next = m.next; prev = unlinked.mainthread }) c) ≡ core c
    core_links none = refl
    core_links (some x) = refl

    linked-SameCores : SameCores unlinked linked
    linked-SameCores =
        let first : SameCores unlinked behind = store-SameCores p _ unlinked core_links in
        SameCores-trans
          (if-SameCores (m.next == null) first
            (SameCores-trans first (set_prev-SameCores m.next p behind)))
          (set_next-SameCores unlinked.mainthread p _)

    called-IsFinalizing : IsFinalizing o p s called
    called-IsFinalizing =
        let now =
          body_core (cell linked.heap p) marked (linked-SameCores.same_core p ∙ unlinked_core) in
        record {
          instance = makewhite unlinked.currentwhite (now.0);
          there =
              ground (arith, now.1, cell-update linked.heap p (makewhite unlinked.currentwhite) p);
          same_body = now.2;
          same_ref = now.3;
          is_finalized = bit_kept (now.0).marked unlinked.currentwhite o.marked (now.4) fresh;
          same_roots =
              linked-SameCores.same_roots
              ∙ (unlink_udata-SameCores p o (store p (λ _. marked) s)).same_roots;
        }

  gctm-calls :
      (t : State)
      → gctm call p unlinked ≡ ok t
      → (before : State) × IsFinalizing o p s before × (call p before ≡ ok t)
  unfolding gctm
  gctm-calls t h = elim (Option-cases (cell unlinked.heap unlinked.mainthread)) [
    | inl gone ↦ absurd (ground (arith, rw (gone, gctm) at h))
    | inr (m, main_there) ↦ (called m, called-IsFinalizing m, rw (main_there, gctm) at h)
  ]

  run_method-calls :
      (t : State)
      → run_method call p unlinked ≡ ok t
      → (before u : State) × IsFinalizing o p s before × (call p before ≡ ok u)
  unfolding run_method
  run_method-calls t h =
      let (u, first, _) = ok_bind (gctm call p unlinked) _ t h in
      let (before, is, ran) = gctm-calls u first in (before, u, is, ran)

  -- Where `luarc_freeudata` returns of a userdata that is not finalized yet and whose metatable has a
  -- `__gc` method, the method has run and returned, on a heap that still had the object, with its
  -- body and its count, finalized; and then the object is gone, whatever references the method made.
  pub freeudata-finalizes :
      (rec : Loop) (t : State)
      → has_gc s mt ≡ true
      → freeudata rec call p o mt s ≡ ok t
      → (before after : State) × IsFinalizing o p s before
        × (call p before ≡ ok after)
        × (cell t.heap p ≡ none)
  unfolding freeudata
  freeudata-finalizes rec t has run =
      let both : (run_method call p unlinked >>= finish_udata rec p) ≡ ok t =
        rw (fresh, same_has_gc ∙ has) at run in
      let (v, first, last) = ok_bind (run_method call p unlinked) (finish_udata rec p) t both in
      let (before, after, is, ran) = run_method-calls v first in
      (
        before,
        after,
        is,
        ran,
        Leaves-ok p (finish_udata rec p v) t (finish_udata-Leaves rec p v) last,
      )

  -- What `run_method` does after the method.
  abbrev put_back : State → Run State
  put_back y = elim (cell y.heap p) [ none ↦ fault | some o' ↦ ok (unlink_udata p o' y) ]
