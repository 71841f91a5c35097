-- ===== src/Release/Drop.antt =====
-- `luarc_subref` of src/lobject.h, one value and the loop over many.
use mathlib.Core.Path.{subst}
use native.Mathlib.Nat.{le_of_eq}
use luarc.Prelude.{
  ℕ, zero, suc, ◌+◌, ◌-◌, ◌≡◌, ◌≤◌, ◌<◌, refl, sym, ◌∙◌, Bool, true, false, not, ◌&&◌, ◌||◌, Option,
  none, some, List, [], ◌∷◌, ◌++◌, length, ◌==◌, if◌then◌else◌, arith, Bool-cases, inl, inr,
}
use luarc.Object.{
  Ptr, Value, nil, boolean, lightuserdata, number, object, deadkey, GcObject, testbit, fixedbit,
  sfixedbit,
}
use luarc.Heap.{cell, State, store}
use luarc.Heap.Cells.{cell-update}
use luarc.Release.{Loop, Call, releaseobj, subobjref, subref, sub_refs}
use luarc.Release.Bodies.{sum_bodies-update}
use luarc.Release.Counted.{hit, ref_of, Counted}
use luarc.Release.Doom.{Counted-drop}
use luarc.Release.Free.{Returns, returns, Returns-bind, Returns-mono, Releases, Freed}
use luarc.Release.Kinds.{freeobj-Freed, freeobj-kept}
use luarc.Release.Methods.{BodyKept-Shrunk, NoMethods, NoMethods-kept}
use luarc.Release.Shrink.{
  Shrunk, gone, kept, Shrunk-refl, Shrunk-trans, cost, weight, frees, kind_frees, Released,
}

kept_by_mark : (t b : Bool) → t ≡ true → not t && b ≡ true → ⊥
kept_by_mark t b h f = ground arith

kept_by_kind : (t b : Bool) → b ≡ false → not t && b ≡ true → ⊥
kept_by_kind t b h f = ground arith

pub live_cell : (c : Option GcObject) → 0 < ref_of c → (o : GcObject) × (c ≡ some o) × (0 < o.ref)
live_cell none h = absurd (omega arith)
live_cell (some o) h = (o, refl, h)

module _ {fuel : ℕ} {rec : Loop} (ih : Releases fuel rec) (call : Call) (doomed : Ptr → Bool)
    (pending : List Value) (s : State) (quiet : NoMethods s)
    (fits : weight doomed s.heap ≤ fuel) where
  -- The last count of an object is dropped, or another: `o` is the object before.
  module _ (p : Ptr) (o : GcObject) (here : cell s.heap p ≡ some o) (pos : 0 < o.ref)
      (live : doomed p ≡ false) where
    abbrev dropped : GcObject
    dropped = record o { ref = o.ref - 1 }

    abbrev after : State
    after = store p (λ _. dropped) s

    after_here : cell after.heap p ≡ some dropped
    after_here = ground (arith, cell-update s.heap p (λ _. dropped) p)

    after_weight : weight doomed after.heap ≡ weight doomed s.heap
    after_weight = sum_bodies-update cost doomed s.heap p o dropped here refl

    after_else : (q : Ptr) → (q == p) ≡ false → cell after.heap q ≡ cell s.heap q
    after_else q ne = ground (arith, cell-update s.heap p (λ _. dropped) q)

    -- The object stays: its count is still positive, or nothing would free it.
    stays :
        Counted doomed pending after
        → (dropped.ref ≡ 0 → frees o.marked o.body ≡ true → o.ref ≡ 0)
        → Released doomed pending s after
    stays counted keeps = record {
      counted = counted;
      lighter = le_of_eq after_weight;
      shrunk = λ q. elim (Bool-cases (q == p)) [
        | inl at ↦
            kept o dropped (ground (arith, here)) (ground (arith, after_here)) refl refl
              (omega arith) keeps
        | inr ne ↦ subst (Shrunk (cell s.heap q)) (sym (after_else q ne)) (Shrunk-refl _)
      ];
      same_roots = refl;
      same_gc = refl;
    }

    quiet_after : NoMethods after
    quiet_after =
        NoMethods-kept s after
          (λ q x found. elim (Bool-cases (q == p)) [
            | inl at ↦
                (o, ground (arith, here), ground (arith, cell-update s.heap p (λ _. dropped) q))
            | inr ne ↦ (x, ground (arith, after_else q), refl)
          ])
          refl quiet

    goes : {u : State} → Freed doomed pending p after u → Released doomed pending s u
    goes {u} r = record {
      counted = r.counted;
      lighter = omega (arith, r.lighter, after_weight);
      shrunk = λ q. elim (Bool-cases (q == p)) [
        | inl at ↦ gone (ground (arith, r.freed))
        | inr ne ↦
            subst (λ c. Shrunk c (cell u.heap q)) (after_else q ne) (r.shrunk q (ground arith))
      ];
      same_roots = r.same_roots;
      same_gc = r.same_gc;
    }

    releaseobj-Released :
        o.ref ≡ 1
        → Counted doomed pending after
        → Returns (Released doomed pending s) (releaseobj rec call p dropped after)
    unfolding releaseobj
    releaseobj-Released one counted =
        elim (Bool-cases (testbit o.marked fixedbit || testbit o.marked sfixedbit)) [
          | inl fixed ↦ rw fixed (
              returns (
                stays counted
                  (λ z f. absurd (kept_by_mark _ (kind_frees o.marked o.body) fixed f))))
          | inr free ↦ elim (Bool-cases (kind_frees o.marked o.body)) [
            | inl yes' ↦ rw free (
                Returns-mono
                  (freeobj-Freed ih call p dropped after after_here (omega arith) live counted
                    quiet_after (omega (arith, after_weight)) o.body refl yes')
                  λ u r. goes r)
            | inr no' ↦
                rw (free, freeobj-kept rec call p dropped o.body after no')
                  (returns (
                    stays counted (λ z f. absurd (
                      kept_by_kind (testbit o.marked fixedbit || testbit o.marked sfixedbit) _ no'
                        f))))
          ]
        ]

  -- `luarc_subobjref` of an object that one of the pending values holds.
  subobjref-Released :
      (p : Ptr) (v : Value)
      → ((q : Ptr) → hit q v ≡ (if p == q then 1 else 0))
      → Counted doomed (v ∷ pending) s
      → Returns (Released doomed pending s) (subobjref rec call p s)
  unfolding subobjref
  subobjref-Released p v holds c =
      let (o, here, pos) = live_cell (cell s.heap p) (ground (arith, c.balance p, holds p)) in
      let live : doomed p ≡ false = elim (Bool-cases (doomed p)) [
        | inl d ↦ absurd (ground (arith, c.doomed_zero p d, c.balance p, holds p))
        | inr l ↦ l
      ] in
      let counted = Counted-drop p o v here holds c in
      let some_left : (o.ref == 0) ≡ false = ground arith in
      elim (Bool-cases (o.ref == 1)) [
        | inl last ↦
            rw (here, subobjref, some_left, last)
              (releaseobj-Released p o here pos live (ground arith) counted)
        | inr more ↦
            rw (here, subobjref, some_left, more)
              (returns (stays p o here pos live counted (λ z f. ground arith)))
      ]

  -- A value that is no object.
  skipped :
      (v : Value)
      → ((q : Ptr) → hit q v ≡ 0)
      → Counted doomed (v ∷ pending) s
      → Released doomed pending s s
  skipped v nothing c = record {
    counted = record {
      balance = λ q. omega (arith, c.balance q, nothing q);
      doomed_zero = c.doomed_zero;
      tidy = c.tidy;
    };
    lighter = le_of_eq refl;
    shrunk = λ q. Shrunk-refl (cell s.heap q);
    same_roots = refl;
    same_gc = refl;
  }

  pub subref-Released :
      (v : Value)
      → Counted doomed (v ∷ pending) s
      → Returns (Released doomed pending s) (subref rec call v s)
  unfolding subref
  subref-Released (object t p) c = subobjref-Released p (object t p) (λ q. refl) c
  subref-Released (deadkey p) c = subobjref-Released p (deadkey p) (λ q. refl) c
  subref-Released nil c = returns (skipped nil (λ q. refl) c)
  subref-Released (boolean b) c = returns (skipped (boolean b) (λ q. refl) c)
  subref-Released (lightuserdata n) c = returns (skipped (lightuserdata n) (λ q. refl) c)
  subref-Released (number n) c = returns (skipped (number n) (λ q. refl) c)

Released-trans :
    {doomed : Ptr → Bool} {vs ws : List Value} {s t u : State}
    → Released doomed vs s t
    → Released doomed ws t u
    → Released doomed ws s u
Released-trans a b = record {
  counted = b.counted;
  lighter = omega (arith, a.lighter, b.lighter);
  shrunk = λ q. Shrunk-trans (a.shrunk q) (b.shrunk q);
  same_roots = b.same_roots ∙ a.same_roots;
  same_gc = b.same_gc ∙ a.same_gc;
}

-- The loop on fuel does what is asked of a member loop.
pub sub_refs-Releases : (call : Call) (fuel : ℕ) → Releases fuel (sub_refs call fuel)
unfolding sub_refs
sub_refs-Releases call zero doomed pending vs s c quiet fits = absurd (omega arith)
sub_refs-Releases call (suc fuel) doomed pending [] s c quiet fits = returns (record {
  counted = c;
  lighter = le_of_eq refl;
  shrunk = λ q. Shrunk-refl (cell s.heap q);
  same_roots = refl;
  same_gc = refl;
})
sub_refs-Releases call (suc fuel) doomed pending (v ∷ vs) s c quiet fits =
    Returns-bind
      (subref-Released (sub_refs-Releases call fuel) call doomed (vs ++ pending) s quiet
        (omega arith) v c)
      λ t r.
        Returns-mono
          (sub_refs-Releases call fuel doomed pending vs t r.counted
            (NoMethods-kept s t (λ q. BodyKept-Shrunk (r.shrunk q)) r.same_gc quiet)
            (omega (arith, r.lighter)))
          λ u q. Released-trans r q

-- Dropping a list of values whose counts are included in the counts, with fuel for a step for each
-- live object, each of its members and each value, returns; every count is then right without them,
-- the roots stay, and in each cell the object is gone or is the same with a count no higher, one
-- that `luarc_releaseobj` may free never being left behind at a count that has fallen to 0. The
-- condition is that no userdata in the heap has a `__gc` method. Links are not spoken of.
pub sub_refs-Released :
    (call : Call) (fuel : ℕ) (doomed : Ptr → Bool) (pending vs : List Value) (s : State)
    → Counted doomed (vs ++ pending) s
    → NoMethods s
    → weight doomed s.heap + length vs < fuel
    → Returns (Released doomed pending s) (sub_refs call fuel vs s)
sub_refs-Released call fuel = sub_refs-Releases call fuel
