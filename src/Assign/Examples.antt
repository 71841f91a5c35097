-- ===== src/Assign/Examples.antt =====
-- A small heap for src/lobject.h's setters: a table that holds another.
use mathlib.Core.Option.{some-injective}
use mathlib.Core.Path.{subst, ap}
use luarc.Prelude.{ℕ, zero, suc, ◌≡◌, refl, ◌≤◌, set, none, some, List, [], ◌∷◌, true, arith}
use luarc.Object.{
  Ptr, Tag, Value, nil, boolean, lightuserdata, number, object, GcObject, udata, table,
}
use luarc.Heap.{cell, State, at_root, GcState, ok, fault}
use luarc.Heap.Total.{total}
use luarc.Release.{Call, has_gc, freetraversable, freeobj, releaseobj, subobjref, subref, sub_refs}
use luarc.Unlink.{unlink_root, unlink_gray, adjust_sweep}
use luarc.Members.{members}
use luarc.Release.Counted.{slots, ref_at, IsTidy, Counted, IsCounted}
use luarc.Release.Free.{Returns}
use luarc.Release.Methods.{NoMethods}
use luarc.Assign.{
  addref, sub_ref, setobj, setnilvalue, setnvalue, setpvalue, setbvalue, setgcvalue, setobj2n,
}
use luarc.Assign.Laws.{
  Updated, setobj-Updated, setnilvalue-Updated, setplain-Updated, setgcvalue-Updated,
  setobj2n-Counted,
}
use luarc.Release.Drop.{sub_refs-Released}
use luarc.Release.Counted.{nobody}
use luarc.Release.Shrink.{Released, weight}

abbrev no_call : Call
no_call p s = fault

abbrev a_table : (next prev : Ptr) (ref : ℕ) (array : List Value) → GcObject
a_table n p r vs = record {
  next = n;
  prev = p;
  gcnext = 0;
  gcprev = 0;
  ref = r;
  marked = 1;
  body = table 0 vs [];
}

abbrev outer_and_inner : State
outer_and_inner = record {
  heap = none ∷ some (a_table 2 0 1 (object Tag.table 2 ∷ nil ∷ [])) ∷ some (a_table 0 1 2 []) ∷ [];
  roots = object Tag.table 1 ∷ object Tag.table 2 ∷ number 7 ∷ [];
  rootgc = 1;
  gray = 0;
  grayagain = 0;
  weak = 0;
  sweepgc = at_root;
  gcstate = GcState.pause;
  strt_hash = [];
  strt_nuse = 0;
  mainthread = 0;
  currentwhite = 1;
  tm_gc = 0;
}

cells-IsTidy : (p : Ptr) (o : GcObject) → cell outer_and_inner.heap p ≡ some o → IsTidy o.body
cells-IsTidy zero o e = absurd (cc)
cells-IsTidy (suc zero) o e = subst IsTidy (ap (λ x. x.body) (some-injective _ o e)) tt
cells-IsTidy (suc (suc zero)) o e = subst IsTidy (ap (λ x. x.body) (some-injective _ o e)) tt
cells-IsTidy (suc (suc (suc p))) o e = absurd (cc)

counted : IsCounted outer_and_inner
unfolding total slots
counted = record {
  balance = λ p. ground arith;
  doomed_zero = λ p d. absurd (cc);
  tidy = cells-IsTidy;
}

no_udata :
    (p : Ptr) (o : GcObject) (mt env : Ptr)
    → cell outer_and_inner.heap p ≡ some o
    → o.body ≡ udata mt env
    → ⊥
no_udata zero o mt env e is = cc
no_udata (suc zero) o mt env e is = cc (ap (λ x. x.body) (some-injective _ o e))
no_udata (suc (suc zero)) o mt env e is = cc (ap (λ x. x.body) (some-injective _ o e))
no_udata (suc (suc (suc p))) o mt env e is = cc

quiet : NoMethods outer_and_inner
quiet p o mt env e is = absurd (no_udata p o mt env e is)

-- Overwriting the only holder of the outer table frees it and drops its hold of the inner one.
outer_freed : elim (setobj no_call 9 0 (object Tag.table 2) outer_and_inner) as (λ _. Type 0) [
  | ok t ↦
      (cell t.heap 1 ≡ none)
      × (ref_at 2 t.heap ≡ 2)
      × (t.rootgc ≡ 2)
      × (t.roots ≡ object Tag.table 2 ∷ object Tag.table 2 ∷ number 7 ∷ [])
  | _ ↦ ⊥
]
unfolding setobj addref sub_ref sub_refs subref subobjref releaseobj freeobj freetraversable
    unlink_root unlink_gray adjust_sweep members
outer_freed = (refl, refl, refl, refl)

setobj-Updated_example :
    Returns
      (Updated 0 (object Tag.table 2) outer_and_inner)
      (setobj no_call 9 0 (object Tag.table 2) outer_and_inner)
setobj-Updated_example =
    setobj-Updated no_call 9 0 outer_and_inner counted quiet (unfold total members in omega arith)
      (omega arith) (object Tag.table 2) (a_table 0 1 2 [], refl)

outer_weight : weight nobody outer_and_inner.heap ≤ 9
outer_weight = unfold total members in omega arith

setnilvalue-Updated_example :
    Returns (Updated 0 nil outer_and_inner) (setnilvalue no_call 9 0 outer_and_inner)
setnilvalue-Updated_example =
    setnilvalue-Updated no_call 9 0 outer_and_inner counted quiet outer_weight (omega arith)

setplain-Updated_example :
    Returns (Updated 0 (number 5) outer_and_inner) (setnvalue no_call 9 0 5 outer_and_inner)
    × Returns
        (Updated 0 (lightuserdata 5) outer_and_inner)
        (setpvalue no_call 9 0 5 outer_and_inner)
    × Returns
        (Updated 0 (boolean true) outer_and_inner)
        (setbvalue no_call 9 0 true outer_and_inner)
setplain-Updated_example =
    setplain-Updated no_call 9 0 outer_and_inner counted quiet outer_weight (omega arith) 5 true

setgcvalue-Updated_example :
    Returns
      (Updated 0 (object Tag.table 2) outer_and_inner)
      (setgcvalue no_call 9 0 Tag.table 2 outer_and_inner)
setgcvalue-Updated_example =
    setgcvalue-Updated no_call 9 0 outer_and_inner counted quiet outer_weight (omega arith)
      Tag.table 2 (a_table 0 1 2 []) refl

setobj2n-Counted_example :
    Returns
      (λ t. IsCounted t × (t.roots ≡ set outer_and_inner.roots 2 (object Tag.table 1)))
      (setobj2n 2 (object Tag.table 1) outer_and_inner)
setobj2n-Counted_example =
    setobj2n-Counted 2 (object Tag.table 1) outer_and_inner counted (omega arith) refl
      (a_table 2 0 1 (object Tag.table 2 ∷ nil ∷ []), refl)

-- The outer table is held once more than the roots say, by a value that is still to be dropped.
abbrev outer_pending : State
outer_pending = record outer_and_inner { roots = nil ∷ object Tag.table 2 ∷ number 7 ∷ [] }

pending_counted : Counted nobody (object Tag.table 1 ∷ []) outer_pending
unfolding total slots
pending_counted = record {
  balance = λ p. ground arith;
  doomed_zero = λ p d. absurd (cc);
  tidy = cells-IsTidy;
}

quiet_pending : NoMethods outer_pending
unfolding has_gc
quiet_pending = quiet

sub_refs-Released_example :
    Returns
      (Released nobody [] outer_pending)
      (sub_refs no_call 9 (object Tag.table 1 ∷ []) outer_pending)
sub_refs-Released_example =
    sub_refs-Released no_call 9 nobody [] (object Tag.table 1 ∷ []) outer_pending pending_counted
      quiet_pending (unfold total members in omega arith)
