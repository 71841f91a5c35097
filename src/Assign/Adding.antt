-- ===== src/Assign/Adding.antt =====
-- Counting a value that a slot has just been given (`luarc_addref` of src/lobject.h).
use mathlib.Core.Path.{subst}
use luarc.Prelude.{
  ◌+◌, ◌≡◌, ◌≤◌, refl, Option, some, List, ◌==◌, if◌then◌else◌, arith, Bool-cases, inl, inr,
}
use luarc.Object.{Ptr, Tag, Value, nil, boolean, lightuserdata, number, object, deadkey, GcObject}
use luarc.Heap.{Heap, cell, State, store}
use luarc.Heap.Cells.{cell-update}
use luarc.Release.Bodies.{sum_bodies-update}
use luarc.Release.Counted.{hit, occ, ref_at, refs_to, slots, nobody, IsTidy, Counted}
use luarc.Release.Free.{Returns, returns}
use luarc.Release.Shrink.{cost, weight}
use luarc.Assign.{addobjref, addref}

-- A value that is no object, or an object in the heap.
abbrev pub IsLive : Value → Heap → Type 0
IsLive (object t p) h = (o : GcObject) × (cell h p ≡ some o)
IsLive (deadkey p) h = ⊥
IsLive _ h = Unit {0}

-- The counts are right but for one more holder of `v`, which is not counted yet.
pub record Owed (v : Value) (pending : List Value) (s : State) : Type 0 where
  pub balance :
      (p : Ptr)
      → ref_at p s.heap + hit p v ≡ occ p s.roots + refs_to nobody p s.heap + occ p pending
  pub tidy : (p : Ptr) (o : GcObject) → cell s.heap p ≡ some o → IsTidy o.body

-- What stands at an address stood there before, with a count no higher and the same mark bits.
abbrev pub Raised : Option GcObject → Option GcObject → Type 0
Raised c c' =
    (o' : GcObject)
    → c' ≡ some o'
    → (o : GcObject) × (c ≡ some o) × (o'.body ≡ o.body) × (o.ref ≤ o'.ref) × (o'.marked ≡ o.marked)

pub record Added (pending : List Value) (s u : State) : Type 0 where
  pub counted : Counted nobody pending u
  pub raised : (q : Ptr) → Raised (cell s.heap q) (cell u.heap q)
  pub raised_ref : (q : Ptr) → ref_at q s.heap ≤ ref_at q u.heap
  pub same_roots : u.roots ≡ s.roots
  pub same_gc : u.tm_gc ≡ s.tm_gc
  pub same_weight : weight nobody u.heap ≡ weight nobody s.heap

module _ {pending : List Value} (s : State) where
  module _ (t : Tag) (p : Ptr) (o : GcObject) (here : cell s.heap p ≡ some o)
      (owed : Owed (object t p) pending s) where
    abbrev counted_once : State
    counted_once = store p (λ _. record o { ref = o.ref + 1 }) s

    written :
        (q : Ptr)
        → cell counted_once.heap q
          ≡ (if q == p then some (record o { ref = o.ref + 1 }) else cell s.heap q)
    written q = ground (arith, cell-update s.heap p (λ _. record o { ref = o.ref + 1 }) q)

    counted_once-Counted : Counted nobody pending counted_once
    counted_once-Counted = record {
      balance = λ q. ground (
        arith,
        written q,
        sum_bodies-update (slots q) nobody s.heap p o (record o { ref = o.ref + 1 }) here refl,
        owed.balance q,
      );
      doomed_zero = λ q d. absurd (cc);
      tidy = λ q x found. elim (Bool-cases (q == p)) [
        | inl at ↦
            let same : o.body ≡ x.body = ground (arith, written q) in
            subst IsTidy same (owed.tidy p o here)
        | inr ne ↦ owed.tidy q x (ground (arith, written q))
      ];
    }

    pub addobjref-Added : Returns (Added pending s) (addobjref p s)
    unfolding addobjref
    addobjref-Added =
        rw (here, addobjref)
          (returns (record {
            counted = counted_once-Counted;
            raised = λ q x found. elim (Bool-cases (q == p)) [
              | inl at ↦ (
                o,
                ground (arith, here),
                ground (arith, written q),
                ground (arith, written q),
                ground (arith, written q),
              )
              | inr ne ↦ (x, ground (arith, written q), refl, omega arith, refl)
            ];
            raised_ref = λ q. ground (arith, written q);
            same_roots = refl;
            same_gc = refl;
            same_weight =
                sum_bodies-update cost nobody s.heap p o (record o { ref = o.ref + 1 }) here refl;
          }))

  pub plain-Added : (v : Value) → ((q : Ptr) → hit q v ≡ 0) → Owed v pending s → Added pending s s
  plain-Added v nothing owed = record {
    counted = record {
      balance = λ q. omega (arith, owed.balance q, nothing q);
      doomed_zero = λ q d. absurd (cc);
      tidy = owed.tidy;
    };
    raised = λ q x found. (x, found, refl, omega arith, refl);
    raised_ref = λ q. omega arith;
    same_roots = refl;
    same_gc = refl;
    same_weight = refl;
  }

  pub addref-Added :
      (v : Value) → IsLive v s.heap → Owed v pending s → Returns (Added pending s) (addref v s)
  unfolding addref
  addref-Added (object t p) live owed = addobjref-Added t p live.0 live.1 owed
  addref-Added (deadkey p) live owed = absurd live
  addref-Added nil live owed = returns (plain-Added nil (λ q. refl) owed)
  addref-Added (boolean b) live owed = returns (plain-Added (boolean b) (λ q. refl) owed)
  addref-Added (lightuserdata n) live owed =
      returns (plain-Added (lightuserdata n) (λ q. refl) owed)
  addref-Added (number n) live owed = returns (plain-Added (number n) (λ q. refl) owed)
