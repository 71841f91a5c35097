-- ===== src/Assign/Laws.antt =====
-- Setting a value (src/lobject.h) keeps every count right, and frees what it leaves unreferenced.
use mathlib.Core.Option.{some-injective}
use mathlib.Core.Path.{ap₂}
use luarc.Prelude.{
  ℕ, zero, suc, ◌+◌, ◌≡◌, ◌≤◌, ◌<◌, refl, sym, ap, ◌∙◌, Bool, true, Option, some, List, [], ◌∷◌,
  length, set, get_or, arith,
}
use luarc.Object.{
  Ptr, Tag, Value, nil, boolean, lightuserdata, number, object, deadkey, GcObject, gcvalues,
}
use luarc.Heap.{cell, State}
use luarc.Release.{Call}
use luarc.Release.Counted.{hit, occ, ref_of, ref_at, nobody, IsCounted}
use luarc.Release.Drop.{subref-Released, sub_refs-Releases}
use luarc.Release.Free.{Returns, Returns-bind, Returns-mono}
use luarc.Release.Methods.{BodyKept, NoMethods, NoMethods-kept}
use luarc.Release.Shrink.{Shrunk, gone, kept, weight, frees}
use luarc.Assign.{
  sub_ref, slot, write_slot, setobj, setnilvalue, setnvalue, setpvalue, setbvalue, setgcvalue,
  setobj2n,
}
use luarc.Assign.Adding.{IsLive, Owed, Added, addobjref-Added, plain-Added, addref-Added}

pub occ-set :
    (p : Ptr) (vs : List Value) (i : ℕ) (v : Value)
    → i < length vs
    → occ p (set vs i v) + hit p (get_or vs i nil) ≡ occ p vs + hit p v
occ-set p [] i v h = absurd (omega arith)
occ-set p (x ∷ xs) zero v h = omega arith
occ-set p (x ∷ xs) (suc i) v h = omega (arith, occ-set p xs i v)

-- What is left at an address has the body and the mark bits that were there before.
abbrev pub Kept : Option GcObject → Option GcObject → Type 0
Kept c c' =
    (o' : GcObject)
    → c' ≡ some o'
    → (o : GcObject) × (c ≡ some o) × (o'.body ≡ o.body) × (o'.marked ≡ o.marked)

Kept-Shrunk : {c c' : Option GcObject} → Shrunk c c' → Kept c c'
Kept-Shrunk (gone e) x found = absurd (cc)
Kept-Shrunk (kept o o' e e' b m r z) x found = (o, e, cc, cc)

-- The slot holds `v`, the other slots are the same, the counts are right, the objects that are left
-- have their bodies and mark bits, and none that `luarc_releaseobj` would free is left at count 0
-- unless it was at count 0 before.
pub record Updated (i : ℕ) (v : Value) (s t : State) : Type 0 where
  pub counted : IsCounted t
  pub same_slots : t.roots ≡ set s.roots i v
  pub kept : (q : Ptr) → Kept (cell s.heap q) (cell t.heap q)
  pub reclaimed :
      (q : Ptr) (o : GcObject)
      → cell t.heap q ≡ some o
      → o.ref ≡ 0
      → frees o.marked o.body ≡ true
      → ref_at q s.heap ≡ 0

Shrunk-reclaims :
    {c c' : Option GcObject} {o : GcObject}
    → Shrunk c c'
    → c' ≡ some o
    → o.ref ≡ 0
    → frees o.marked o.body ≡ true
    → ref_of c ≡ 0
Shrunk-reclaims (gone e) found z f = absurd (cc)
Shrunk-reclaims {o} (kept x x' e e' b m r keeps) found z f =
    let same : o ≡ x' = some-injective o x' (sym found ∙ e') in
    let marked : o.marked ≡ x.marked = ap (λ y. y.marked) same ∙ m in
    let body : o.body ≡ x.body = ap (λ y. y.body) same ∙ b in
    ap ref_of e ∙ keeps (sym (ap (λ y. y.ref) same) ∙ z) (sym (ap₂ frees marked body) ∙ f)

module _ (call : Call) (fuel i : ℕ) (s : State) (counted : IsCounted s) (quiet : NoMethods s)
    (fits : weight nobody s.heap ≤ fuel) (in_range : i < length s.roots) where
  owed : (v : Value) → Owed v (slot i s ∷ []) (write_slot i v s)
  owed v = record {
    balance = λ p. omega (arith, counted.balance p, occ-set p s.roots i v in_range);
    tidy = counted.tidy;
  }

  drop-Updated :
      (v : Value) {u : State}
      → Added (slot i s ∷ []) (write_slot i v s) u
      → Returns (Updated i v s) (sub_ref call fuel (slot i s) u)
  unfolding sub_ref
  drop-Updated v {u} a =
      let bodies : (q : Ptr) → BodyKept (cell s.heap q) (cell u.heap q) =
        λ q x found. let b = a.raised q x found in (b.0, b.1, b.2) in
      Returns-mono
        (subref-Released (sub_refs-Releases call fuel) call nobody [] u
          (NoMethods-kept s u bodies a.same_gc quiet) (omega (arith, a.same_weight)) (slot i s)
          a.counted)
        λ t r. record {
          counted = r.counted;
          same_slots = r.same_roots ∙ a.same_roots;
          kept = λ q x found.
              let b = Kept-Shrunk (r.shrunk q) x found in
              let c = a.raised q b.0 b.1 in (c.0, c.1, b.2 ∙ c.2, b.3 ∙ c.4);
          reclaimed = λ q o found z f.
              omega (arith, a.raised_ref q, Shrunk-reclaims (r.shrunk q) found z f);
        }

  -- Assigning a live value to a root slot returns. The slot then holds it and the other slots are the
  -- same, every count is the number of holders, an object that is not freed has the body and the mark
  -- bits that it had (its links may change), none is made, and none that `luarc_releaseobj` may free is
  -- left at count 0 unless it was at count 0 before. The conditions are
  -- right counts, no `__gc` methods, and fuel for each live object and each of its members.
  pub setobj-Updated :
      (v : Value) → IsLive v s.heap → Returns (Updated i v s) (setobj call fuel i v s)
  unfolding setobj
  setobj-Updated v live =
      Returns-bind (addref-Added (write_slot i v s) v live (owed v)) (λ u a. drop-Updated v a)

  -- The same of setting a root slot to nil, under the same conditions.
  pub setnilvalue-Updated : Returns (Updated i nil s) (setnilvalue call fuel i s)
  unfolding setnilvalue
  setnilvalue-Updated =
      drop-Updated nil (plain-Added (write_slot i nil s) nil (λ q. refl) (owed nil))

  -- The same of the setters of numbers, light userdata and booleans, under the same conditions.
  pub setplain-Updated :
      (x : ℕ) (b : Bool)
      → Returns (Updated i (number x) s) (setnvalue call fuel i x s)
        × Returns (Updated i (lightuserdata x) s) (setpvalue call fuel i x s)
        × Returns (Updated i (boolean b) s) (setbvalue call fuel i b s)
  unfolding setnvalue setpvalue setbvalue
  setplain-Updated x b = (
    drop-Updated (number x)
        (plain-Added (write_slot i (number x) s) _ (λ q. refl) (owed (number x))),
    drop-Updated (lightuserdata x)
        (plain-Added (write_slot i (lightuserdata x) s) _ (λ q. refl) (owed (lightuserdata x))),
    drop-Updated (boolean b)
        (plain-Added (write_slot i (boolean b) s) _ (λ q. refl) (owed (boolean b))),
  )

  -- The same of the setters of an object by its tag, which has to be live.
  pub setgcvalue-Updated :
      (t : Tag) (x : Ptr) (o : GcObject)
      → cell s.heap x ≡ some o
      → Returns (Updated i (object t x) s) (setgcvalue call fuel i t x s)
  unfolding setgcvalue
  setgcvalue-Updated t x o here =
      Returns-bind (addobjref-Added (write_slot i (object t x) s) t x o here (owed (object t x)))
        (λ u a. drop-Updated (object t x) a)

hit-plain : (p : Ptr) (v : Value) → gcvalues v ≡ [] → hit p v ≡ 0
hit-plain p nil h = refl
hit-plain p (boolean b) h = refl
hit-plain p (lightuserdata n) h = refl
hit-plain p (number n) h = refl
hit-plain p (object t q) h = absurd (cc)
hit-plain p (deadkey q) h = absurd (cc)

-- Where a slot holds no object, `setobj2n` of a live value, which releases nothing, keeps every count
-- right and puts the value into the slot.
pub setobj2n-Counted :
    (i : ℕ) (v : Value) (s : State)
    → IsCounted s
    → i < length s.roots
    → gcvalues (slot i s) ≡ []
    → IsLive v s.heap
    → Returns (λ t. IsCounted t × (t.roots ≡ set s.roots i v)) (setobj2n i v s)
unfolding setobj2n
setobj2n-Counted i v s counted in_range fresh live =
    Returns-mono
      (addref-Added {pending = []} (write_slot i v s) v live (record {
        balance = λ p. omega (
          arith,
          counted.balance p,
          occ-set p s.roots i v in_range,
          hit-plain p (slot i s) fresh,
        );
        tidy = counted.tidy;
      }))
      λ t a. (a.counted, a.same_roots)
