-- ===== src/Release/Doom.antt =====
-- The three moves of a release on the counts: a value is dropped, an object at count 0 starts to
-- drop its members, and it is freed once they are gone (`luarc_subref` and `luaC_freeobj`).
use mathlib.Core.Path.{subst}
use mathlib.Core.Option.{some-injective}
use luarc.Prelude.{
  ◌-◌, ◌≡◌, refl, sym, ap, ◌∙◌, Bool, false, Option, none, some, List, ◌∷◌, ◌++◌, ◌==◌,
  if◌then◌else◌, arith, Bool-cases, inl, inr,
}
use luarc.Object.{Ptr, Value, GcObject}
use luarc.Heap.{cell, erase, State, store}
use luarc.Heap.Cells.{cell-erase, cell-update}
use luarc.Members.{members}
use luarc.Release.Members.{occ-members, occ-append}
use luarc.Release.Counted.{hit, occ, slots, IsTidy, ref_of, with_doomed, Counted}
use luarc.Release.Bodies.{
  sum_bodies-SameCores, sum_bodies-update, sum_bodies-doom, sum_bodies-erase,
}
use luarc.Release.Links.{core, SameCores}

-- Counts and weights read only cores.
ref_of-core : (c c' : Option GcObject) → core c' ≡ core c → ref_of c' ≡ ref_of c
ref_of-core none none e = refl
ref_of-core none (some o') e = absurd (cc)
ref_of-core (some o) none e = absurd (cc)
ref_of-core (some o) (some o') e = ap (λ x. x.ref) (some-injective _ _ e)

pub body_core :
    (c : Option GcObject) (o : GcObject)
    → core c ≡ core (some o)
    → (o' : GcObject) × (c ≡ some o')
      × (o'.body ≡ o.body)
      × (o'.ref ≡ o.ref)
      × (o'.marked ≡ o.marked)
body_core none o e = absurd (cc)
body_core (some o') o e =
    let same = some-injective _ _ e in
    (o', refl, ap (λ x. x.body) same, ap (λ x. x.ref) same, ap (λ x. x.marked) same)

-- A change of links keeps every count right.
pub Counted-SameCores :
    {doomed : Ptr → Bool} {pending : List Value} {s t : State}
    → SameCores s t
    → Counted doomed pending s
    → Counted doomed pending t
Counted-SameCores {doomed} {pending} {s} {t} same c = record {
  balance = λ p. omega (
    arith,
    ref_of-core (cell s.heap p) (cell t.heap p) (same.same_core p),
    ap (occ p) same.same_roots,
    sum_bodies-SameCores (slots p) doomed same,
    c.balance p,
  );
  doomed_zero =
      λ p d. ref_of-core (cell s.heap p) (cell t.heap p) (same.same_core p) ∙ c.doomed_zero p d;
  tidy = λ p o e.
      let there = body_core (cell s.heap p) o (sym (same.same_core p) ∙ ap core e) in
      subst IsTidy there.2 (c.tidy p there.0 there.1);
}

module _ {doomed : Ptr → Bool} {pending : List Value} {s : State} where
  -- A value that holds the object at `p` is dropped.
  pub Counted-drop :
      (p : Ptr) (o : GcObject) (v : Value)
      → cell s.heap p ≡ some o
      → ((q : Ptr) → hit q v ≡ (if p == q then 1 else 0))
      → Counted doomed (v ∷ pending) s
      → Counted doomed pending (store p (λ _. record o { ref = o.ref - 1 }) s)
  Counted-drop p o v e holds c = record {
    balance = λ q. ground (
      arith,
      cell-update s.heap p (λ _. record o { ref = o.ref - 1 }) q,
      sum_bodies-update (slots q) doomed s.heap p o (record o { ref = o.ref - 1 }) e refl,
      holds q,
      c.balance q,
    );
    doomed_zero = λ q d.
        ground (arith, cell-update s.heap p (λ _. record o { ref = o.ref - 1 }) q, c.doomed_zero q);
    tidy = λ q x found. elim (Bool-cases (q == p)) [
      | inl here ↦
          let same : o.body ≡ x.body =
            ground (arith, cell-update s.heap p (λ _. record o { ref = o.ref - 1 }) q) in
          subst IsTidy same (c.tidy p o e)
      | inr other ↦
          c.tidy q x (ground (arith, cell-update s.heap p (λ _. record o { ref = o.ref - 1 }) q))
    ];
  }

  -- An object's mark bits or links change.
  pub Counted-rewrite :
      (p : Ptr) (o o' : GcObject)
      → cell s.heap p ≡ some o
      → o'.body ≡ o.body
      → o'.ref ≡ o.ref
      → Counted doomed pending s
      → Counted doomed pending (store p (λ _. o') s)
  Counted-rewrite p o o' e same_body same_ref c = record {
    balance = λ q. ground (
      arith,
      cell-update s.heap p (λ _. o') q,
      sum_bodies-update (slots q) doomed s.heap p o o' e same_body,
      c.balance q,
    );
    doomed_zero = λ q d. ground (arith, cell-update s.heap p (λ _. o') q, c.doomed_zero q);
    tidy = λ q x found. elim (Bool-cases (q == p)) [
      | inl here ↦
          let same : o.body ≡ x.body = ground (arith, cell-update s.heap p (λ _. o') q) in
          subst IsTidy same (c.tidy p o e)
      | inr other ↦ c.tidy q x (ground (arith, cell-update s.heap p (λ _. o') q))
    ];
  }

  -- The object at `p`, with count 0, starts to drop its members.
  pub Counted-doom :
      (p : Ptr) (o : GcObject)
      → cell s.heap p ≡ some o
      → o.ref ≡ 0
      → doomed p ≡ false
      → Counted doomed pending s
      → Counted (with_doomed p doomed) (members o.body ++ pending) s
  Counted-doom p o e zero live c = record {
    balance = λ q. omega (
      arith,
      c.balance q,
      sum_bodies-doom (slots q) doomed s.heap p o e live,
      occ-append q (members o.body) pending,
      occ-members q o.body (c.tidy p o e),
    );
    doomed_zero = λ q d. ground (arith, c.doomed_zero q);
    tidy = c.tidy;
  }

  -- Its members are gone, and it is freed.
  pub Counted-erase :
      (p : Ptr)
      → Counted (with_doomed p doomed) pending s
      → Counted doomed pending (record s { heap = erase s.heap p })
  Counted-erase p c = record {
    balance = λ q. ground (
      arith,
      cell-erase s.heap p q,
      sum_bodies-erase (slots q) doomed s.heap p,
      c.balance q,
      c.doomed_zero q,
    );
    doomed_zero = λ q d. ground (arith, cell-erase s.heap p q, c.doomed_zero q);
    tidy = λ q x found. c.tidy q x (ground (arith, cell-erase s.heap p q));
  }
