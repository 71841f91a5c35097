-- ===== src/Release/Shrink.antt =====
-- How a release changes the heap: objects go, counts fall, and nothing else moves.
use mathlib.Core.Path.{ap₂}
use mathlib.Core.Option.{some-injective}
use luarc.Prelude.{
  ℕ, suc, ◌≡◌, ◌≤◌, refl, sym, ap, ◌∙◌, Bool, true, false, not, ◌&&◌, ◌||◌, Option, none, some,
  List, length, arith,
}
use luarc.Object.{
  Ptr, Value, Body, udata, open_upval, GcObject, testbit, finalizedbit, fixedbit, sfixedbit,
}
use luarc.Heap.{Heap, cell, State}
use luarc.Members.{members}
use luarc.Release.Links.{core}
use luarc.Release.Counted.{sum_bodies, Counted}

-- `luarc_releaseobj` frees an object with these mark bits and this body.
abbrev pub kind_frees : ℕ → Body → Bool
kind_frees marked (open_upval _) = false
kind_frees marked (udata _ _) = not (testbit marked finalizedbit)
kind_frees marked _ = true

abbrev pub frees : ℕ → Body → Bool
frees marked b = not (testbit marked fixedbit || testbit marked sfixedbit) && kind_frees marked b

-- One cell before and after: the object is gone, or the same with a count no higher, and it comes to
-- count 0 only where `luarc_releaseobj` keeps it.
pub data Shrunk (c c' : Option GcObject) : Type 0 where
  gone : c' ≡ none → Shrunk c c'
  kept :
      (o o' : GcObject)
      → c ≡ some o
      → c' ≡ some o'
      → o'.body ≡ o.body
      → o'.marked ≡ o.marked
      → o'.ref ≤ o.ref
      → (o'.ref ≡ 0 → frees o.marked o.body ≡ true → o.ref ≡ 0)
      → Shrunk c c'

pub Shrunk-refl : (c : Option GcObject) → Shrunk c c
Shrunk-refl none = gone refl
Shrunk-refl (some o) = kept o o refl refl refl refl (omega arith) (λ z f. z)

pub Shrunk-trans : {a b c : Option GcObject} → Shrunk a b → Shrunk b c → Shrunk a c
Shrunk-trans x (gone e) = gone e
Shrunk-trans (gone e) (kept o o' d d' b m r z) = absurd (cc)
Shrunk-trans (kept p p' c c' b₁ m₁ r₁ z₁) (kept o o' d d' b₂ m₂ r₂ z₂) =
    let same : o ≡ p' = some-injective o p' (sym d ∙ c') in
    let body : o.body ≡ p.body = ap (λ x. x.body) same ∙ b₁ in
    let marked : o.marked ≡ p.marked = ap (λ x. x.marked) same ∙ m₁ in
    let ref : o.ref ≡ p'.ref = ap (λ x. x.ref) same in
    kept p o' c d' (b₂ ∙ body) (m₂ ∙ marked) (omega (arith, r₁, r₂, ref))
      (λ z f. z₁ (sym ref ∙ z₂ z (ap₂ frees marked body ∙ f)) f)

pub Shrunk-core : (c c' : Option GcObject) → core c' ≡ core c → Shrunk c c'
Shrunk-core c none e = gone refl
Shrunk-core none (some o') e = absurd (cc)
Shrunk-core (some o) (some o') e =
    let same = some-injective _ _ e in
    let ref : o'.ref ≡ o.ref = ap (λ x. x.ref) same in
    kept o o' refl refl (ap (λ x. x.body) same) (ap (λ x. x.marked) same) (omega arith)
      (λ z f. omega arith)

-- What the loops that are still to come can cost: a step for each live object and each member.
abbrev pub cost : Body → ℕ
cost b = suc (length (members b))

abbrev pub weight : (Ptr → Bool) → Heap → ℕ
weight doomed h = sum_bodies cost doomed h

-- The outcome of dropping values from `s`, with `pending` left to drop.
pub record Released (doomed : Ptr → Bool) (pending : List Value) (s s' : State) : Type 0 where
  pub counted : Counted doomed pending s'
  pub lighter : weight doomed s'.heap ≤ weight doomed s.heap
  pub shrunk : (p : Ptr) → Shrunk (cell s.heap p) (cell s'.heap p)
  pub same_roots : s'.roots ≡ s.roots
  pub same_gc : s'.tm_gc ≡ s.tm_gc
