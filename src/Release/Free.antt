-- ===== src/Release/Free.antt =====
-- `luarc_subref` and `luaC_freeobj` of src/lgc.c release what they should: the induction over the
-- member loops.
use mathlib.Core.Path.{subst}
use luarc.Prelude.{
  ℕ, ◌+◌, ◌≡◌, ◌≤◌, ◌<◌, sym, ap, ◌∙◌, ◌≢◌, Bool, false, none, some, List, ◌++◌, length, arith,
}
use luarc.Object.{Ptr, Value, GcObject}
use luarc.Heap.{cell, State, Run, ok, ◌>>=◌}
use luarc.Heap.Cells.{cell-erase}
use luarc.Release.{Loop, free_with}
use luarc.Members.{members}
use luarc.Release.Bodies.{sum_bodies-SameCores, sum_bodies-doom, sum_bodies-erase}
use luarc.Release.Counted.{with_doomed, Counted}
use luarc.Release.Methods.{BodyKept-Shrunk, NoMethods, NoMethods-kept}
use native.Mathlib.Nat.{le_of_eq}
use luarc.Release.Doom.{body_core, Counted-SameCores, Counted-doom, Counted-erase}
use luarc.Release.Links.{core, SameCores}
use luarc.Release.Shrink.{Shrunk, Shrunk-trans, Shrunk-core, cost, weight, Released}

-- A run that returns, with a property of the state that it returns.
pub data Returns (P : State → Type 0) : Run State → Type 0 where
  returns : {s : State} → P s → Returns P (ok s)

pub Returns-bind :
    {P Q : State → Type 0} {r : Run State} {k : State → Run State}
    → Returns P r
    → ((s : State) → P s → Returns Q (k s))
    → Returns Q (r >>= k)
Returns-bind (returns p) next = next _ p

pub Returns-mono :
    {P Q : State → Type 0} {r : Run State} → Returns P r → ((s : State) → P s → Q s) → Returns Q r
Returns-mono (returns p) weaken = returns (weaken _ p)

-- What is asked of the member loop, when it is given at most `fuel` steps of work.
abbrev pub Releases : ℕ → Loop → Type 0
Releases fuel rec =
    (doomed : Ptr → Bool) (pending vs : List Value) (s : State)
    → Counted doomed (vs ++ pending) s
    → NoMethods s
    → weight doomed s.heap + length vs < fuel
    → Returns (Released doomed pending s) (rec vs s)

-- The object at `p` is freed, and the others as in `Released`.
pub record Freed (doomed : Ptr → Bool) (pending : List Value) (p : Ptr) (s u : State) : Type 0 where
  pub counted : Counted doomed pending u
  pub lighter : weight doomed u.heap ≤ weight doomed s.heap
  pub shrunk : (q : Ptr) → q ≢ p → Shrunk (cell s.heap q) (cell u.heap q)
  pub freed : cell u.heap p ≡ none
  pub same_roots : u.roots ≡ s.roots
  pub same_gc : u.tm_gc ≡ s.tm_gc

module _ {doomed : Ptr → Bool} {pending : List Value} where
  -- The steps before the free that change nothing but the object's own cell.
  pub Freed-before :
      (p : Ptr) {s t u : State}
      → ((q : Ptr) → q ≢ p → Shrunk (cell s.heap q) (cell t.heap q))
      → weight doomed t.heap ≤ weight doomed s.heap
      → t.roots ≡ s.roots
      → t.tm_gc ≡ s.tm_gc
      → Freed doomed pending p t u
      → Freed doomed pending p s u
  Freed-before p shrunk lighter roots gc r = record {
    counted = r.counted;
    lighter = omega (arith, r.lighter);
    shrunk = λ q ne. Shrunk-trans (shrunk q ne) (r.shrunk q ne);
    freed = r.freed;
    same_roots = r.same_roots ∙ roots;
    same_gc = r.same_gc ∙ gc;
  }

  Freed-SameCores :
      (p : Ptr) {s t u : State}
      → SameCores s t
      → Freed doomed pending p t u
      → Freed doomed pending p s u
  Freed-SameCores p {s} {t} same =
      Freed-before p (λ q ne. Shrunk-core (cell s.heap q) (cell t.heap q) (same.same_core q))
        (le_of_eq (sum_bodies-SameCores cost doomed same)) same.same_roots same.same_gc

  -- `o` is the object as it was read before it came off its lists, `o'` as it stands now.
  pub free_with-Freed :
      {fuel : ℕ} {rec : Loop}
      → Releases fuel rec
      → (p : Ptr) (o o' : GcObject) (t : State) → cell t.heap p ≡ some o'
      → o.body ≡ o'.body
      → o'.ref ≡ 0
      → doomed p ≡ false
      → Counted doomed pending t
      → NoMethods t
      → weight doomed t.heap ≤ fuel
      → Returns (Freed doomed pending p t) (free_with rec p o t)
  free_with-Freed ih p o o' t e same empty live c quiet fits =
      let c' = Counted-doom p o' e empty live c in
      let w = sum_bodies-doom cost doomed t.heap p o' e live in
      rw same (
        Returns-bind (ih (with_doomed p doomed) pending (members o'.body) t c' quiet (omega arith))
          λ u r. returns (record {
            counted = Counted-erase p r.counted;
            lighter = omega (arith, r.lighter, sum_bodies-erase cost doomed u.heap p);
            shrunk = λ q ne.
                subst (Shrunk (cell t.heap q)) (ground (arith, cell-erase u.heap p q)) (r.shrunk q);
            freed = ground (arith, cell-erase u.heap p p);
            same_roots = r.same_roots;
            same_gc = r.same_gc;
          }))

  -- The same from the state before the object came off its lists.
  pub free_with-Freed_after :
      {fuel : ℕ} {rec : Loop}
      → Releases fuel rec
      → (p : Ptr) (o : GcObject) (s t : State) → SameCores s t
      → cell s.heap p ≡ some o
      → o.ref ≡ 0
      → doomed p ≡ false
      → Counted doomed pending s
      → NoMethods s
      → weight doomed s.heap ≤ fuel
      → Returns (Freed doomed pending p s) (free_with rec p o t)
  free_with-Freed_after ih p o s t same e empty live c quiet fits =
      let now = body_core (cell t.heap p) o (same.same_core p ∙ ap core e) in
      Returns-mono
        (free_with-Freed ih p o now.0 t now.1 (sym now.2) (now.3 ∙ empty) live
          (Counted-SameCores same c)
          (NoMethods-kept s t
            (λ q. BodyKept-Shrunk (Shrunk-core (cell s.heap q) (cell t.heap q) (same.same_core q)))
            same.same_gc quiet)
          (omega (arith, sum_bodies-SameCores cost doomed same)))
        λ u r. Freed-SameCores p same r
