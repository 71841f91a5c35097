-- ===== src/Release/Leaves.antt =====
-- The end of `luarc_freeudata` of src/lgc.c, and the mark bit that it sets.
use luarc.Prelude.{
  ◌≡◌, refl, sym, ap, ◌∙◌, true, false, Option, none, some, inl, inr, Option-cases, Bool, ℕ, ◌+◌,
  ◌*◌, ◌/◌, ◌%◌, arith,
}
use luarc.Object.{Ptr, GcObject, testbit, l_setbit, finalizedbit}
use luarc.Heap.{cell, State, Run, ok, fault, out_of_fuel, ◌>>=◌}
use luarc.Heap.Cells.{cell-erase}
use luarc.Release.Links.{Core, core}
use luarc.Release.{Loop, has_method, cell_has_method, finish_udata}

-- Where a run returns, nothing stands at `p`.
pub data Leaves (p : Ptr) : Run State → Type 0 where
  leaves : {t : State} → cell t.heap p ≡ none → Leaves p (ok t)
  faults : Leaves p fault
  stops : Leaves p out_of_fuel

Leaves-bind :
    (p : Ptr) (r : Run State) (k : State → Run State)
    → ((s : State) → Leaves p (k s))
    → Leaves p (r >>= k)
Leaves-bind p (ok s) k h = h s
Leaves-bind p fault k h = faults
Leaves-bind p out_of_fuel k h = stops

pub finish_udata-Leaves : (rec : Loop) (p : Ptr) (s : State) → Leaves p (finish_udata rec p s)
unfolding finish_udata
finish_udata-Leaves rec p s = elim (Option-cases (cell s.heap p)) [
  | inl gone ↦ rw (gone, finish_udata) faults
  | inr (o, here) ↦
      rw (here, finish_udata)
        (Leaves-bind p (rec _ _) _ (λ u. leaves (ground (arith, cell-erase u.heap p p))))
]

pub Leaves-ok : (p : Ptr) (r : Run State) (t : State) → Leaves p r → r ≡ ok t → cell t.heap p ≡ none
Leaves-ok p _ t (leaves e) same =
    sym (ap (λ r. elim r as (λ _. Option GcObject) [ ok x ↦ cell x.heap p | _ ↦ none ]) same) ∙ e
Leaves-ok p _ t faults same = absurd (cc)
Leaves-ok p _ t stops same = absurd (cc)

pub ok_bind :
    (r : Run State) (k : State → Run State) (t : State)
    → (r >>= k) ≡ ok t
    → (u : State) × (r ≡ ok u) × (k u ≡ ok t)
ok_bind (ok u) k t h = (u, refl, h)
ok_bind fault k t h = absurd (cc)
ok_bind out_of_fuel k t h = absurd (cc)

core_has_method : Ptr → Option Core → Bool
core_has_method k none = false
core_has_method k (some c) = has_method k c.body

core_has_method_lem :
    (k : Ptr) (c : Option GcObject) → core_has_method k (core c) ≡ cell_has_method k c
unfolding core_has_method
core_has_method_lem k none = refl
core_has_method_lem k (some o) = refl

pub method_core :
    (k : Ptr) (c c' : Option GcObject)
    → core c ≡ core c'
    → cell_has_method k c ≡ cell_has_method k c'
method_core k c c' h =
    sym (core_has_method_lem k c) ∙ ap (core_has_method k) h ∙ core_has_method_lem k c'

-- `makewhite` leaves the bit that was set.
pub bit_kept :
    (m white before : ℕ)
    → m ≡ l_setbit before finalizedbit
    → testbit before finalizedbit ≡ false
    → testbit (m / 8 * 8 + white % 4) finalizedbit ≡ true
unfolding l_setbit
bit_kept m white before e fresh = ground arith
