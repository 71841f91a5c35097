-- ===== src/Release/Methods.antt =====
-- `has_gc`, the lookup of a `__gc` method (`fasttm` of src/ltm.h), along a release.
use luarc.Prelude.{◌≡◌, refl, sym, ap, ◌∙◌, false, Option, none, some}
use luarc.Object.{Ptr, GcObject, udata}
use luarc.Heap.{cell, State}
use luarc.Release.{has_method, cell_has_method, has_gc}
use luarc.Release.Shrink.{Shrunk, gone, kept}

-- What is left at an address has the body that was there before.
abbrev pub BodyKept : Option GcObject → Option GcObject → Type 0
BodyKept c c' = (o' : GcObject) → c' ≡ some o' → (o : GcObject) × (c ≡ some o) × (o'.body ≡ o.body)

-- No udata in the heap has a `__gc` method.
abbrev pub NoMethods : State → Type 0
NoMethods s =
    (p : Ptr) (o : GcObject) (mt env : Ptr)
    → cell s.heap p ≡ some o
    → o.body ≡ udata mt env
    → has_gc s mt ≡ false

pub BodyKept-Shrunk : {c c' : Option GcObject} → Shrunk c c' → BodyKept c c'
BodyKept-Shrunk (gone e) x found = absurd (cc)
BodyKept-Shrunk (kept o o' e e' b m r z) x found = (o, e, cc)

cell_has_method-kept :
    (k : Ptr) (c c' : Option GcObject)
    → BodyKept c c'
    → cell_has_method k c ≡ false
    → cell_has_method k c' ≡ false
cell_has_method-kept k c none keep h = refl
cell_has_method-kept k c (some o') keep h =
    let before = keep o' refl in
    ap (has_method k) before.2 ∙ (sym (ap (cell_has_method k) before.1) ∙ h)

has_gc-kept :
    (s t : State) (mt : Ptr)
    → BodyKept (cell s.heap mt) (cell t.heap mt)
    → t.tm_gc ≡ s.tm_gc
    → has_gc s mt ≡ false
    → has_gc t mt ≡ false
unfolding has_gc
has_gc-kept s t mt keep e h =
    rw e (cell_has_method-kept s.tm_gc (cell s.heap mt) (cell t.heap mt) keep h)

pub NoMethods-kept :
    (s t : State)
    → ((p : Ptr) → BodyKept (cell s.heap p) (cell t.heap p))
    → t.tm_gc ≡ s.tm_gc
    → NoMethods s
    → NoMethods t
NoMethods-kept s t keep e h p o mt env found is =
    let there = keep p o found in
    has_gc-kept s t mt (keep mt) e (h p there.0 mt env there.1 (sym there.2 ∙ is))
