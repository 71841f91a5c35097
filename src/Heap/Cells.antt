-- ===== src/Heap/Cells.antt =====
-- Reads after writes of src/lobject.h's cells.
use luarc.Prelude.{
  zero, suc, ◌≡◌, refl, none, [], ◌∷◌, length, length-set, ◌==◌, if◌then◌else◌, arith,
}
use luarc.Object.{Ptr, GcObject}
use luarc.Heap.{Heap, cell, map_cell, update, erase}

pub cell-erase : (h : Heap) (p q : Ptr) → cell (erase h p) q ≡ (if q == p then none else cell h q)
cell-erase [] p q = ground arith
cell-erase (c ∷ h) zero zero = refl
cell-erase (c ∷ h) zero (suc q) = ground arith
cell-erase (c ∷ h) (suc p) zero = ground arith
cell-erase (c ∷ h) (suc p) (suc q) = ground (arith, cell-erase h p q)

pub cell-update :
    (h : Heap) (p : Ptr) (f : GcObject → GcObject) (q : Ptr)
    → cell (update h p f) q ≡ (if q == p then map_cell f (cell h p) else cell h q)
cell-update [] p f q = ground arith
cell-update (c ∷ h) zero f zero = refl
cell-update (c ∷ h) zero f (suc q) = ground arith
cell-update (c ∷ h) (suc p) f zero = ground arith
cell-update (c ∷ h) (suc p) f (suc q) = ground (arith, cell-update h p f q)

pub length-update :
    (h : Heap) (p : Ptr) (f : GcObject → GcObject) → length (update h p f) ≡ length h
length-update h p f = length-set h p (map_cell f (cell h p))
