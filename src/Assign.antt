-- ===== src/Assign.antt =====
-- The macros of src/lobject.h that set a value: the counting ones, those for a new slot, and those
-- that leave the counts to the caller. The slot is one of the roots, by its index.
mod Examples
pub mod Adding
pub mod Laws
use luarc.Prelude.{ℕ, ◌+◌, Bool, none, some, List, [], ◌∷◌, set, get_or}
use luarc.Object.{Ptr, Tag, Value, nil, boolean, lightuserdata, number, object, GcObject, gcvalues}
use luarc.Heap.{cell, State, store, Run, ok, fault, ◌>>=◌}
use luarc.Release.{Call, subref, sub_refs}

-- `luarc_addobjref`.
pub addobjref : Ptr → State → Run State
addobjref p s = elim (cell s.heap p) [
  | none ↦ fault
  | some o ↦ ok (store p (λ _. record o { ref = o.ref + 1 }) s)
]

-- `luarc_addref`.
pub addref : Value → State → Run State
unfolding addobjref
addref v s = elim (gcvalues v) [ [] ↦ ok s | p ∷ _ ↦ addobjref p s ]

-- `luarc_subref` with the loop over members on fuel.
pub sub_ref : Call → ℕ → Value → State → Run State
sub_ref call fuel v s = subref (sub_refs call fuel) call v s

abbrev pub slot : ℕ → State → Value
slot i s = get_or s.roots i nil

-- The bare write of a value and its tag: the macros ending in `nrc`, and those in `2n` for values
-- that are no objects.
abbrev pub write_slot : ℕ → Value → State → State
write_slot i v s = record s { roots = set s.roots i v }

-- `setobj`: the new value is counted before the old one is dropped.
pub setobj : Call → ℕ → ℕ → Value → State → Run State
setobj call fuel i v s = let dup = slot i s in addref v (write_slot i v s) >>= sub_ref call fuel dup

-- `setnilvalue`.
pub setnilvalue : Call → ℕ → ℕ → State → Run State
setnilvalue call fuel i s = let dup = slot i s in sub_ref call fuel dup (write_slot i nil s)

-- `setnvalue`, `setpvalue` and `setbvalue`.
pub setnvalue : Call → ℕ → ℕ → ℕ → State → Run State
setnvalue call fuel i x s = let dup = slot i s in sub_ref call fuel dup (write_slot i (number x) s)

pub setpvalue : Call → ℕ → ℕ → ℕ → State → Run State
setpvalue call fuel i x s =
    let dup = slot i s in sub_ref call fuel dup (write_slot i (lightuserdata x) s)

pub setbvalue : Call → ℕ → ℕ → Bool → State → Run State
setbvalue call fuel i x s = let dup = slot i s in sub_ref call fuel dup (write_slot i (boolean x) s)

-- `setsvalue`, `setuvalue`, `setthvalue`, `setclvalue`, `sethvalue` and `setptvalue`, by their tag.
pub setgcvalue : Call → ℕ → ℕ → Tag → Ptr → State → Run State
setgcvalue call fuel i t x s =
    let dup = slot i s in addobjref x (write_slot i (object t x) s) >>= sub_ref call fuel dup

-- `setobj2n`, and by a tag the others that write an object to a new slot.
pub setobj2n : ℕ → Value → State → Run State
setobj2n i v s = addref v (write_slot i v s)

pub setgcvalue2n : ℕ → Tag → Ptr → State → Run State
setgcvalue2n i t x s = addobjref x s >>= λ s'. ok (write_slot i (object t x) s')
