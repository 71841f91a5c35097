-- ===== src/Heap.antt =====
-- The heap and the collector's global state: `global_State` of src/lstate.h as far as releasing an
-- object reads or writes it, and the writes to list links.
pub mod Cells
pub mod Total
use luarc.Prelude.{
  ℕ, zero, suc, ◌+◌, ◌-◌, Bool, true, false, not, ◌&&◌, ◌||◌, Option, none, some, List, [], ◌∷◌,
  set, ◌==◌, if◌then◌else◌,
}
use luarc.Object.{Ptr, null, Value, GcObject, testbit, white0bit, white1bit, blackbit}
use mathlib.Core.Option

abbrev pub Heap : Type 0
Heap = List (Option GcObject)

-- What stands at an address: `none` for NULL's cell, past the end, and where memory was freed.
abbrev pub cell : Heap → Ptr → Option GcObject
cell [] p = none
cell (c ∷ h) zero = c
cell (c ∷ h) (suc p) = cell h p

abbrev pub map_cell : (GcObject → GcObject) → Option GcObject → Option GcObject
map_cell f none = none
map_cell f (some o) = some (f o)

-- A write through a pointer. Where nothing stands there it changes nothing.
abbrev pub update : Heap → Ptr → (GcObject → GcObject) → Heap
update h p f = set h p (map_cell f (cell h p))

-- `luaM_freemem` of the object at `p`.
abbrev pub erase : Heap → Ptr → Heap
erase h p = set h p none

pub data GcState : Type 0 where
  pause propagate sweepstring sweep finalize : GcState

-- `sweepgc` points at a link: at `rootgc`, or at the `next` of an object.
pub data SweepPos : Type 0 where
  at_root : SweepPos
  at_next : Ptr → SweepPos

-- `roots` are the value slots outside the heap: the registers, the registry, the metatables of
-- the basic types. `tm_gc` is the address of the string "__gc".
pub record State : Type 0 where
  pub heap : Heap
  pub roots : List Value
  pub rootgc : Ptr
  pub gray : Ptr
  pub grayagain : Ptr
  pub weak : Ptr
  pub sweepgc : SweepPos
  pub gcstate : GcState
  pub strt_hash : List Ptr
  pub strt_nuse : ℕ
  pub mainthread : Ptr
  pub currentwhite : ℕ
  pub tm_gc : Ptr

pub data Run (A : Type 0) : Type 0 where
  ok : A → Run A
  fault : Run A
  out_of_fuel : Run A

infixl 5 ◌>>=◌
abbrev pub ◌>>=◌ : {A B : Type 0} → Run A → (A → Run B) → Run B
ok a >>= f = f a
fault >>= f = fault
out_of_fuel >>= f = out_of_fuel

abbrev pub store : Ptr → (GcObject → GcObject) → State → State
store p f s = record s { heap = update s.heap p f }

-- `p->gch.next = x` and its kin.
abbrev pub set_next : Ptr → Ptr → State → State
set_next p x = store p (λ o. record o { next = x })

abbrev pub set_prev : Ptr → Ptr → State → State
set_prev p x = store p (λ o. record o { prev = x })

abbrev pub set_gcnext : Ptr → Ptr → State → State
set_gcnext p x = store p (λ o. record o { gcnext = x })

abbrev pub set_gcprev : Ptr → Ptr → State → State
set_gcprev p x = store p (λ o. record o { gcprev = x })

abbrev pub iswhite : GcObject → Bool
iswhite o = testbit o.marked white0bit || testbit o.marked white1bit

abbrev pub isgray : GcObject → Bool
isgray o = not (testbit o.marked blackbit) && not (iswhite o)

abbrev pub is_propagate : GcState → Bool
is_propagate GcState.propagate = true
is_propagate _ = false

abbrev pub is_sweep : GcState → Bool
is_sweep GcState.sweep = true
is_sweep _ = false

-- `g->sweepgc == &p->next`.
abbrev pub sweeps_at : SweepPos → Ptr → Bool
sweeps_at at_root p = false
sweeps_at (at_next q) p = q == p
