-- ===== src/Release/Examples.antt =====
-- A userdata of src/lgc.c whose `__gc` method keeps it.
use luarc.Prelude.{ℕ, ◌≡◌, refl, true, none, some, [], ◌∷◌}
use luarc.Object.{Ptr, Tag, nil, boolean, object, GcObject, Body, tstring, udata, table, l_setbit}
use luarc.Heap.{cell, State, at_root, GcState, ok}
use luarc.Unlink.{adjust_sweep, unlink_udata}
use luarc.Members.{members}
use luarc.Release.{Call, Loop, has_gc, gctm, run_method, finish_udata, freeudata}
use luarc.Release.Finalize.{IsFinalizing, freeudata-finalizes}

abbrev an_object : (next prev : Ptr) (ref : ℕ) → Body → GcObject
an_object n p r b = record {
  next = n;
  prev = p;
  gcnext = 0;
  gcprev = 0;
  ref = r;
  marked = 1;
  body = b;
}

-- Address 1 is the userdata, 2 its metatable with a method, 3 the string "__gc", 4 the main thread.
abbrev dying : GcObject
dying = an_object 0 4 0 (udata 2 2)

abbrev with_method : State
with_method = record {
  heap =
      none
      ∷ some dying
      ∷ some (
          an_object 0 0 2
            (table 0 [] (record { key = object Tag.string 3; val = boolean true } ∷ [])))
      ∷ some (an_object 0 0 1 (tstring 7 4))
      ∷ some (an_object 1 0 1 (Body.thread nil [] 0 []))
      ∷ [];
  roots = nil ∷ [];
  rootgc = 4;
  gray = 0;
  grayagain = 0;
  weak = 0;
  sweepgc = at_root;
  gcstate = GcState.pause;
  strt_hash = [];
  strt_nuse = 0;
  mainthread = 4;
  currentwhite = 1;
  tm_gc = 3;
}

-- The method stores its userdata in a root.
abbrev keeps : Call
keeps p s = ok (record s { roots = object Tag.userdata p ∷ [] })

abbrev no_members : Loop
no_members vs s = ok s

abbrev freed_anyway : State
freed_anyway = elim (freeudata no_members keeps 1 dying 2 with_method) [
  | ok t ↦ t
  | _ ↦ with_method
]

-- The root that the method has set points at the cell that is freed.
kept_and_freed :
    (freed_anyway.roots ≡ object Tag.userdata 1 ∷ []) × (cell freed_anyway.heap 1 ≡ none)
unfolding freeudata run_method gctm finish_udata adjust_sweep unlink_udata members has_gc l_setbit
kept_and_freed = (refl, refl)

freeudata-finalizes_example :
    (before after : State) × IsFinalizing dying 1 with_method before
    × (keeps 1 before ≡ ok after)
    × (cell freed_anyway.heap 1 ≡ none)
unfolding freeudata run_method gctm finish_udata adjust_sweep unlink_udata members has_gc l_setbit
freeudata-finalizes_example =
    freeudata-finalizes keeps 1 dying 2 with_method refl refl no_members freed_anyway refl refl
