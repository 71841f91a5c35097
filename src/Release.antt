-- ===== src/Release.antt =====
-- Reference counting: the counting macros of src/lobject.h, `luarc_releaseobj` of src/lobject.c and
-- `luaC_freeobj` with its cases in src/lgc.c.
-- Releasing an object releases its members, so the functions of this file take the loop over the
-- members as an argument `rec`, and `sub_refs` ties the knot on fuel.
-- The allocator's own bookkeeping (`totalbytes`) is left out, and a thread that goes has no open
-- upvalues left for `luaE_freethread` to close.
pub mod Bodies
pub mod Counted
pub mod Doom
pub mod Drop
pub mod Kinds
pub mod Links
pub mod Members
mod Examples
pub mod Leaves
pub mod Finalize
pub mod Free
pub mod Methods
pub mod Shrink
use mathlib.Core.List.{reverse}
use luarc.Prelude.{
  ℕ, zero, suc, ◌+◌, ◌-◌, ◌*◌, ◌/◌, ◌%◌, length, Bool, false, not, ◌&&◌, ◌||◌, Option, none, some,
  List, [], ◌∷◌, ◌++◌, set, take, ltb, ◌==◌, if◌then◌else◌,
}
use luarc.Object.{
  Ptr, null, Tag, Value, object, Node, Body, tstring, udata, proto, cclosure, lclosure, open_upval,
  closed_upval, table, thread, GcObject, ttisnil, is_deadkey, gcvalues, testbit, l_setbit,
  finalizedbit, fixedbit, sfixedbit,
}
use luarc.Heap.{
  cell, erase, State, at_root, at_next, Run, ok, fault, out_of_fuel, ◌>>=◌, store, set_next,
  set_prev, set_gcnext, set_gcprev, isgray, is_propagate, is_sweep, sweeps_at,
}
use luarc.Unlink.{
  adjust_sweep, drop_gray_head, unlink_gray, unlink_root, unlink_string, unlink_udata,
}
use luarc.Members.{entry_members, members, node_members, objects, present, some_object, stack_limit}

-- `fasttm(L, mt, TM_GC) != NULL`: a search of the metatable's nodes for the key "__gc".
-- The cache of absent events in `flags` is left out: it never changes the answer.
is_string : Ptr → Value → Bool
is_string k (object Tag.string q) = q == k
is_string k _ = false

has_entry : Ptr → List Node → Bool
unfolding is_string
has_entry k [] = false
has_entry k (n ∷ ns) = (is_string k n.key && not (ttisnil n.val)) || has_entry k ns

pub has_method : Ptr → Body → Bool
unfolding has_entry
has_method k (table _ _ node) = has_entry k node
has_method k _ = false

abbrev pub cell_has_method : Ptr → Option GcObject → Bool
cell_has_method k none = false
cell_has_method k (some o) = has_method k o.body

unfoldable pub has_gc : State → Ptr → Bool
unfolding has_method
has_gc s mt = cell_has_method s.tm_gc (cell s.heap mt)

-- The member loop, and what runs a `__gc` method: `luaD_call` of Lua code on the udata at an address.
abbrev pub Loop : Type 0
Loop = List Value → State → Run State

abbrev pub Call : Type 0
Call = Ptr → State → Run State

-- `makewhite`.
abbrev pub makewhite : ℕ → GcObject → GcObject
makewhite white o = record o { marked = o.marked / 8 * 8 + white % 4 }

-- The members go, then the object itself.
abbrev pub free_with : Loop → Ptr → GcObject → State → Run State
free_with rec p o s = rec (members o.body) s >>= λ s'. ok (record s' { heap = erase s'.heap p })

-- `luarc_freestring`.
unfoldable pub freestring : Loop → Ptr → GcObject → ℕ → State → Run State
freestring rec p o hash s = free_with rec p o (unlink_string p o hash s)

-- `luarc_freeproto` and `luarc_freeclosure`, `luarc_freetable`, `luarc_freethread`.
unfoldable pub freetraversable : Loop → Ptr → GcObject → State → Run State
freetraversable rec p o s =
    free_with rec p o (adjust_sweep p o (unlink_gray p o (unlink_root p o s)))

-- `luarc_freeupval`: an open upvalue stays.
unfoldable pub freeupval : Loop → Ptr → GcObject → State → Run State
freeupval rec p o s = free_with rec p o (adjust_sweep p o (unlink_root p o s))

-- `GCTM` for the udata that `luarc_freeudata` has just put at the head of `tmudata`, and that comes
-- off it again at once: back behind the main thread, white, then the call of its method.
unfoldable pub gctm : Call → Ptr → State → Run State
gctm call p s = elim (cell s.heap s.mainthread) [
  | none ↦ fault
  | some m ↦
      let s1 = store p (λ o. record o { next = m.next; prev = s.mainthread }) s in
      let s2 = if m.next == null then s1 else set_prev m.next p s1 in
      call p (store p (makewhite s.currentwhite) (set_next s.mainthread p s2))
]

-- The rest of `luarc_freeudata` once the udata is off the list: it reads the object again, since a
-- method may have changed it, and frees it whatever the method did with it.
unfoldable pub finish_udata : Loop → Ptr → State → Run State
finish_udata rec p s = elim (cell s.heap p) [
  | none ↦ fault
  | some o ↦ free_with rec p o (adjust_sweep p o s)
]

-- The method call, after which the udata is off the list again.
unfoldable pub run_method : Call → Ptr → State → Run State
run_method call p s = gctm call p s >>= λ s'. elim (cell s'.heap p) [
  | none ↦ fault
  | some o ↦ ok (unlink_udata p o s')
]

-- `luarc_freeudata`: a finalized udata stays.
unfoldable pub freeudata : Loop → Call → Ptr → GcObject → Ptr → State → Run State
freeudata rec call p o mt s =
    if testbit o.marked finalizedbit
    then ok s
    else (let o1 = record o { marked = l_setbit o.marked finalizedbit } in
        let s1 = unlink_udata p o (store p (λ _. o1) s) in
        (if has_gc s1 mt then run_method call p s1 else ok s1) >>= finish_udata rec p)

-- `luaC_freeobj`.
unfoldable pub freeobj : Loop → Call → Ptr → GcObject → Body → State → Run State
freeobj rec call p o (tstring hash _) s = freestring rec p o hash s
freeobj rec call p o (udata mt env) s = freeudata rec call p o mt s
freeobj rec call p o (open_upval _) s = ok s
freeobj rec call p o (closed_upval _) s = freeupval rec p o s
freeobj rec call p o (proto _ _ _ _ _) s = freetraversable rec p o s
freeobj rec call p o (cclosure _ _) s = freetraversable rec p o s
freeobj rec call p o (lclosure _ _ _) s = freetraversable rec p o s
freeobj rec call p o (table _ _ _) s = freetraversable rec p o s
freeobj rec call p o (thread _ _ _ _) s = freetraversable rec p o s

-- `luarc_releaseobj`: fixed objects stay.
unfoldable pub releaseobj : Loop → Call → Ptr → GcObject → State → Run State
releaseobj rec call p o s =
    if testbit o.marked fixedbit || testbit o.marked sfixedbit
    then ok s
    else freeobj rec call p o o.body s

-- `luarc_subobjref`. A pointer to nothing and a count that would go below zero are faults.
unfoldable pub subobjref : Loop → Call → Ptr → State → Run State
subobjref rec call p s = elim (cell s.heap p) [
  | none ↦ fault
  | some o ↦
      let o' = record o { ref = o.ref - 1 } in
      let s' = store p (λ _. o') s in
      if o.ref == 0 then fault else if o.ref == 1 then releaseobj rec call p o' s' else ok s'
]

-- `luarc_subref`.
unfoldable pub subref : Loop → Call → Value → State → Run State
subref rec call v s = elim (gcvalues v) [ [] ↦ ok s | p ∷ _ ↦ subobjref rec call p s ]

-- `luarc_subref` of each of the values in turn.
unfoldable pub sub_refs : Call → ℕ → List Value → State → Run State
sub_refs call zero vs s = out_of_fuel
sub_refs call (suc fuel) [] s = ok s
sub_refs call (suc fuel) (v ∷ vs) s = subref (sub_refs call fuel) call v s >>= sub_refs call fuel vs
