-- ===== src/Unlink.antt =====
-- Taking an object off the lists that it is on, as the cases of `luaC_freeobj` in src/lgc.c do before they
-- free it: `rootgc`, the gray lists, the sweep position, a bucket of the string table.
use luarc.Prelude.{ℕ, ◌-◌, ◌%◌, length, ◌&&◌, set, ◌==◌, if◌then◌else◌}
use luarc.Object.{Ptr, null, Body, table, thread, GcObject}
use luarc.Heap.{
  State, at_root, at_next, set_next, set_prev, set_gcnext, set_gcprev, isgray, is_propagate,
  is_sweep, sweeps_at,
}

-- Takes `o` at `p` off the `rootgc` list.
unfoldable pub unlink_root : Ptr → GcObject → State → State
unlink_root p o s =
    let s1 = if o.next == null then s else set_prev o.next o.prev s in
    if o.prev == null then record s1 { rootgc = o.next } else set_next o.prev o.next s1

-- The heads of the gray lists, tried in the order of the source.
unfoldable pub drop_gray_head : Body → Ptr → Ptr → State → State
drop_gray_head (table _ _ _) p x s =
    if s.gray == p
    then record s { gray = x }
    else if s.grayagain == p
    then record s { grayagain = x }
    else if s.weak == p
    then record s { weak = x }
    else s
drop_gray_head (thread _ _ _ _) p x s =
    if s.gray == p
    then record s { gray = x }
    else if s.grayagain == p
    then record s { grayagain = x }
    else s
drop_gray_head _ p x s = record s { gray = x }

-- Takes `o` at `p` off its gray list in the mark state.
unfoldable pub unlink_gray : Ptr → GcObject → State → State
unfolding drop_gray_head
unlink_gray p o s =
    if is_propagate s.gcstate && isgray o
    then (let s1 = if o.gcnext == null then s else set_gcprev o.gcnext o.gcprev s in
        if o.gcprev == null
        then drop_gray_head o.body p o.gcnext s1
        else set_gcnext o.gcprev o.gcnext s1)
    else s

-- Moves the sweep position off `o` at `p`.
unfoldable pub adjust_sweep : Ptr → GcObject → State → State
adjust_sweep p o s =
    if is_sweep s.gcstate && sweeps_at s.sweepgc p
    then (if o.prev == null
        then record s { sweepgc = at_root }
        else record s { sweepgc = at_next o.prev })
    else s

-- Takes the string `o` at `p` off its bucket of the string table.
unfoldable pub unlink_string : Ptr → GcObject → ℕ → State → State
unlink_string p o hash s =
    let s1 =
      if o.prev == null
      then record s { strt_hash = set s.strt_hash (hash % length s.strt_hash) o.next }
      else set_next o.prev o.next s in
    let s2 = if o.next == null then s1 else set_prev o.next o.prev s1 in
    record s2 { strt_nuse = s2.strt_nuse - 1 }

-- Off the udata part of the list, which starts behind the main thread.
unfoldable pub unlink_udata : Ptr → GcObject → State → State
unlink_udata p o s = set_next o.prev o.next (if o.next == null then s else set_prev o.next o.prev s)
