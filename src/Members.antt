-- ===== src/Members.antt =====
-- What an object holds, in the order in which the cases of `luaC_freeobj` in src/lgc.c release it.
use mathlib.Core.List.{reverse}
use luarc.Prelude.{ℕ, ◌+◌, List, [], ◌∷◌, ◌++◌, take, ltb, ◌==◌, if◌then◌else◌}
use luarc.Object.{
  Ptr, null, Tag, Value, object, Node, Body, tstring, udata, proto, cclosure, lclosure, open_upval,
  closed_upval, table, thread, ttisnil, is_deadkey,
}

abbrev pub some_object : Tag → Ptr → List Value
some_object t p = if p == null then [] else object t p ∷ []

-- The pointers of an array that may hold NULL, and of one that does not.
abbrev pub present : Tag → List Ptr → List Value
present t [] = []
present t (p ∷ ps) = some_object t p ++ present t ps

abbrev pub objects : Tag → List Ptr → List Value
objects t [] = []
objects t (p ∷ ps) = object t p ∷ objects t ps

-- What is released of a node: of an empty one its key, unless that is dead (`removeentry`).
abbrev pub entry_members : (key val : Value) → List Value
entry_members k v = if ttisnil v then (if is_deadkey k then [] else k ∷ []) else k ∷ v ∷ []

abbrev pub node_members : List Node → List Value
node_members [] = []
node_members (n ∷ ns) = entry_members n.key n.val ++ node_members ns

-- `lim` of a thread: the highest of `top` and the CallInfos' tops.
abbrev pub stack_limit : ℕ → List ℕ → ℕ
stack_limit lim [] = lim
stack_limit lim (t ∷ ts) = stack_limit (if ltb lim t then t else lim) ts

-- What the loops under "Reduce refcount of members" of each case release, in their order: of a
-- userdata, a function prototype, a closure of each kind, a table and a thread.
abbrev pub udata_members : (mt env : Ptr) → List Value
udata_members mt env = some_object Tag.table mt ++ object Tag.table env ∷ []

abbrev pub proto_members :
    (source : Ptr) (k : List Value) (upvalues p locvars : List Ptr) → List Value
proto_members source k upvalues p locvars =
    some_object Tag.string source
    ++ (k ++ (present Tag.string upvalues ++ (present Tag.proto p ++ present Tag.string locvars)))

abbrev pub cclosure_members : (env : Ptr) (upvalue : List Value) → List Value
cclosure_members env upvalue = object Tag.table env ∷ upvalue

abbrev pub lclosure_members : (env p : Ptr) (upvals : List Ptr) → List Value
lclosure_members env p upvals = object Tag.table env ∷ object Tag.proto p ∷ objects Tag.upval upvals

abbrev pub table_members : (mt : Ptr) (array : List Value) (node : List Node) → List Value
table_members mt array node =
    some_object Tag.table mt ++ (reverse array ++ node_members (reverse node))

abbrev pub thread_members :
    (gt : Value) (stack : List Value) (top : ℕ) (ci_tops : List ℕ) → List Value
thread_members gt stack top ci_tops = gt ∷ take (stack_limit top ci_tops + 1) stack

-- The same by the kind of object. The body is read before the loop: no release in between writes to it.
unfoldable pub members : Body → List Value
members (tstring _ _) = []
members (udata mt env) = udata_members mt env
members (proto source k upvalues p locvars) = proto_members source k upvalues p locvars
members (cclosure env upvalue) = cclosure_members env upvalue
members (lclosure env p upvals) = lclosure_members env p upvals
members (open_upval _) = []
members (closed_upval v) = v ∷ []
members (table mt array node) = table_members mt array node
members (thread gt stack top ci_tops) = thread_members gt stack top ci_tops
