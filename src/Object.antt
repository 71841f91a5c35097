-- ===== src/Object.antt =====
-- Tagged values and heap objects: src/lobject.h, with the mark bits of src/lgc.h.
-- A pointer is the index of a heap cell and 0 is NULL. Numbers and light pointers are opaque.
use luarc.Prelude.{ℕ, ◌+◌, ◌/◌, ◌%◌, ◌^◌, Bool, true, false, List, [], ◌∷◌, ◌==◌, if◌then◌else◌}

abbrev pub Ptr : Type 0
Ptr = ℕ

abbrev pub null : Ptr
null = 0

-- The tags of collectable values, in the order of lua.h and lobject.h.
pub data Tag : Type 0 where
  string table function userdata thread proto upval : Tag

-- `TValue`. A dead key keeps the address of the object that it named.
pub data Value : Type 0 where
  nil : Value
  boolean : Bool → Value
  lightuserdata : ℕ → Value
  number : ℕ → Value
  object : Tag → Ptr → Value
  deadkey : Ptr → Value

abbrev pub ttisnil : Value → Bool
ttisnil nil = true
ttisnil _ = false

abbrev pub is_deadkey : Value → Bool
is_deadkey (deadkey p) = true
is_deadkey _ = false

-- `iscollectable`, with `gcvalue`: the tags from LUA_TSTRING up carry a pointer, dead keys too.
abbrev pub gcvalues : Value → List Ptr
gcvalues (object t p) = p ∷ []
gcvalues (deadkey p) = p ∷ []
gcvalues _ = []

-- `Node` of a table: a key and a value. The chain of a node plays no part in releasing it.
pub record Node : Type 0 where
  pub key : Value
  pub val : Value

-- What an object holds beyond its header. A closure is two constructors, by `isC`.
-- A thread has its globals table, its stack, `top` and the `top` of each CallInfo in use.
pub data Body : Type 0 where
  tstring : (hash len : ℕ) → Body
  udata : (metatable env : Ptr) → Body
  proto : (source : Ptr) (k : List Value) (upvalues p locvars : List Ptr) → Body
  cclosure : (env : Ptr) (upvalue : List Value) → Body
  lclosure : (env p : Ptr) (upvals : List Ptr) → Body
  open_upval : (level : ℕ) → Body
  closed_upval : (value : Value) → Body
  table : (metatable : Ptr) (array : List Value) (node : List Node) → Body
  thread : (gt : Value) (stack : List Value) (top : ℕ) (ci_tops : List ℕ) → Body

-- `CommonHeader` and `TraversableCommonHeader` before the body. `marked` is the byte of mark bits.
pub record GcObject : Type 0 where
  pub next : Ptr
  pub prev : Ptr
  pub gcnext : Ptr
  pub gcprev : Ptr
  pub ref : ℕ
  pub marked : ℕ
  pub body : Body

-- `testbit(x, b)` of a mark byte.
abbrev pub testbit : ℕ → ℕ → Bool
testbit x b = x / 2 ^ b % 2 == 1

-- `l_setbit(x, b)`.
unfoldable pub l_setbit : ℕ → ℕ → ℕ
l_setbit x b = if testbit x b then x else x + 2 ^ b

abbrev pub white0bit : ℕ
white0bit = 0

abbrev pub white1bit : ℕ
white1bit = 1

abbrev pub blackbit : ℕ
blackbit = 2

abbrev pub finalizedbit : ℕ
finalizedbit = 3

abbrev pub fixedbit : ℕ
fixedbit = 5

abbrev pub sfixedbit : ℕ
sfixedbit = 6
