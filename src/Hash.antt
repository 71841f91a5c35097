-- ===== src/Hash.antt =====
-- The hash part of a table, src/ltable.c: `mainposition`, the searches along a chain, `getfreepos` and
-- `newkey`, and `luaH_set` where a key is not of the array part. The nodes are a function of the index
-- below `sizenode`; `dummy` says that they are the shared dummy node.
pub mod Linked
pub mod Lookup
pub mod Placed
pub mod Moved
pub mod Vacated
pub mod Chained
pub mod Kept
pub mod Inserts
pub mod Keys
pub mod Sets
pub mod Examples
use luarc.Prelude.{
  ℕ, zero, suc, ◌+◌, ◌-◌, ◌*◌, ◌/◌, ◌%◌, ◌^◌, Bool, true, false, not, ◌&&◌, ◌||◌, Option, none,
  some, ◌==◌, ltb, if◌then◌else◌,
}
use luarc.Object.{
  Ptr, Tag, string, table, function, userdata, thread, proto, upval, Value, nil, boolean,
  lightuserdata, number, object, deadkey, ttisnil, is_deadkey,
}
use luarc.FloatByte.{log2_loop}
use luarc.Table.{Entry, hashmod, num_position}

pub record HashPart : Type 0 where
  pub dummy : Bool
  pub sizenode : ℕ
  pub node : ℕ → Entry
  pub lastfree : ℕ

-- `str_hash` reads the hash of a string in the heap.
unfoldable pub mainposition : (str_hash : Ptr → ℕ) → (sizenode : ℕ) → Value → ℕ
mainposition str_hash sizenode (number n) = num_position sizenode n
mainposition str_hash sizenode (object string p) = str_hash p % sizenode
mainposition str_hash sizenode (boolean true) = 1 % sizenode
mainposition str_hash sizenode (boolean false) = 0
mainposition str_hash sizenode (lightuserdata p) = hashmod sizenode (p % 2 ^ 32)
mainposition str_hash sizenode (object t p) = hashmod sizenode (p % 2 ^ 32)
mainposition str_hash sizenode (deadkey p) = hashmod sizenode (p % 2 ^ 32)
mainposition str_hash sizenode nil = 0

-- `ttype`, in the order of lua.h and lobject.h.
abbrev pub tag_number : Tag → ℕ
tag_number string = 4
tag_number table = 5
tag_number function = 6
tag_number userdata = 7
tag_number thread = 8
tag_number proto = 9
tag_number upval = 10

abbrev pub ttype : Value → ℕ
ttype nil = 0
ttype (boolean b) = 1
ttype (lightuserdata p) = 2
ttype (number n) = 3
ttype (object t p) = tag_number t
ttype (deadkey p) = 11

abbrev pub equal_in : (ℕ → ℕ → Bool) → Value → Value → Bool
equal_in numeq nil nil = true
equal_in numeq (number n) (number m) = numeq n m
equal_in numeq (boolean b) (boolean c) = if b then c else not c
equal_in numeq (lightuserdata p) (lightuserdata q) = p == q
equal_in numeq (object t p) (object u q) = p == q
equal_in numeq (deadkey p) (deadkey q) = p == q
equal_in numeq _ _ = false

-- `luaO_rawequalObj`, src/lobject.c.
abbrev pub raw_equal : (ℕ → ℕ → Bool) → Value → Value → Bool
raw_equal numeq a b = if ttype a == ttype b then equal_in numeq a b else false

-- What comes of a walk along a chain: a node, the end of the chain, or no more turns.
pub data Walk : Type 0 where
  found : ℕ → Walk
  missing : Walk
  spent : Walk

-- The walk along a chain to a key that the test accepts.
unfoldable pub find_key : (Value → Bool) → (ℕ → Entry) → (fuel n : ℕ) → Walk
find_key test node zero n = spent
find_key test node (suc fuel) n =
    if test (node n).key
    then found n
    else elim (node n).next [ none ↦ missing | some m ↦ find_key test node fuel m ]

-- `luaH_get` of a key that is not in the array part: the node with the key, if any.
unfoldable pub get : (Value → ℕ) → (Value → Value → Bool) → HashPart → Value → Walk
get main same t key =
    if ttisnil key then missing else find_key (λ k. same k key) t.node (suc t.sizenode) (main key)

abbrev pub value_at : (ℕ → Entry) → Walk → Value
value_at node (found i) = (node i).val
value_at node missing = nil
value_at node spent = nil

-- Down from `lastfree` to a node with no key.
unfoldable pub getfreepos : (ℕ → Entry) → ℕ → Option ℕ
getfreepos node zero = none
getfreepos node (suc i) =
    let rest = getfreepos node i in if ttisnil (node i).key then some i else rest

abbrev pub put : (ℕ → Entry) → ℕ → Entry → ℕ → Entry
put node i e j = if j == i then e else node j

abbrev pub leads_to : Option ℕ → ℕ → Bool
leads_to none mp = false
leads_to (some m) mp = m == mp

-- `while (gnext(othern) != mp) othern = gnext(othern)`.
unfoldable pub find_prev : (ℕ → Entry) → (mp fuel othern : ℕ) → Option ℕ
find_prev node mp zero othern = none
find_prev node mp (suc fuel) othern =
    if leads_to (node othern).next mp
    then some othern
    else elim (node othern).next [ none ↦ none | some m ↦ find_prev node mp fuel m ]

-- The colliding node goes from `mp` to `n`, in its chain too.
abbrev pub move : (ℕ → Entry) → (prev mp n : ℕ) → ℕ → Entry
move node prev mp n =
    let relinked =
      put node prev (record { key = (node prev).key; val = (node prev).val; next = some n }) in
    put (put relinked n (node mp)) mp (record { key = nil; val = nil; next = none })

-- The new position `n` comes after `mp` in its chain.
abbrev pub chain_after : (ℕ → Entry) → (mp n : ℕ) → ℕ → Entry
chain_after node mp n =
    let taken =
      put node n (record { key = (node n).key; val = (node n).val; next = (node mp).next }) in
    put taken mp (record { key = (node mp).key; val = (node mp).val; next = some n })

-- The end of `newkey`. `dropped` is the key that loses a reference.
abbrev pub place : (ℕ → Entry) → ℕ → Value → ℕ → Entry
place node mp key = put node mp (record { key = key; val = (node mp).val; next = (node mp).next })

pub data NewKey : Type 0 where
  placed : (mp : ℕ) (dropped : Value) (t : HashPart) → NewKey
  needs_rehash : NewKey
  lost : NewKey

abbrev pub finish : HashPart → (lastfree : ℕ) → (ℕ → Entry) → ℕ → Value → NewKey
finish t lastfree node mp key =
    placed mp (if is_deadkey (node mp).key then nil else (node mp).key) (record {
      dummy = t.dummy;
      sizenode = t.sizenode;
      node = place node mp key;
      lastfree = lastfree;
    })

abbrev pub move_from : HashPart → Value → (mp n : ℕ) → Option ℕ → NewKey
move_from t key mp n none = lost
move_from t key mp n (some prev) = finish t n (move t.node prev mp n) mp key

abbrev pub collide : (Value → ℕ) → HashPart → Value → ℕ → Option ℕ → NewKey
collide main t key mp none = needs_rehash
collide main t key mp (some n) =
    let othern = main (t.node mp).key in
    if othern == mp
    then finish t n (chain_after t.node mp n) n key
    else move_from t key mp n (find_prev t.node mp (suc t.sizenode) othern)

unfoldable pub newkey : (Value → ℕ) → HashPart → Value → NewKey
unfolding getfreepos find_prev
newkey main t key =
    let mp = main key in
    if not (ttisnil (t.node mp).val) || t.dummy
    then collide main t key mp (getfreepos t.node t.lastfree)
    else finish t t.lastfree t.node mp key

-- What `luaH_set` gives: a node with the key, a new one, or one of its two errors.
pub data SetResult : Type 0 where
  existing : ℕ → SetResult
  inserted : NewKey → SetResult
  index_is_nil : SetResult
  index_is_nan : SetResult

abbrev pub is_nan : (Value → Value → Bool) → Value → Bool
is_nan same (number n) = not (same (number n) (number n))
is_nan same _ = false

abbrev pub set_missing : (Value → ℕ) → (Value → Value → Bool) → HashPart → Value → Walk → SetResult
set_missing main same t key (found i) = existing i
set_missing main same t key spent = inserted lost
set_missing main same t key missing =
    if ttisnil key
    then index_is_nil
    else if is_nan same key
    then index_is_nan
    else inserted (newkey main t key)

unfoldable pub set : (Value → ℕ) → (Value → Value → Bool) → HashPart → Value → SetResult
unfolding get newkey
set main same t key = set_missing main same t key (get main same t key)

-- `setobj2t` to what `luaH_set` gives, as in `lua_rawset` of src/lapi.c.
abbrev pub store : HashPart → ℕ → Value → HashPart
store t i v = record {
  dummy = t.dummy;
  sizenode = t.sizenode;
  node = put t.node i (record { key = (t.node i).key; val = v; next = (t.node i).next });
  lastfree = t.lastfree;
}

-- The hash part with the value, or nothing where the table has to be rehashed or the key is an error.
abbrev pub stored : HashPart → Value → SetResult → Option HashPart
stored t v (existing i) = some (store t i v)
stored t v (inserted (placed i dropped t')) = some (store t' i v)
stored t v (inserted needs_rehash) = none
stored t v (inserted lost) = none
stored t v index_is_nil = none
stored t v index_is_nan = none

unfoldable pub rawset :
    (Value → ℕ) → (Value → Value → Bool) → HashPart → Value → Value → Option HashPart
unfolding set
rawset main same t key v = stored t v (set main same t key)

-- Nodes with no key, all of them free but the dummy one.
abbrev pub fresh : (dummy : Bool) → (size : ℕ) → HashPart
fresh dummy size = record {
  dummy = dummy;
  sizenode = size;
  node = λ i. record { key = nil; val = nil; next = none };
  lastfree = if dummy then 0 else size;
}

-- `ceillog2`, which is `luaO_log2` of one less, and one more.
abbrev pub ceillog2 : ℕ → ℕ
ceillog2 x = log2_loop 4 (x - 1) 0

-- `MAXBITS`, for an int of 32 bits.
abbrev pub max_bits : ℕ
max_bits = 26

-- `setnodevector`; nothing is its error of a table too large.
unfoldable pub setnodevector : (size : ℕ) → Option HashPart
unfolding log2_loop
setnodevector size =
    if size == 0
    then some (fresh true 1)
    else if ltb max_bits (ceillog2 size)
    then none
    else some (fresh false (2 ^ ceillog2 size))
