-- ===== src/Table.antt =====
-- src/ltable.c: the array and hash parts of a table as far as integer keys need them, the length
-- operator and the sizes that a rehash computes. A number is its 64 bits; `cast_num` is C's conversion
-- of an int to a lua_Number and `numeq` the equality of numbers.
pub mod Search
pub mod Boundary
pub mod Examples
pub mod Sizes
use luarc.Prelude.Int.{max_int}
use luarc.Prelude.{
  ℕ, zero, suc, ◌+◌, ◌-◌, ◌*◌, ◌/◌, ◌%◌, ◌^◌, Bool, true, false, not, ◌&&◌, ◌||◌, Option, none,
  some, List, [], ◌∷◌, length, get_elem?, get_or, take, drop, leb, ltb, ◌==◌, if◌then◌else◌,
}
use luarc.Object.{Value, nil, number, ttisnil}

-- `Node`, whose `next` is an index. The shared dummy node of an empty hash part is an empty list.
pub record Entry : Type 0 where
  pub key : Value
  pub val : Value
  pub next : Option ℕ

pub record Table : Type 0 where
  pub array : List Value
  pub node : List Entry

-- `hashmod`, by the number of nodes.
abbrev pub hashmod : (sizenode n : ℕ) → ℕ
hashmod sizenode n = n % ((sizenode - 1) / 2 * 2 + 1)

-- `hashnum`: the two halves of a number, summed; both zeros are at the first node.
abbrev pub num_position : (sizenode n : ℕ) → ℕ
num_position sizenode n =
    if n % 2 ^ 63 == 0 then 0 else hashmod sizenode ((n % 2 ^ 32 + n / 2 ^ 32 % 2 ^ 32) % 2 ^ 32)

abbrev pub hashnum : Table → ℕ → ℕ
hashnum t n = num_position (length t.node) n

abbrev pub is_number : (ℕ → ℕ → Bool) → ℕ → Value → Bool
is_number numeq nk (number n) = numeq n nk
is_number numeq nk _ = false

-- The walk along a chain, with a turn for each node: it could be longer only in a cycle, where the
-- source does not end, and which no table has.
unfoldable pub find_num : (ℕ → ℕ → Bool) → ℕ → List Entry → (fuel n : ℕ) → Value
find_num numeq nk node zero n = nil
find_num numeq nk node (suc fuel) n = elim (get_elem? node n) [
  | none ↦ nil
  | some e ↦
      if is_number numeq nk e.key
      then e.val
      else elim e.next [ none ↦ nil | some m ↦ find_num numeq nk node fuel m ]
]

-- `luaH_getnum` of a key that is not negative.
unfoldable pub getnum : (ℕ → ℕ) → (ℕ → ℕ → Bool) → Table → ℕ → Value
getnum cast_num numeq t key =
    if leb 1 key && leb key (length t.array)
    then get_or t.array (key - 1) nil
    else find_num numeq (cast_num key) t.node (length t.node) (hashnum t (cast_num key))

-- The binary searches of `luaH_getn` and `unbound_search`; `j` turns are enough.
unfoldable pub bisect : (ℕ → Bool) → (fuel i j : ℕ) → ℕ
bisect present zero i j = i
bisect present (suc fuel) i j =
    let m = (i + j) / 2 in
    let rest = bisect present fuel (if present m then m else i) (if present m then j else m) in
    if ltb 1 (j - i) then rest else i

pub data Grown : Type 0 where
  found : (i j : ℕ) → Grown
  overflow : Grown
  out_of_fuel : Grown

-- The first loop of `unbound_search`.
unfoldable pub grow : (ℕ → Bool) → (fuel i j : ℕ) → Grown
grow present zero i j = out_of_fuel
grow present (suc fuel) i j =
    let rest = grow present fuel j (j * 2) in
    if present j then (if ltb max_int (j * 2) then overflow else rest) else found i j

-- Its resort to linear search; the keys that it comes to are taken to fit an int.
unfoldable pub linear : (ℕ → Bool) → (fuel i : ℕ) → Option ℕ
linear present zero i = none
linear present (suc fuel) i =
    let rest = linear present fuel (i + 1) in if present i then rest else some (i - 1)

-- `unbound_search`, where the table has nil at a key below `fuel`.
unfoldable pub unbound_search : (ℕ → Bool) → (fuel j : ℕ) → Option ℕ
unbound_search present fuel j = elim (grow present 32 j (j + 1)) [
  | found i j' ↦ some (bisect present j' i j')
  | overflow ↦ linear present fuel 1
  | out_of_fuel ↦ none
]

abbrev pub is_empty : List Entry → Bool
is_empty [] = true
is_empty (e ∷ es) = false

-- `luaH_getn`.
unfoldable pub getn : (ℕ → ℕ) → (ℕ → ℕ → Bool) → (fuel : ℕ) → Table → Option ℕ
getn cast_num numeq fuel t =
    let j = length t.array in
    if ltb 0 j && ttisnil (get_or t.array (j - 1) nil)
    then some (bisect (λ m. not (ttisnil (get_or t.array (m - 1) nil))) j 0 j)
    else if is_empty t.node
    then some j
    else unbound_search (λ k. not (ttisnil (getnum cast_num numeq t k))) fuel j

-- `computesizes`: `nums` from `nums[i]` on, and the new size with the number of keys that go there.
unfoldable pub sizes_loop : (nums : List ℕ) (narray twotoi a na n : ℕ) → ℕ × ℕ
sizes_loop [] narray twotoi a na n = (n, na)
sizes_loop (c ∷ nums) narray twotoi a na n =
    let better = ltb 0 c && ltb (twotoi / 2) (a + c) in
    let n' = if better then twotoi else n in
    let na' = if better then a + c else na in
    let rest = sizes_loop nums narray (twotoi * 2) (a + c) na' n' in
    if ltb (twotoi / 2) narray then (if a + c == narray then (n', na') else rest) else (n, na)

unfoldable pub computesizes : List ℕ → ℕ → ℕ × ℕ
computesizes nums narray = sizes_loop nums narray 1 0 0 0
