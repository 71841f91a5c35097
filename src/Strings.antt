-- ===== src/Strings.antt =====
-- src/lstring.c: the table of interned strings. A chain of the table is a list of its strings. The size
-- is a power of two, so `lmod` is the remainder. The allocator's address for a new string and its
-- colour enter as arguments, and a string is short enough for the allocator.
pub mod Examples
pub mod Added
pub mod Find
pub mod Interned
pub mod Placed
pub mod Rehash
use Prim.Native.Nat.{bit_and, bit_xor}
use luarc.Prelude.Int.{max_int}
use luarc.Prelude.{
  ℕ, zero, suc, ◌+◌, ◌-◌, ◌*◌, ◌/◌, ◌%◌, ◌^◌, Bool, true, false, ◌&&◌, not, Option, none, some,
  List, [], ◌∷◌, length, get_or, set, replicate, ltb, leb, ◌==◌, if◌then◌else◌,
}
use luarc.Object.{Ptr}
use luarc.Chunk.{Str, str_eq}

-- `TString`: where it is, its bytes and their hash, and its mark bits.
pub record TString : Type 0 where
  pub ptr : Ptr
  pub bytes : Str
  pub hash : ℕ
  pub marked : ℕ

-- `stringtable`, with the collector's state as far as it matters here.
pub record StringTable : Type 0 where
  pub hash : List (List TString)
  pub nuse : ℕ
  pub sweepstring : Bool
  pub currentwhite : ℕ

-- The hash: every `step`-th byte from the end, over unsigned ints.
unfoldable pub hash_loop : (fuel step l1 h : ℕ) → Str → ℕ
hash_loop zero step l1 h str = h
hash_loop (suc fuel) step l1 h str =
    let h' = bit_xor h ((h * 2 ^ 5 + h / 2 ^ 2 + get_or str (l1 - 1) 0) % 2 ^ 32) in
    let rest = hash_loop fuel step (l1 - step) h' str in if leb step l1 then rest else h

unfoldable pub hash_of : Str → ℕ
hash_of str =
    hash_loop (suc (length str)) (length str / 2 ^ 5 + 1) (length str) (length str % 2 ^ 32) str

-- A string goes to the head of its chain.
unfoldable pub chain_in : List (List TString) → TString → List (List TString)
chain_in hash s = let h = s.hash % length hash in set hash h (s ∷ get_or hash h [])

unfoldable pub chain_all : List (List TString) → List TString → List (List TString)
chain_all hash [] = hash
chain_all hash (s ∷ ss) = chain_all (chain_in hash s) ss

unfoldable pub rehash : List (List TString) → List (List TString) → List (List TString)
rehash newhash [] = newhash
rehash newhash (chain ∷ old) = rehash (chain_all newhash chain) old

-- `luaS_resize`.
unfoldable pub resize : StringTable → ℕ → StringTable
resize tb newsize =
    if tb.sweepstring then tb else record tb { hash = rehash (replicate newsize []) tb.hash }

-- `newlstr`, given the address of the new string.
unfoldable pub newlstr : StringTable → Ptr → Str → ℕ → StringTable × Ptr
newlstr tb p str h =
    let s : TString = record { ptr = p; bytes = str; hash = h; marked = tb.currentwhite % 4 } in
    let tb' = record tb { hash = chain_in tb.hash s; nuse = tb.nuse + 1 } in
    (
      if ltb (length tb'.hash) tb'.nuse && leb (length tb'.hash) (max_int / 2)
          then resize tb' (length tb'.hash * 2)
          else tb',
      p,
    )

-- `isdead` and `changewhite`: the white bits are the lowest two.
abbrev pub isdead : ℕ → TString → Bool
isdead currentwhite s = not (bit_and (bit_and s.marked (bit_xor currentwhite 3)) 3 == 0)

abbrev pub changewhite : TString → TString
changewhite s = record s { marked = bit_xor s.marked 3 }

-- The search of a chain: the string that is found, and the chain with it brought back to life.
unfoldable pub find : ℕ → Str → List TString → Option (Ptr × List TString)
find currentwhite str [] = none
find currentwhite str (s ∷ ss) =
    if str_eq s.bytes str
    then some (s.ptr, (if isdead currentwhite s then changewhite s else s) ∷ ss)
    else elim (find currentwhite str ss) [ none ↦ none | some (p, ss') ↦ some (p, s ∷ ss') ]

-- `luaS_newlstr`. `p` is the address that the allocator gives if a string has to be made.
unfoldable pub luas_newlstr : StringTable → Ptr → Str → StringTable × Ptr
luas_newlstr tb p str =
    let h = hash_of str in
    let i = h % length tb.hash in
    elim (find tb.currentwhite str (get_or tb.hash i [])) [
      | none ↦ newlstr tb p str h
      | some (q, chain) ↦ (record tb { hash = set tb.hash i chain }, q)
    ]
