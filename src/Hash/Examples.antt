-- ===== src/Hash/Examples.antt =====
-- A hash part of four nodes that fills with colliding keys, for the theorems on src/ltable.c.
use luarc.Prelude.{
  ℕ, ◌≡◌, ◌⊎◌, refl, Bool, true, false, Option, none, some, ◌==◌, inl, arith, ==_iff,
}
use luarc.Object.{Ptr, table, string, Value, number, object}
use luarc.Hash.{
  HashPart, found, missing, get, rawset, mainposition, raw_equal, fresh, setnodevector, find_key,
}
use luarc.Hash.Inserts.{IsTable}
use luarc.Hash.Keys.{IsNumEq}
use luarc.Hash.Sets.{Stored, rawset-get, get-Found}

pub fresh-IsTable :
    (main : Value → ℕ) (same : Value → Value → Bool) (size : ℕ)
    → IsTable main same (fresh false size)
fresh-IsTable main same size = record {
  hashed = record {
    rank = λ i. 0;
    rises = λ i j e. absurd (ground arith);
    inside = λ i j e. absurd (ground arith);
    bounded = λ i. omega arith;
    single = λ i j m e f. absurd (ground arith);
    ends = λ i lt ne e. refl;
    alone = λ i j ne e f. ground arith;
    alive = λ i e. absurd (ground arith);
    reached = λ i e. absurd (ground arith);
    home = λ i m e f ne. absurd (ground arith);
    unique = λ i j e f g. absurd (ground arith);
  };
  lastfree_le = omega arith;
  nothing_free = λ e. absurd (ground arith);
}

abbrev same_bits : ℕ → ℕ → Bool
same_bits a b = a == b

same_bits-IsNumEq : IsNumEq same_bits
same_bits-IsNumEq = record {
  flip = λ a b h. ground arith;
  join = λ a b c h k. ground arith;
  bits = λ a b h. inl ((==_iff a b).0 h);
}

abbrev str_hash : Ptr → ℕ
str_hash p = p

abbrev main : Value → ℕ
main = mainposition str_hash 4

abbrev same : Value → Value → Bool
same = raw_equal same_bits

abbrev or_empty : Option HashPart → HashPart
or_empty none = fresh false 4
or_empty (some t) = t

-- Keys whose main positions are 2, 2 and 3.
abbrev first_key : Value
first_key = object table 8

abbrev second_key : Value
second_key = object table 11

abbrev third_key : Value
third_key = object string 3

abbrev one : HashPart
one = or_empty (rawset main same (fresh false 4) first_key (number 1))

abbrev two : HashPart
two = or_empty (rawset main same one second_key (number 2))

or_empty-IsTable :
    (t : HashPart) (key v : Value) (o : Option HashPart)
    → IsTable main same t
    → Stored main same t key v o
    → IsTable main same (or_empty o)
or_empty-IsTable t key v none ok h = fresh-IsTable main same 4
or_empty-IsTable t key v (some t') ok h = h.well_formed

one-IsTable : IsTable main same one
one-IsTable =
    or_empty-IsTable (fresh false 4) first_key (number 1)
      (rawset main same (fresh false 4) first_key (number 1)) (fresh-IsTable main same 4)
      (rawset-get same_bits str_hash (fresh false 4) first_key (number 1) same_bits-IsNumEq
        (omega arith) (fresh-IsTable main same 4) refl refl)

two-IsTable : IsTable main same two
unfolding rawset find_key
two-IsTable =
    or_empty-IsTable one second_key (number 2) (rawset main same one second_key (number 2))
      one-IsTable
      (rawset-get same_bits str_hash one second_key (number 2) same_bits-IsNumEq (omega arith)
        one-IsTable refl refl)

rounded_size : setnodevector 3 ≡ some (fresh false 4)
unfolding setnodevector
rounded_size = refl

-- The second key stands at the last node, from which the third moves it.
second_last : get main same two second_key ≡ found 3
unfolding get rawset find_key mainposition
second_last = refl

rawset-get_example :
    Stored main same two third_key (number 3) (rawset main same two third_key (number 3))
unfolding rawset find_key mainposition
rawset-get_example =
    rawset-get same_bits str_hash two third_key (number 3) same_bits-IsNumEq (omega arith)
      two-IsTable refl refl

get-Found_example :
    ((i : ℕ) × (get main same two second_key ≡ found i)
      × (same (two.node i).key second_key ≡ true)
      × ((j : ℕ) → same (two.node j).key second_key ≡ true → j ≡ i))
    ⊎ ((get main same two second_key ≡ missing)
        × ((j : ℕ) → same (two.node j).key second_key ≡ false))
unfolding rawset find_key mainposition
get-Found_example =
    get-Found same_bits str_hash two second_key same_bits-IsNumEq (omega arith) two-IsTable refl

-- A key with the same main position that is not there.
absent_key : get main same two (object table 14) ≡ missing
unfolding get rawset find_key mainposition
absent_key = refl
