-- ===== src/Table/Examples.antt =====
-- Tables of src/ltable.c.
use luarc.Prelude.{ℕ, ◌+◌, ◌^◌, ◌≤◌, ◌≡◌, ◌⊎◌, refl, Bool, some, none, List, [], ◌∷◌, ◌==◌, arith}
use luarc.Object.{nil, number}
use luarc.Table.{
  Table, find_num, getnum, bisect, grow, unbound_search, getn, sizes_loop, computesizes,
}
use luarc.Table.Search.{IsBoundary}
use luarc.Table.Boundary.{present_in, getn-IsBoundary}
use luarc.Table.Sizes.{IsSlices, HalfFull, computesizes-HalfFull, computesizes_largest}

-- Numbers of which the bits do not matter here: an int is converted to itself plus one.
abbrev as_bits : ℕ → ℕ
as_bits n = n + 1

abbrev same_bits : ℕ → ℕ → Bool
same_bits a b = a == b

-- The list `{7, 7}` with the third element in the hash part.
abbrev three_items : Table
three_items = record {
  array = number 7 ∷ number 7 ∷ [];
  node = record { key = number 4; val = number 9; next = none } ∷ [];
}

three_items_length : getn as_bits same_bits 9 three_items ≡ some 3
unfolding getn unbound_search grow bisect getnum find_num
three_items_length = refl

-- A hole in the array part is found by the binary search.
holed_length :
    getn as_bits same_bits 0 (record three_items { array = number 7 ∷ nil ∷ number 7 ∷ nil ∷ [] })
    ≡ some 1
unfolding getn bisect
holed_length = refl

getn-IsBoundary_example :
    (n : ℕ) × (getn as_bits same_bits 9 three_items ≡ some n)
    × IsBoundary (present_in as_bits same_bits three_items) n
getn-IsBoundary_example =
    getn-IsBoundary as_bits same_bits three_items 9 8 (omega arith) (omega arith) (omega arith)
      (unfold getnum find_num in refl)

-- Keys 1, 2, 3, 5 and 100.
abbrev some_keys : List ℕ
some_keys = 1 ∷ 1 ∷ 1 ∷ 1 ∷ 0 ∷ 0 ∷ 0 ∷ 1 ∷ []

some_sizes : computesizes some_keys 5 ≡ (4, 3)
unfolding computesizes sizes_loop
some_sizes = refl

some_keys-IsSlices : IsSlices 1 some_keys
some_keys-IsSlices = (
  omega arith,
  (
    omega arith,
    (omega arith, (omega arith, (omega arith, (omega arith, (omega arith, (omega arith, tt)))))),
  ),
)

computesizes-HalfFull_example :
    (computesizes some_keys 5 ≡ (0, 0))
    ⊎ HalfFull 1 0 some_keys (computesizes some_keys 5).0 (computesizes some_keys 5).1
computesizes-HalfFull_example = computesizes-HalfFull some_keys 5 refl some_keys-IsSlices

computesizes_largest_example : 2 ^ 2 ≤ (computesizes some_keys 5).0
computesizes_largest_example =
    computesizes_largest some_keys 5 refl some_keys-IsSlices 2 (omega arith) (omega arith)
