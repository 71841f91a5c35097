-- ===== src/Table/Boundary.antt =====
-- The length of a table (`luaH_getn` of src/ltable.c) is a boundary.
use luarc.Prelude.Int.{max_int}
use luarc.Prelude.{
  ℕ, ◌+◌, ◌-◌, ◌<◌, ◌≤◌, ◌≡◌, ◌⊎◌, inl, inr, refl, ◌∙◌, Bool, true, false, not, ◌&&◌, some, List,
  [], ◌∷◌, length, get_or, leb, ltb, ◌==◌, Bool-cases, arith,
}
use luarc.Object.{nil, ttisnil}
use luarc.Table.{Entry, Table, hashnum, find_num, getnum, bisect, is_empty, getn}
use luarc.Table.Search.{IsBoundary, bisect-IsBoundary, unbound_search-IsBoundary}

abbrev pub present_in : (ℕ → ℕ) → (ℕ → ℕ → Bool) → Table → ℕ → Bool
present_in cast_num numeq t k = not (ttisnil (getnum cast_num numeq t k))

find_num-empty :
    (numeq : ℕ → ℕ → Bool) (nk : ℕ) (node : List Entry) (n : ℕ)
    → is_empty node ≡ true
    → find_num numeq nk node (length node) n ≡ nil
unfolding find_num
find_num-empty numeq nk [] n h = refl
find_num-empty numeq nk (e ∷ es) n h = absurd cc

-- The last entry of an array part that does not end in nil.
array_end : (n : ℕ) (b : Bool) → ltb 0 n && b ≡ false → (n ≡ 0) ⊎ (not b ≡ true)
array_end n b h = ground arith

in_array : Table → ℕ → Bool
in_array t m = not (ttisnil (get_or t.array (m - 1) nil))

module _ (cast_num : ℕ → ℕ) (numeq : ℕ → ℕ → Bool) (t : Table) where
  present_in-array :
      (k : ℕ) → 0 < k → k ≤ length t.array → present_in cast_num numeq t k ≡ in_array t k
  unfolding getnum in_array
  present_in-array k lo hi =
      let low : leb 1 k ≡ true = ground arith in
      let high : leb k (length t.array) ≡ true = ground arith in rw (low, high) refl

  present_in-empty :
      (k : ℕ) → length t.array < k → is_empty t.node ≡ true → present_in cast_num numeq t k ≡ false
  unfolding getnum find_num
  present_in-empty k past empty =
      let high : leb k (length t.array) ≡ false = ground arith in
      let low : leb 1 k ≡ true = ground arith in
      rw (low, high, find_num-empty (numeq) (cast_num k) t.node (hashnum t (cast_num k)) empty) refl

  array_end-present :
      ltb 0 (length t.array) && ttisnil (get_or t.array (length t.array - 1) nil) ≡ false
      → (length t.array ≡ 0) ⊎ (present_in cast_num numeq t (length t.array) ≡ true)
  unfolding in_array
  array_end-present past = elim (array_end (length t.array) _ past) [
    | inl none_there ↦ inl none_there
    | inr there ↦ elim (Bool-cases (length t.array == 0)) [
      | inl z ↦ inl (ground arith)
      | inr nz ↦ inr (present_in-array (length t.array) (ground arith) (omega arith) ∙ there)
    ]
  ]

  array-IsBoundary :
      ltb 0 (length t.array) && ttisnil (get_or t.array (length t.array - 1) nil) ≡ true
      → (n : ℕ) × (some (
            bisect
              (λ m. not (ttisnil (get_or t.array (m - 1) nil)))
              (length t.array)
              0
              (length t.array))
          ≡ some n)
        × IsBoundary (present_in cast_num numeq t) n
  unfolding in_array
  array-IsBoundary inside =
      let j : ℕ = length t.array in
      let some_there : 0 < j = ground arith in
      let last : in_array t j ≡ false = ground arith in
      let r = bisect-IsBoundary (in_array t) j 0 j some_there (omega arith) (inl refl) last in
      let n : ℕ = bisect (in_array t) j 0 j in
      (
        n,
        refl,
        (
          elim r.0.0 [
            | inl z ↦ inl z
            | inr there ↦ elim (Bool-cases (n == 0)) [
              | inl z ↦ inl (ground arith)
              | inr nz ↦ inr (present_in-array n (ground arith) (omega (arith, r.1)) ∙ there)
            ]
          ],
          present_in-array (n + 1) (omega arith) (omega (arith, r.1)) ∙ r.0.1,
        ),
      )

  -- `luaH_getn` returns a boundary of the table: 0 or a key whose value is not nil, whose successor's
  -- value is nil. The conditions are an array part below the largest int and, for the resort to a
  -- linear search, a key with value nil up to the fuel.
  pub getn-IsBoundary :
      (fuel k : ℕ)
      → length t.array < max_int
      → 0 < k
      → k ≤ fuel
      → present_in cast_num numeq t k ≡ false
      → (n : ℕ) × (getn cast_num numeq fuel t ≡ some n) × IsBoundary (present_in cast_num numeq t) n
  unfolding getn
  getn-IsBoundary fuel k small pos le absent =
      let j : ℕ = length t.array in
      elim (Bool-cases (ltb 0 j && ttisnil (get_or t.array (j - 1) nil))) [
        | inl inside ↦
            let (n, same, bound) = array-IsBoundary inside in (n, rw (inside) same, bound)
        | inr past ↦
            let low = array_end-present past in
            elim (Bool-cases (is_empty t.node)) [
              | inl empty ↦
                  (j, rw (past, empty) refl, (low, present_in-empty (j + 1) (omega arith) empty))
              | inr hash ↦
                  let u =
                    unbound_search-IsBoundary (present_in cast_num numeq t) fuel j k small low pos
                      le absent in
                  (u.0, rw (past, hash) u.1, u.2)
            ]
      ]
