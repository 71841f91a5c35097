-- ===== src/Table/Search.antt =====
-- The searches for a boundary in src/ltable.c.
use native.Mathlib.Nat.{pow-suc}
use luarc.Prelude.Int.{max_int}
use luarc.Prelude.{
  ℕ, zero, suc, ◌+◌, ◌-◌, ◌*◌, ◌/◌, ◌^◌, ◌<◌, ◌≤◌, ◌≡◌, ◌≢◌, ◌⊎◌, inl, inr, refl, sym, ap, ◌∙◌,
  Bool, true, false, Option, none, some, ltb, Bool-cases, arith,
}
use luarc.Table.{bisect, Grown, found, overflow, out_of_fuel, grow, linear, unbound_search}

-- `n` is present or 0, and `n + 1` is absent.
abbrev pub IsBoundary : (ℕ → Bool) → ℕ → Type 0
IsBoundary present n = ((n ≡ 0) ⊎ (present n ≡ true)) × (present (n + 1) ≡ false)

doubled : (j f : ℕ) → j * 2 ^ suc f ≡ j * 2 * 2 ^ f
doubled j f = rw (pow-suc 2 f) (omega arith)

module _ (present : ℕ → Bool) where
  pub bisect-IsBoundary :
      (fuel i j : ℕ)
      → i < j
      → j ≤ i + fuel
      → (i ≡ 0) ⊎ (present i ≡ true)
      → present j ≡ false
      → IsBoundary present (bisect present fuel i j) × (bisect present fuel i j < j)
  unfolding bisect
  bisect-IsBoundary zero i j lt fits low high = absurd (omega arith)
  bisect-IsBoundary (suc fuel) i j lt fits low high = elim (Bool-cases (ltb 1 (j - i))) [
    | inl go ↦
        let apart : i + 1 < j = ground arith in
        elim (Bool-cases (present ((i + j) / 2))) [
          | inl yes' ↦
              let ih =
                bisect-IsBoundary fuel ((i + j) / 2) j (omega arith) (omega arith) (inr yes')
                  high in
              rw (go, yes') ih
          | inr no' ↦
              let ih = bisect-IsBoundary fuel i ((i + j) / 2) (omega arith) (omega arith) low no' in
              rw (go, no') (ih.0, omega (arith, ih.1))
        ]
    | inr stop ↦
        let next : j ≡ i + 1 = ground arith in rw (stop) ((low, ap present (sym next) ∙ high), lt)
  ]

  linear-IsBoundary :
      (fuel i k : ℕ)
      → 0 < i
      → (i ≡ 1) ⊎ (present (i - 1) ≡ true)
      → i ≤ k
      → k < i + fuel
      → present k ≡ false
      → (n : ℕ) × (linear present fuel i ≡ some n) × IsBoundary present n
  unfolding linear
  linear-IsBoundary zero i k pos low le lt absent = absurd (omega arith)
  linear-IsBoundary (suc fuel) i k pos low le lt absent = elim (Bool-cases (present i)) [
    | inl yes' ↦
        let differs : i ≢ k = λ e. cc in
        let back : i + 1 - 1 ≡ i = omega arith in
        let ih =
          linear-IsBoundary fuel (i + 1) k (omega arith) (inr (ap present back ∙ yes'))
            (omega arith) (omega arith) absent in
        (ih.0, rw (yes') ih.1, ih.2)
    | inr no' ↦
        let next : i - 1 + 1 ≡ i = omega arith in
        (
          i - 1,
          rw (no') refl,
          (elim low [ inl one ↦ inl (omega arith) | inr p ↦ inr p ], ap present next ∙ no'),
        )
  ]

  -- The state of the first loop of `unbound_search`: what it finds is there to search between.
  data Between : Grown → Type 0 where
    between :
        (i j : ℕ) → i < j → (i ≡ 0) ⊎ (present i ≡ true) → present j ≡ false → Between (found i j)
    over : Between overflow

  grow-Between :
      (fuel i j : ℕ)
      → i < j
      → max_int < j * 2 ^ fuel
      → j ≤ max_int
      → (i ≡ 0) ⊎ (present i ≡ true)
      → Between (grow present fuel i j)
  unfolding grow
  grow-Between zero i j lt enough small low = absurd (omega arith)
  grow-Between (suc fuel) i j lt enough small low = elim (Bool-cases (present j)) [
    | inl yes' ↦ elim (Bool-cases (ltb max_int (j * 2))) [
      | inl over' ↦ rw (yes', over') over
      | inr on ↦
          rw (yes', on)
            (grow-Between fuel j (j * 2) (omega arith) (omega (arith, doubled j fuel))
              (ground arith) (inr yes'))
    ]
    | inr no' ↦ rw (no') (between i j lt low no')
  ]

  pub unbound_search-IsBoundary :
      (fuel j k : ℕ)
      → j < max_int
      → (j ≡ 0) ⊎ (present j ≡ true)
      → 0 < k
      → k ≤ fuel
      → present k ≡ false
      → (n : ℕ) × (unbound_search present fuel j ≡ some n) × IsBoundary present n
  unfolding unbound_search
  unbound_search-IsBoundary fuel j k small low pos le absent =
      go (grow present 32 j (j + 1))
        (grow-Between 32 j (j + 1) (omega arith) (omega arith) (omega arith) low)
    where
      go :
          (g : Grown)
          → Between g
          → (n : ℕ) × (elim g as (λ _. Option ℕ) [
            | found i j' ↦ some (bisect present j' i j')
            | overflow ↦ linear present fuel 1
            | out_of_fuel ↦ none
          ]
              ≡ some n)
            × IsBoundary present n
      go g (between i j' lt low' high) =
          (bisect present j' i j', refl, (bisect-IsBoundary j' i j' lt (omega arith) low' high).0)
      go g over =
          linear-IsBoundary fuel 1 k (omega arith) (inl refl) (omega arith) (omega arith) absent
