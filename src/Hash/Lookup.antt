-- ===== src/Hash/Lookup.antt =====
-- `luaH_get` of src/ltable.c finds exactly the keys of a hash part.
use mathlib.Core.Path.{subst}
use luarc.Prelude.{
  ℕ, zero, suc, ◌+◌, ◌<◌, ◌≤◌, ◌≡◌, ◌≢◌, ◌↔◌, ◌⊎◌, refl, sym, ap, ◌∙◌, Bool, true, false, none,
  some, Bool-cases, Option-cases, inl, inr, arith,
}
use luarc.Object.{Value, ttisnil}
use luarc.Table.{Entry}
use luarc.Hash.{HashPart, Walk, found, missing, spent, find_key, get}
use luarc.Hash.Linked.{is_key, Steps, used, used_le, IsHashing, IsHashed}

first :
    (test : Value → Bool) (node : ℕ → Entry) (fuel n : ℕ)
    → test (node n).key ≡ true
    → find_key test node (suc fuel) n ≡ found n
unfolding find_key
first test node fuel n hit = rw hit refl

further :
    (test : Value → Bool) (node : ℕ → Entry) (fuel n m : ℕ)
    → test (node n).key ≡ false
    → (node n).next ≡ some m
    → find_key test node (suc fuel) n ≡ find_key test node fuel m
unfolding find_key
further test node fuel n m miss e = rw (miss, e) refl

last :
    (test : Value → Bool) (node : ℕ → Entry) (fuel n : ℕ)
    → test (node n).key ≡ false
    → (node n).next ≡ none
    → find_key test node (suc fuel) n ≡ missing
unfolding find_key
last test node fuel n miss e = rw (miss, e) refl

found_inj : {a b : ℕ} → found a ≡ found b → a ≡ b
found_inj h = ground arith

-- The cases of a walk, with their equations.
pub Walk-cases : (w : Walk) → (w ≡ missing) ⊎ (((i : ℕ) × (w ≡ found i)) ⊎ (w ≡ spent))
Walk-cases (found i) = inr (inl (i, refl))
Walk-cases missing = inl refl
Walk-cases spent = inr (inr refl)

find_some :
    (test : Value → Bool) (node : ℕ → Entry) (fuel n i : ℕ)
    → find_key test node fuel n ≡ found i
    → test (node i).key ≡ true
unfolding find_key
find_some test node zero n i h = absurd (ground arith)
find_some test node (suc fuel) n i h = elim (Bool-cases (test (node n).key)) [
  | inl hit ↦
      let here : n ≡ i = found_inj (sym (first test node fuel n hit) ∙ h) in
      subst (λ x. test (node x).key ≡ true) here hit
  | inr miss ↦ elim (Option-cases (node n).next) [
    | inl e ↦ absurd (ground (arith, sym (last test node fuel n miss e) ∙ h))
    | inr (m, e) ↦ find_some test node fuel m i (sym (further test node fuel n m miss e) ∙ h)
  ]
]

-- Ranks rise with each step.
pub rank_le :
    (node : ℕ → Entry) (rank : ℕ → ℕ)
    → ((i j : ℕ) → (node i).next ≡ some j → rank i < rank j)
    → (k m i : ℕ) → Steps node k m i
    → rank m + k ≤ rank i
rank_le node rank rises zero m i e = rw e omega arith
rank_le node rank rises (suc k) m i (j, e, steps) =
    omega (arith, rank_le node rank rises k j i steps, rises m j e)

find_only :
    (test : Value → Bool) (node : ℕ → Entry) (fuel k m i : ℕ)
    → ((j : ℕ) → test (node j).key ≡ true → j ≡ i)
    → test (node i).key ≡ true
    → Steps node k m i
    → k < fuel
    → find_key test node fuel m ≡ found i
find_only test node zero k m i only hit steps h = absurd (omega arith)
find_only test node (suc fuel) zero m i only hit steps h =
    subst (λ x. find_key test node (suc fuel) x ≡ found i) (sym steps) (first test node fuel i hit)
find_only test node (suc fuel) (suc k) m i only hit (j, e, steps) h =
    elim (Bool-cases (test (node m).key)) [
      | inl hit' ↦ first test node fuel m hit' ∙ ap found (only m hit')
      | inr miss ↦
          further test node fuel m j miss e
          ∙ find_only test node fuel k j i only hit steps (omega arith)
    ]

-- A walk ends where ranks rise with each step, up to a bound that the turns are for.
find_key-ends :
    (test : Value → Bool) (node : ℕ → Entry) (rank : ℕ → ℕ) (bound fuel m : ℕ)
    → ((i j : ℕ) → (node i).next ≡ some j → rank i < rank j)
    → ((i : ℕ) → rank i ≤ bound)
    → bound < rank m + fuel
    → find_key test node fuel m ≢ spent
unfolding find_key
find_key-ends test node rank bound zero m rises bounded h e = omega (arith, bounded m)
find_key-ends test node rank bound (suc fuel) m rises bounded h e =
    elim (Bool-cases (test (node m).key)) [
      | inl hit ↦ ground (arith, first test node fuel m hit)
      | inr miss ↦ elim (Option-cases (node m).next) [
        | inl over ↦ ground (arith, last test node fuel m miss over)
        | inr (j, on) ↦
            find_key-ends test node rank bound fuel j rises bounded (omega (arith, rises m j on))
              (sym (further test node fuel m j miss on) ∙ e)
      ]
    ]

module _ (main : Value → ℕ) (same : Value → Value → Bool) (t : HashPart)
    (laws : IsHashing main same t.sizenode) where
  pub same_only :
      (ok : IsHashed main same t) (key : Value) (i j : ℕ)
      → is_key key ≡ true
      → same (t.node i).key key ≡ true
      → same (t.node j).key key ≡ true
      → j ≡ i
  same_only ok key i j good a b =
      ok.unique j i (laws.kind _ _ b ∙ good) (laws.kind _ _ a ∙ good)
        (laws.join _ _ _ b (laws.flip _ _ a))

  get_key :
      (key : Value)
      → ttisnil key ≡ false
      → get main same t key ≡ find_key (λ k. same k key) t.node (suc t.sizenode) (main key)
  unfolding get
  get_key key h = rw h refl

  pub get-Finds :
      (key : Value) (i : ℕ)
      → IsHashed main same t
      → is_key key ≡ true
      → (get main same t key ≡ found i) ↔ (same (t.node i).key key ≡ true)
  get-Finds key i ok good =
      let not_nil : ttisnil key ≡ false = ground arith in
      (
        λ h.
            find_some (λ k. same k key) t.node (suc t.sizenode) (main key) i
              (sym (get_key key not_nil) ∙ h),
        λ hit.
            let k = ok.reached i (laws.kind _ _ hit ∙ good) in
            let from : Steps t.node (k.0) (main key) i =
              subst (λ m. Steps t.node (k.0) m i) (laws.hash _ _ hit) k.1 in
            get_key key not_nil
            ∙ (find_only (λ k. same k key) t.node (suc t.sizenode) (k.0) (main key) i
                (λ j e. same_only ok key i j good hit e) hit from
                (omega (
                  arith,
                  rank_le t.node ok.rank ok.rises (k.0) (main key) i from,
                  ok.bounded i,
                  used_le t.node t.sizenode,
                ))),
      )

  pub get-ends :
      (key : Value) → IsHashed main same t → is_key key ≡ true → get main same t key ≢ spent
  get-ends key ok good e =
      let not_nil : ttisnil key ≡ false = ground arith in
      find_key-ends (λ k. same k key) t.node ok.rank (used t.node t.sizenode) (suc t.sizenode)
        (main key) ok.rises ok.bounded (omega (arith, used_le t.node t.sizenode))
        (sym (get_key key not_nil) ∙ e)

  -- The node with the key, or the end of the chain where no node has it.
  pub get-cases :
      (key : Value)
      → IsHashed main same t
      → is_key key ≡ true
      → ((i : ℕ) × (get main same t key ≡ found i) × (same (t.node i).key key ≡ true))
        ⊎ ((get main same t key ≡ missing) × ((j : ℕ) → same (t.node j).key key ≡ false))
  get-cases key ok good = elim (Walk-cases (get main same t key)) [
    | inl e ↦ inr (
      e,
      λ j. elim (Bool-cases (same (t.node j).key key)) [
        | inl hit ↦ absurd (ground (arith, e, (get-Finds key j ok good).1 hit))
        | inr miss ↦ miss
      ],
    )
    | inr (inl (i, e)) ↦ inl (i, e, (get-Finds key i ok good).0 e)
    | inr (inr e) ↦ absurd (get-ends key ok good e)
  ]
