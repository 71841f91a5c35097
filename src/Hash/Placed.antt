-- ===== src/Hash/Placed.antt =====
-- The end of `newkey` of src/ltable.c: a key that goes to a node of its chain.
use mathlib.Core.Path.{subst}
use luarc.Prelude.{
  ℕ, zero, suc, ◌<◌, ◌≤◌, ◌≡◌, ◌≢◌, ◌⊎◌, refl, sym, ap, ◌∙◌, Bool, true, false, none, some, ◌==◌,
  Bool-cases, inl, inr, arith, ==_iff,
}
use luarc.Object.{Value, ttisnil}
use luarc.Table.{Entry}
use luarc.Hash.{place}
use luarc.Hash.Linked.{is_key, Steps, Reach, IsLinked, IsHashing}

pub next-place :
    (node : ℕ → Entry) (i : ℕ) (key : Value) (j : ℕ) → (place node i key j).next ≡ (node j).next
next-place node i key j = elim (Bool-cases (j == i)) [
  | inl here ↦ rw here (ap (λ x. (node x).next) (sym ((==_iff j i).0 here)))
  | inr other ↦ rw other refl
]

pub val-place :
    (node : ℕ → Entry) (i : ℕ) (key : Value) (j : ℕ) → (place node i key j).val ≡ (node j).val
val-place node i key j = elim (Bool-cases (j == i)) [
  | inl here ↦ rw here (ap (λ x. (node x).val) (sym ((==_iff j i).0 here)))
  | inr other ↦ rw other refl
]

pub key-place_same : (node : ℕ → Entry) (i : ℕ) (key : Value) → (place node i key i).key ≡ key
key-place_same node i key = let same : (i == i) ≡ true = ground arith in rw same refl

pub key-place_other :
    (node : ℕ → Entry) (i : ℕ) (key : Value) (j : ℕ)
    → j ≢ i
    → (place node i key j).key ≡ (node j).key
key-place_other node i key j h = let other : (j == i) ≡ false = ground arith in rw other refl

Steps-along :
    (node node' : ℕ → Entry)
    → ((j : ℕ) → (node' j).next ≡ (node j).next)
    → (k m i : ℕ) → Steps node k m i
    → Steps node' k m i
Steps-along node node' along zero m i e = e
Steps-along node node' along (suc k) m i (j, e, steps) =
    (j, along m ∙ e, Steps-along node node' along k j i steps)

pub Reach-along :
    (node node' : ℕ → Entry)
    → ((j : ℕ) → (node' j).next ≡ (node j).next)
    → (m i : ℕ) → Reach node m i
    → Reach node' m i
Reach-along node node' along m i (k, steps) = (k, Steps-along node node' along k m i steps)

pub same_index : (i j : ℕ) → (i ≡ j) ⊎ (i ≢ j)
same_index i j = elim (Bool-cases (i == j)) [
  | inl e ↦ inl ((==_iff i j).0 e)
  | inr e ↦ inr (λ h. ground arith)
]

-- To show something of every node, with the key at `i` and the others.
by_index :
    (node : ℕ → Entry) (i : ℕ) (key : Value) (F : ℕ → Value → Type 0)
    → F i key
    → ((j : ℕ) → j ≢ i → F j (node j).key)
    → (j : ℕ) → F j (place node i key j).key
by_index node i key F here other j = elim (same_index j i) [
  | inl e ↦
      subst (λ x. F x (place node i key x).key) (sym e)
        (subst (λ v. F i v) (sym (key-place_same node i key)) here)
  | inr ne ↦ subst (λ v. F j v) (sym (key-place_other node i key j ne)) (other j ne)
]

module _ (main : Value → ℕ) (same : Value → Value → Bool) (size : ℕ)
    (laws : IsHashing main same size) where
  -- What a node has to be for a key to go there.
  pub record IsPlace (node : ℕ → Entry) (hole i : ℕ) (key : Value) : Type 0 where
    pub is_hole : (hole ≡ size) ⊎ (hole ≡ i)
    pub in_range : i < size
    pub good : is_key key ≡ true
    pub fresh : (j : ℕ) → is_key (node j).key ≡ true → same (node j).key key ≡ false
    pub in_chain : Reach node (main key) i
    pub led :
        main key ≢ i
        → (ttisnil (node (main key)).key ≡ false)
          × (is_key (node (main key)).key ≡ true → main (node (main key)).key ≡ main key)
    pub vacant : (main key ≡ i) ⊎ (ttisnil (node i).key ≡ true)

  module _ (node : ℕ → Entry) (bound hole i : ℕ) (key : Value)
      (ok : IsLinked main same size bound hole node) (at : IsPlace node hole i key) where
    not_hole : (j : ℕ) → j ≢ i → j ≢ size → j ≢ hole
    not_hole j ne inner e = elim at.is_hole [ inl h ↦ inner (e ∙ h) | inr h ↦ ne (e ∙ h) ]

    key_not_nil : ttisnil key ≡ false
    key_not_nil = let good : is_key key ≡ true = at.good in ground arith

    place-ends : (j : ℕ) → j < size → ttisnil (place node i key j).key ≡ true → (node j).next ≡ none
    place-ends =
        by_index node i key (λ j v. j < size → ttisnil v ≡ true → (node j).next ≡ none)
          (λ lt e. absurd (ground (arith, key_not_nil)))
          (λ j ne lt e. ok.ends j lt (not_hole j ne (λ h. omega arith)) e)

    place-alone :
        (j : ℕ)
        → j ≢ size
        → ttisnil (place node i key j).key ≡ true
        → (m : ℕ) → (node m).next ≢ some j
    place-alone =
        by_index node i key (λ j v. j ≢ size → ttisnil v ≡ true → (m : ℕ) → (node m).next ≢ some j)
          (λ lt e. absurd (ground (arith, key_not_nil)))
          (λ j ne lt e m. ok.alone j m (not_hole j ne lt) e)

    place-alive : (j : ℕ) → ttisnil (node j).val ≡ false → is_key (place node i key j).key ≡ true
    place-alive =
        by_index node i key (λ j v. ttisnil (node j).val ≡ false → is_key v ≡ true) (λ e. at.good)
          (λ j ne e. ok.alive j e)

    place-reached :
        (j : ℕ)
        → is_key (place node i key j).key ≡ true
        → Reach node (main (place node i key j).key) j
    place-reached =
        by_index node i key (λ j v. is_key v ≡ true → Reach node (main v) j) (λ e. at.in_chain)
          (λ j ne e. ok.reached j e)

    abbrev Home : ℕ → Value → Type 0
    Home m v = (ttisnil v ≡ false) × (is_key v ≡ true → main v ≡ m)

    -- `i` as the main position of another key.
    home_here : (j : ℕ) → is_key (node j).key ≡ true → main (node j).key ≡ i → i ≢ j → main key ≡ i
    home_here j good e ne = elim at.vacant [
      | inl h ↦ h
      | inr empty ↦ absurd (ground (arith, (ok.home j i good e ne).0))
    ]

    place-Home :
        (j : ℕ)
        → is_key (place node i key j).key ≡ true
        → (m : ℕ) → main (place node i key j).key ≡ m
        → m ≢ j
        → Home m (place node i key m).key
    place-Home =
        by_index node i key
          (λ j v. is_key v ≡ true → (m : ℕ) → main v ≡ m → m ≢ j → Home m (place node i key m).key)
          (λ good m e ne.
            subst (λ x. x ≢ i → Home x (place node i key x).key) e
              (λ apart.
                subst (Home (main key)) (sym (key-place_other node i key (main key) apart))
                  (at.led apart))
              ne)
          (λ j ne good.
            by_index node i key (λ m v. main (node j).key ≡ m → m ≢ j → Home m v)
              (λ e apart. (key_not_nil, λ k. home_here j good e apart))
              (λ m other e apart. ok.home j m good e apart))

    place_unique :
        (a b : ℕ)
        → is_key (place node i key a).key ≡ true
        → is_key (place node i key b).key ≡ true
        → same (place node i key a).key (place node i key b).key ≡ true
        → a ≡ b
    place_unique a b =
        by_index node i key
          (λ x v.
            is_key v ≡ true
            → is_key (place node i key b).key ≡ true
            → same v (place node i key b).key ≡ true
            → x ≡ b)
          (by_index node i key
            (λ x v. is_key key ≡ true → is_key v ≡ true → same key v ≡ true → i ≡ x) (λ g h e. refl)
            (λ j ne g h e. absurd (ground (arith, at.fresh j h, laws.flip key (node j).key e))) b)
          (λ x apart.
            by_index node i key
              (λ y v.
                is_key (node x).key ≡ true → is_key v ≡ true → same (node x).key v ≡ true → x ≡ y)
              (λ g h e. absurd (ground (arith, at.fresh x g))) (λ y ne g h e. ok.unique x y g h e)
              b)
          a

  pub place-IsLinked :
      (node : ℕ → Entry) (bound bound' hole i : ℕ) (key : Value)
      → IsLinked main same size bound hole node
      → IsPlace node hole i key
      → bound ≤ bound'
      → IsLinked main same size bound' size (place node i key)
  place-IsLinked node bound bound' hole i key ok at more = record {
    rank = ok.rank;
    rises = λ a b e. ok.rises a b (sym (next-place node i key a) ∙ e);
    inside = λ a b e. ok.inside a b (sym (next-place node i key a) ∙ e);
    bounded = λ a. omega (arith, ok.bounded a);
    single = λ a b m e f.
        ok.single a b m (sym (next-place node i key a) ∙ e) (sym (next-place node i key b) ∙ f);
    ends = λ a lt apart e. next-place node i key a ∙ place-ends node bound hole i key ok at a lt e;
    alone = λ a b apart e f.
        place-alone node bound hole i key ok at a apart e b (sym (next-place node i key b) ∙ f);
    alive = λ a e.
        place-alive node bound hole i key ok at a (sym (ap ttisnil (val-place node i key a)) ∙ e);
    reached = λ a e.
        Reach-along node (place node i key) (next-place node i key) _ a
          (place-reached node bound hole i key ok at a e);
    home = λ a m g e apart. place-Home node bound hole i key ok at a g m e apart;
    unique = place_unique node bound hole i key ok at;
  }
