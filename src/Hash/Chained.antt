-- ===== src/Hash/Chained.antt =====
-- How `newkey` of src/ltable.c puts a free position into the chain of a colliding node.
use mathlib.Core.Path.{subst}
use luarc.Prelude.{
  ℕ, zero, suc, ◌+◌, ◌<◌, ◌≤◌, ◌≡◌, ◌≢◌, ◌⊎◌, refl, sym, ap, ◌∙◌, Bool, true, false, none, some,
  ◌==◌, if◌then◌else◌, inl, inr, arith, leb,
}
use luarc.Object.{Value, ttisnil}
use luarc.Table.{Entry}
use luarc.Hash.{put, chain_after}
use luarc.Hash.Linked.{is_key, Steps, Reach, Reach-step, IsLinked, IsHashing}
use luarc.Hash.Placed.{same_index, IsPlace}
use luarc.Hash.Moved.{some_inj, put_same, put_other}

abbrev chain_rank : (ℕ → ℕ) → (mp n j : ℕ) → ℕ
chain_rank rank mp n j =
    if j == n then rank mp + 1 else if leb (rank j) (rank mp) then rank j else rank j + 1

chain_rank_le :
    (rank : ℕ → ℕ) (mp n j bound : ℕ)
    → ((i : ℕ) → rank i ≤ bound)
    → chain_rank rank mp n j ≤ bound + 1
chain_rank_le rank mp n j bound h = ground (arith, h mp, h j)

module _ (main : Value → ℕ) (same : Value → Value → Bool) (size : ℕ)
    (laws : IsHashing main same size) where
  -- A node in its main position `mp`, and a free position.
  pub record IsChain (node : ℕ → Entry) (mp n : ℕ) : Type 0 where
    pub in_range : n < size
    pub free : ttisnil (node n).key ≡ true
    pub live : is_key (node mp).key ≡ true
    pub settled : main (node mp).key ≡ mp

  module _ (node : ℕ → Entry) (bound mp n : ℕ) (ok : IsLinked main same size bound size node)
      (at : IsChain node mp n) where
    abbrev node' : ℕ → Entry
    node' = chain_after node mp n

    abbrev taken : Entry
    taken = record { key = (node n).key; val = (node n).val; next = (node mp).next }

    abbrev before : ℕ → Entry
    before = put node n taken

    abbrev leading : Entry
    leading = record { key = (node mp).key; val = (node mp).val; next = some n }

    apart : n ≢ mp
    apart e = ground (arith, at.free, at.live, ap (λ x. ttisnil (node x).key) e)

    n-ends : (node n).next ≡ none
    n-ends = ok.ends n at.in_range (λ e. omega (arith, at.in_range)) at.free

    n-alone : (j : ℕ) → (node j).next ≢ some n
    n-alone j = ok.alone n j (λ e. omega (arith, at.in_range)) at.free

    at_mp : node' mp ≡ leading
    at_mp = put_same before mp leading

    at_n : node' n ≡ taken
    at_n = put_other before mp leading n apart ∙ put_same node n taken

    at_other : (j : ℕ) → j ≢ mp → j ≢ n → node' j ≡ node j
    at_other j a b = put_other before mp leading j a ∙ put_other node n taken j b

    next_at : (j : ℕ) (e : Entry) → node' j ≡ e → (node' j).next ≡ e.next
    next_at j e h = ap (λ (x : Entry). x.next) h

    pub key_same : (j : ℕ) → (node' j).key ≡ (node j).key
    key_same j = elim (same_index j mp) [
      | inl e ↦ subst (λ x. (node' x).key ≡ (node x).key) (sym e) (ap (λ (x : Entry). x.key) at_mp)
      | inr a ↦ elim (same_index j n) [
        | inl e ↦ subst (λ x. (node' x).key ≡ (node x).key) (sym e) (ap (λ (x : Entry). x.key) at_n)
        | inr b ↦ ap (λ (x : Entry). x.key) (at_other j a b)
      ]
    ]

    pub val_same : (j : ℕ) → (node' j).val ≡ (node j).val
    val_same j = elim (same_index j mp) [
      | inl e ↦ subst (λ x. (node' x).val ≡ (node x).val) (sym e) (ap (λ (x : Entry). x.val) at_mp)
      | inr a ↦ elim (same_index j n) [
        | inl e ↦ subst (λ x. (node' x).val ≡ (node x).val) (sym e) (ap (λ (x : Entry). x.val) at_n)
        | inr b ↦ ap (λ (x : Entry). x.val) (at_other j a b)
      ]
    ]

    came :
        (a b : ℕ)
        → (node' a).next ≡ some b
        → ((a ≡ mp) × (b ≡ n))
          ⊎ (((a ≡ n) × ((node mp).next ≡ some b))
              ⊎ ((a ≢ mp) × (a ≢ n) × ((node a).next ≡ some b)))
    came a b h = elim (same_index a mp) [
      | inl e ↦ inl (e, some_inj (sym h ∙ ap (λ x. (node' x).next) e ∙ next_at mp leading at_mp))
      | inr a_mp ↦ inr (elim (same_index a n) [
        | inl e ↦ inl (e, sym (next_at n taken at_n) ∙ ap (λ x. (node' x).next) (sym e) ∙ h)
        | inr a_n ↦ inr (a_mp, a_n, sym (next_at a (node a) (at_other a a_mp a_n)) ∙ h)
      ])
    ]

    from_ne : (a b : ℕ) → (node a).next ≡ some b → a ≢ n
    from_ne a b h e = ground (arith, h, n-ends, ap (λ x. (node x).next) e)

    to_ne : (a b : ℕ) → (node a).next ≡ some b → b ≢ n
    to_ne a b h e = n-alone a (h ∙ ap some e)

    abbrev rank' : ℕ → ℕ
    rank' = chain_rank ok.rank mp n

    chain-rises : (a b : ℕ) → (node' a).next ≡ some b → rank' a < rank' b
    chain-rises a b h = elim (came a b h) [
      | inl (e, f) ↦
          subst (λ x. rank' x < rank' b) (sym e)
            (subst (λ x. rank' mp < rank' x) (sym f) ground (arith, apart))
      | inr (inl (e, f)) ↦
          subst (λ x. rank' x < rank' b) (sym e) ground (arith, to_ne mp b f, ok.rises mp b f)
      | inr (inr (a_mp, a_n, f)) ↦ ground (arith, to_ne a b f, ok.rises a b f)
    ]

    chain-inside : (a b : ℕ) → (node' a).next ≡ some b → b < size
    chain-inside a b h = elim (came a b h) [
      | inl (e, f) ↦ omega (arith, at.in_range)
      | inr (inl (e, f)) ↦ ok.inside mp b f
      | inr (inr (a_mp, a_n, f)) ↦ ok.inside a b f
    ]

    chain-single : (a b m : ℕ) → (node' a).next ≡ some m → (node' b).next ≡ some m → a ≡ b
    chain-single a b m h k = elim (came a m h) [
      | inl (e, f) ↦ elim (came b m k) [
        | inl (e', f') ↦ e ∙ sym e'
        | inr (inl (e', f')) ↦ absurd (to_ne mp m f' f)
        | inr (inr (b_mp, b_n, f')) ↦ absurd (to_ne b m f' f)
      ]
      | inr (inl (e, f)) ↦ elim (came b m k) [
        | inl (e', f') ↦ absurd (to_ne mp m f f')
        | inr (inl (e', f')) ↦ e ∙ sym e'
        | inr (inr (b_mp, b_n, f')) ↦ absurd (b_mp (ok.single b mp m f' f))
      ]
      | inr (inr (a_mp, a_n, f)) ↦ elim (came b m k) [
        | inl (e', f') ↦ absurd (to_ne a m f f')
        | inr (inl (e', f')) ↦ absurd (a_mp (ok.single a mp m f f'))
        | inr (inr (b_mp, b_n, f')) ↦ ok.single a b m f f'
      ]
    ]

    chain-ends : (j : ℕ) → j < size → j ≢ n → ttisnil (node' j).key ≡ true → (node' j).next ≡ none
    chain-ends j lt j_n h =
        let old : ttisnil (node j).key ≡ true = ap ttisnil (sym (key_same j)) ∙ h in
        let j_mp : j ≢ mp = λ e. ground (arith, old, at.live, ap (λ x. ttisnil (node x).key) e) in
        next_at j (node j) (at_other j j_mp j_n) ∙ ok.ends j lt (λ e. omega arith) old

    chain-alone : (j m : ℕ) → j ≢ n → ttisnil (node' j).key ≡ true → (node' m).next ≢ some j
    chain-alone j m j_n h e =
        let old : ttisnil (node j).key ≡ true = ap ttisnil (sym (key_same j)) ∙ h in
        elim (came m j e) [
          | inl (a, f) ↦ j_n f
          | inr (inl (a, f)) ↦ ok.alone j mp (λ k. omega (arith, ok.inside mp j f)) old f
          | inr (inr (m_mp, m_n, f)) ↦ ok.alone j m (λ k. omega (arith, ok.inside m j f)) old f
        ]

    Reach-chain : (k m i : ℕ) → Steps node k m i → Reach node' m i
    Reach-chain zero m i e = (0, e)
    Reach-chain (suc k) m i (j, e, steps) = elim (same_index m mp) [
      | inl here ↦
          Reach-step node' m n i (ap (λ x. (node' x).next) here ∙ next_at mp leading at_mp) (
            Reach-step node' n j i (next_at n taken at_n ∙ ap (λ x. (node x).next) (sym here) ∙ e)
              (Reach-chain k j i steps))
      | inr m_mp ↦
          Reach-step node' m j i (next_at m (node m) (at_other m m_mp (from_ne m j e)) ∙ e)
            (Reach-chain k j i steps)
    ]

    chain-reached : (j : ℕ) → is_key (node' j).key ≡ true → Reach node' (main (node' j).key) j
    chain-reached j h =
        let r = ok.reached j (ap is_key (sym (key_same j)) ∙ h) in
        subst (λ v. Reach node' (main v) j) (sym (key_same j))
          (Reach-chain (r.0) (main (node j).key) j r.1)

    chain-home :
        (j m : ℕ)
        → is_key (node' j).key ≡ true
        → main (node' j).key ≡ m
        → m ≢ j
        → (ttisnil (node' m).key ≡ false) × (is_key (node' m).key ≡ true → main (node' m).key ≡ m)
    chain-home j m h e ne =
        subst (λ v. (ttisnil v ≡ false) × (is_key v ≡ true → main v ≡ m)) (sym (key_same m))
          (ok.home j m (ap is_key (sym (key_same j)) ∙ h) (ap main (sym (key_same j)) ∙ e) ne)

    pub chain-IsLinked : IsLinked main same size (bound + 1) n node'
    chain-IsLinked = record {
      rank = rank';
      rises = chain-rises;
      inside = chain-inside;
      bounded = λ j. chain_rank_le ok.rank mp n j bound ok.bounded;
      single = chain-single;
      ends = chain-ends;
      alone = chain-alone;
      alive = λ j h. ap is_key (key_same j) ∙ ok.alive j (ap ttisnil (sym (val_same j)) ∙ h);
      reached = chain-reached;
      home = chain-home;
      unique = λ a b h k e.
          ok.unique a b (ap is_key (sym (key_same a)) ∙ h) (ap is_key (sym (key_same b)) ∙ k) (
            ap (λ v. same v (node b).key) (sym (key_same a))
            ∙ ap (same (node' a).key) (sym (key_same b))
            ∙ e);
    }

    -- The free position is in the chain for a new key.
    pub chain-IsPlace :
        (key : Value)
        → main key ≡ mp
        → is_key key ≡ true
        → ((j : ℕ) → is_key (node j).key ≡ true → same (node j).key key ≡ false)
        → IsPlace main same size laws node' n n key
    chain-IsPlace key here good fresh = record {
      is_hole = inr refl;
      in_range = at.in_range;
      good = good;
      fresh = λ j h. ap (λ v. same v key) (key_same j) ∙ fresh j (ap is_key (sym (key_same j)) ∙ h);
      in_chain = (1, (n, ap (λ x. (node' x).next) here ∙ next_at mp leading at_mp, refl));
      led = λ ne.
          subst
            (λ m.
              (ttisnil (node' m).key ≡ false)
              × (is_key (node' m).key ≡ true → main (node' m).key ≡ m))
            (sym here)
            (
              ap ttisnil (key_same mp) ∙ ground (arith, at.live),
              λ h. ap main (key_same mp) ∙ at.settled,
            );
      vacant = inr (ap ttisnil (key_same n) ∙ at.free);
    }
