-- ===== src/Hash/Kept.antt =====
-- The values of a hash part that stay where `newkey` of src/ltable.c changes nodes, the number of nodes
-- with a key, and the two searches of `newkey`.
use luarc.Prelude.{
  ℕ, zero, suc, ◌+◌, ◌<◌, ◌≤◌, ◌≡◌, ◌≢◌, refl, sym, ap, ◌∙◌, Bool, true, false, none, some,
  Bool-cases, inl, inr, arith,
}
use luarc.Object.{Value, nil, boolean, lightuserdata, number, object, deadkey, ttisnil}
use luarc.Table.{Entry}
use luarc.Hash.{HashPart, found, get, value_at, getfreepos, find_prev, leads_to, place}
use luarc.Hash.Linked.{is_key, Steps, used, IsHashing, IsHashed}
use luarc.Hash.Lookup.{get-Finds, Walk-cases}
use luarc.Hash.Moved.{some_inj}
use luarc.Hash.Placed.{same_index, val-place, key-place_other}

pub is_nil : (v : Value) → ttisnil v ≡ true → v ≡ nil
is_nil nil h = refl
is_nil (boolean b) h = absurd (ground arith)
is_nil (lightuserdata p) h = absurd (ground arith)
is_nil (number n) h = absurd (ground arith)
is_nil (object t p) h = absurd (ground arith)
is_nil (deadkey p) h = absurd (ground arith)

-- Every value that is not nil, with its key, is somewhere in the other nodes.
abbrev pub Carried : (node node' : ℕ → Entry) → Type 0
Carried node node' =
    (j : ℕ)
    → ttisnil (node j).val ≡ false
    → (j' : ℕ) × ((node' j').key ≡ (node j).key) × ((node' j').val ≡ (node j).val)

pub Carried-join : (a b c : ℕ → Entry) → Carried a b → Carried b c → Carried a c
Carried-join a b c f g j h =
    let x = f j h in let y = g (x.0) (ap ttisnil (x.2) ∙ h) in (y.0, y.1 ∙ x.1, y.2 ∙ x.2)

pub place-Carried :
    (node : ℕ → Entry) (i : ℕ) (key : Value)
    → ttisnil (node i).val ≡ true
    → Carried node (place node i key) × Carried (place node i key) node
place-Carried node i key h = (
  λ j live.
      let apart : j ≢ i = λ e. ground (arith, h, live, ap (λ x. ttisnil (node x).val) e) in
      (j, key-place_other node i key j apart, val-place node i key j),
  λ j live.
      let old : ttisnil (node j).val ≡ false = ap ttisnil (sym (val-place node i key j)) ∙ live in
      let apart : j ≢ i = λ e. ground (arith, h, old, ap (λ x. ttisnil (node x).val) e) in
      (j, sym (key-place_other node i key j apart), sym (val-place node i key j)),
)

module _ (main : Value → ℕ) (same : Value → Value → Bool) (t t' : HashPart)
    (laws : IsHashing main same t.sizenode) (laws' : IsHashing main same t'.sizenode)
    (ok : IsHashed main same t) (ok' : IsHashed main same t') where
  Carried-value :
      (key : Value)
      → is_key key ≡ true
      → Carried t.node t'.node
      → ttisnil (value_at t.node (get main same t key)) ≡ false
      → value_at t'.node (get main same t' key) ≡ value_at t.node (get main same t key)
  Carried-value key good carried live = elim (Walk-cases (get main same t key)) [
    | inl e ↦ absurd (ground (arith, live, ap (λ o. ttisnil (value_at t.node o)) e))
    | inr (inr e) ↦ absurd (ground (arith, live, ap (λ o. ttisnil (value_at t.node o)) e))
    | inr (inl (j, e)) ↦
        let hit : same (t.node j).key key ≡ true = (get-Finds main same t laws key j ok good).0 e in
        let x = carried j (ap (λ o. ttisnil (value_at t.node o)) (sym e) ∙ live) in
        let e' : get main same t' key ≡ found (x.0) =
          (get-Finds main same t' laws' key (x.0) ok' good).1 (ap (λ v. same v key) (x.1) ∙ hit) in
        ap (value_at t'.node) e' ∙ x.2 ∙ ap (value_at t.node) (sym e)
  ]

module _ (main : Value → ℕ) (same : Value → Value → Bool) (t t' : HashPart)
    (laws : IsHashing main same t.sizenode) (laws' : IsHashing main same t'.sizenode)
    (ok : IsHashed main same t) (ok' : IsHashed main same t') where
  pub same_values :
      (key : Value)
      → is_key key ≡ true
      → Carried t.node t'.node
      → Carried t'.node t.node
      → value_at t'.node (get main same t' key) ≡ value_at t.node (get main same t key)
  same_values key good there back =
      elim (Bool-cases (ttisnil (value_at t.node (get main same t key)))) [
        | inl empty ↦ elim (Bool-cases (ttisnil (value_at t'.node (get main same t' key)))) [
          | inl empty' ↦ is_nil _ empty' ∙ sym (is_nil _ empty)
          | inr live' ↦ sym (Carried-value main same t' t laws' laws ok' ok key good back live')
        ]
        | inr live ↦ Carried-value main same t t' laws laws' ok ok' key good there live
      ]

pub used_mono :
    (node node' : ℕ → Entry) (size : ℕ)
    → ((j : ℕ) → ttisnil (node' j).key ≡ true → ttisnil (node j).key ≡ true)
    → used node size ≤ used node' size
unfolding used
used_mono node node' zero h = omega arith
used_mono node node' (suc i) h = ground (arith, used_mono node node' i h, h i)

pub used_more :
    (node node' : ℕ → Entry) (n size : ℕ)
    → ((j : ℕ) → ttisnil (node' j).key ≡ true → ttisnil (node j).key ≡ true)
    → n < size
    → ttisnil (node n).key ≡ true
    → ttisnil (node' n).key ≡ false
    → used node size + 1 ≤ used node' size
unfolding used
used_more node node' n zero h lt a b = absurd (omega arith)
used_more node node' n (suc i) h lt a b = elim (same_index i n) [
  | inl e ↦
      let a' : ttisnil (node i).key ≡ true = ap (λ x. ttisnil (node x).key) e ∙ a in
      let b' : ttisnil (node' i).key ≡ false = ap (λ x. ttisnil (node' x).key) e ∙ b in
      rw (a', b') omega (arith, used_mono node node' i h)
  | inr ne ↦ ground (arith, used_more node node' n i h (omega arith) a b, h i)
]

getfreepos_here :
    (node : ℕ → Entry) (i : ℕ) → ttisnil (node i).key ≡ true → getfreepos node (suc i) ≡ some i
unfolding getfreepos
getfreepos_here node i h = rw h refl

getfreepos_below :
    (node : ℕ → Entry) (i : ℕ)
    → ttisnil (node i).key ≡ false
    → getfreepos node (suc i) ≡ getfreepos node i
unfolding getfreepos
getfreepos_below node i h = rw h refl

pub getfreepos-some :
    (node : ℕ → Entry) (lastfree n : ℕ)
    → getfreepos node lastfree ≡ some n
    → (n < lastfree) × (ttisnil (node n).key ≡ true)
unfolding getfreepos
getfreepos-some node zero n h = absurd (ground arith)
getfreepos-some node (suc i) n h = elim (Bool-cases (ttisnil (node i).key)) [
  | inl e ↦
      let here : i ≡ n = some_inj (sym (getfreepos_here node i e) ∙ h) in
      (omega arith, ap (λ x. ttisnil (node x).key) (sym here) ∙ e)
  | inr e ↦
      let rest = getfreepos-some node i n (sym (getfreepos_below node i e) ∙ h) in
      (omega (arith, rest.0), rest.1)
]

pub getfreepos-none :
    (node : ℕ → Entry) (lastfree j : ℕ)
    → getfreepos node lastfree ≡ none
    → j < lastfree
    → ttisnil (node j).key ≡ false
unfolding getfreepos
getfreepos-none node zero j h lt = absurd (omega arith)
getfreepos-none node (suc i) j h lt = elim (Bool-cases (ttisnil (node i).key)) [
  | inl e ↦ absurd (ground (arith, getfreepos_here node i e, h))
  | inr e ↦ elim (same_index j i) [
    | inl here ↦ ap (λ x. ttisnil (node x).key) here ∙ e
    | inr other ↦ getfreepos-none node i j (sym (getfreepos_below node i e) ∙ h) (ground arith)
  ]
]

pub find_prev-some :
    (node : ℕ → Entry) (size mp fuel k o : ℕ)
    → ((i j : ℕ) → (node i).next ≡ some j → j < size)
    → Steps node k o mp
    → o ≢ mp
    → o < size
    → k ≤ fuel
    → (prev : ℕ) × (find_prev node mp fuel o ≡ some prev)
      × ((node prev).next ≡ some mp)
      × (prev < size)
unfolding find_prev
find_prev-some node size mp fuel zero o inside e ne lt h = absurd (ne e)
find_prev-some node size mp zero (suc k) o inside steps ne lt h = absurd (omega arith)
find_prev-some node size mp (suc fuel) (suc k) o inside (j, e, steps) ne lt h =
    elim (same_index j mp) [
      | inl here ↦
          let hit : leads_to (node o).next mp ≡ true = ap (λ x. leads_to x mp) e ∙ ground arith in
          (o, rw hit refl, e ∙ ap some here, lt)
      | inr other ↦
          let miss : leads_to (node o).next mp ≡ false = ap (λ x. leads_to x mp) e ∙ ground arith in
          let rest =
            find_prev-some node size mp fuel k j inside steps other (inside o j e) (omega arith) in
          (rest.0, rw (miss, e) (rest.1), rest.2, rest.3)
    ]
