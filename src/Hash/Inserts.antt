-- ===== src/Hash/Inserts.antt =====
-- `newkey` of src/ltable.c adds a key to a hash part and keeps the others.
use mathlib.Core.Path.{subst}
use luarc.Prelude.{
  ℕ, suc, ◌+◌, ◌<◌, ◌≤◌, ◌≡◌, ◌≢◌, ◌⊎◌, refl, sym, ap, ◌∙◌, Bool, true, false, not, ◌||◌, none,
  some, ◌==◌, Bool-cases, Option-cases, inl, inr, arith,
}
use luarc.Object.{Value, nil, ttisnil}
use luarc.Table.{Entry}
use luarc.Hash.{
  HashPart, found, get, value_at, getfreepos, find_prev, place, move, chain_after, NewKey, placed,
  needs_rehash, finish, move_from, collide, newkey,
}
use luarc.Hash.Linked.{is_key, used, used_le, IsLinked, IsHashing, IsHashed}
use luarc.Hash.Lookup.{get-Finds, rank_le}
use luarc.Hash.Placed.{
  same_index, IsPlace, place-IsLinked, val-place, key-place_same, key-place_other,
}
use luarc.Hash.Moved.{IsMove, at_mp}
use luarc.Hash.Vacated.{move-IsLinked, move-IsPlace, move-Carried, move_free}
use luarc.Hash.Chained.{IsChain, chain-IsLinked, chain-IsPlace, key_same, val_same}
use luarc.Hash.Kept.{
  is_nil, Carried, Carried-join, place-Carried, same_values, used_mono, used_more, getfreepos-some,
  getfreepos-none, find_prev-some,
}

-- A hash part, where `lastfree` is in its range, and no position of the dummy node is free.
pub record IsTable (main : Value → ℕ) (same : Value → Value → Bool) (t : HashPart) : Type 0 where
  pub hashed : IsHashed main same t
  pub lastfree_le : t.lastfree ≤ t.sizenode
  pub nothing_free : t.dummy ≡ true → t.lastfree ≡ 0

-- What becomes of `t` where a key comes to be at node `mp`.
pub record IsInserted (main : Value → ℕ) (same : Value → Value → Bool) (t : HashPart) (key : Value)
    (mp : ℕ) (t' : HashPart) : Type 0 where
  pub same_size : t'.sizenode ≡ t.sizenode
  pub kept_whole : IsTable main same t'
  pub not_dummy : t'.dummy ≡ false
  pub at_node : get main same t' key ≡ found mp
  pub no_value : (t'.node mp).val ≡ nil
  pub values :
      (k : Value)
      → is_key k ≡ true
      → value_at t'.node (get main same t' k) ≡ value_at t.node (get main same t k)

-- What `newkey` gives: no node below `lastfree` is free, or the key comes to be at a node.
abbrev pub Outcome : (Value → ℕ) → (Value → Value → Bool) → HashPart → Value → NewKey → Type 0
Outcome main same t key r =
    ((r ≡ needs_rehash) × ((j : ℕ) → j < t.lastfree → ttisnil (t.node j).key ≡ false))
    ⊎ ((mp : ℕ) × (dropped : Value) × (t' : HashPart) × (r ≡ placed mp dropped t')
        × IsInserted main same t key mp t')

module _ (main : Value → ℕ) (same : Value → Value → Bool) (t : HashPart) (key : Value)
    (laws : IsHashing main same t.sizenode) (ok : IsTable main same t) (good : is_key key ≡ true)
    (itself : same key key ≡ true)
    (fresh : (j : ℕ) → is_key (t.node j).key ≡ true → same (t.node j).key key ≡ false) where
  abbrev result : (ℕ → Entry) → (lastfree i : ℕ) → HashPart
  result node lastfree i = record {
    dummy = t.dummy;
    sizenode = t.sizenode;
    node = place node i key;
    lastfree = lastfree;
  }

  -- The end of `newkey`, whatever it did before.
  finish-IsInserted :
      (node : ℕ → Entry) (bound hole lastfree i : ℕ)
      → IsLinked main same t.sizenode bound hole node
      → IsPlace main same t.sizenode laws node hole i key
      → bound ≤ used (place node i key) t.sizenode
      → lastfree ≤ t.sizenode
      → t.dummy ≡ false
      → ttisnil (node i).val ≡ true
      → Carried t.node node
      → Carried node t.node
      → IsInserted main same t key i (result node lastfree i)
  finish-IsInserted node bound hole lastfree i linked at more low real empty there back =
      let t' = result node lastfree i in
      let whole : IsHashed main same t' =
        place-IsLinked main same t.sizenode laws node bound (used (place node i key) t.sizenode)
          hole i key linked at more in
      let own = place-Carried node i key empty in
      record {
        same_size = refl;
        kept_whole = record {
          hashed = whole;
          lastfree_le = low;
          nothing_free = λ h. absurd (ground arith);
        };
        not_dummy = real;
        at_node =
            (get-Finds main same t' laws key i whole good).1
              (ap (λ v. same v key) (key-place_same node i key) ∙ itself);
        no_value = val-place node i key i ∙ is_nil (node i).val empty;
        values = λ k h.
            same_values main same t t' laws laws ok.hashed whole k h
              (Carried-join t.node node (place node i key) there own.0)
              (Carried-join (place node i key) node t.node own.1 back);
      }

  abbrev Reached : NewKey → Type 0
  Reached = Outcome main same t key

  abbrev main_place : ℕ
  main_place = main key

  key_not_nil : ttisnil key ≡ false
  key_not_nil = ground arith

  place_free :
      (node : ℕ → Entry) (i j : ℕ)
      → (j ≢ i → ttisnil (node j).key ≡ true → ttisnil (t.node j).key ≡ true)
      → ttisnil (place node i key j).key ≡ true
      → ttisnil (t.node j).key ≡ true
  place_free node i j old h = elim (same_index j i) [
    | inl e ↦ absurd (
        ground (
          arith,
          h,
          key_not_nil,
          ap (λ x. ttisnil (place node i key x).key) e,
          ap ttisnil (key-place_same node i key),
        ))
    | inr ne ↦ old ne (ap ttisnil (sym (key-place_other node i key j ne)) ∙ h)
  ]

  at_main :
      ttisnil (t.node main_place).val ≡ true
      → t.dummy ≡ false
      → Reached (finish t t.lastfree t.node main_place key)
  at_main empty real = inr (
    main_place,
    _,
    result t.node t.lastfree main_place,
    refl,
    finish-IsInserted t.node (used t.node t.sizenode) t.sizenode t.lastfree main_place ok.hashed
        (record {
          is_hole = inl refl;
          in_range = laws.below key;
          good = good;
          fresh = fresh;
          in_chain = (0, refl);
          led = λ h. absurd (h refl);
          vacant = inl refl;
        })
        (used_mono t.node (place t.node main_place key) t.sizenode
          (λ j h. place_free t.node main_place j (λ ne e. e) h))
        ok.lastfree_le real empty (λ j live. (j, refl, refl)) (λ j live. (j, refl, refl)),
  )

  module _ (n : ℕ) (free : getfreepos t.node t.lastfree ≡ some n)
      (live : ttisnil (t.node main_place).val ≡ false) where
    free_low : n < t.lastfree
    free_low = (getfreepos-some t.node t.lastfree n free).0

    free_nil : ttisnil (t.node n).key ≡ true
    free_nil = (getfreepos-some t.node t.lastfree n free).1

    free_in : n < t.sizenode
    free_in = omega (arith, free_low, ok.lastfree_le)

    real : t.dummy ≡ false
    real = elim (Bool-cases t.dummy) [
      | inl e ↦ absurd (omega (arith, ok.nothing_free e, free_low))
      | inr e ↦ e
    ]

    low : n ≤ t.sizenode
    low = omega (arith, free_in)

    occupied : is_key (t.node main_place).key ≡ true
    occupied = ok.hashed.alive main_place live

    no_val : ttisnil (t.node n).val ≡ true
    no_val = elim (Bool-cases (ttisnil (t.node n).val)) [
      | inl e ↦ e
      | inr e ↦ absurd (ground (arith, free_nil, ok.hashed.alive n e))
    ]

    in_place :
        main (t.node main_place).key ≡ main_place
        → Reached (finish t n (chain_after t.node main_place n) n key)
    in_place settled =
        let at : IsChain main same t.sizenode laws t.node main_place n = record {
          in_range = free_in;
          free = free_nil;
          live = occupied;
          settled = settled;
        } in
        let node = chain_after t.node main_place n in
        let keys =
          key_same main same t.sizenode laws t.node (used t.node t.sizenode) main_place n ok.hashed
            at in
        let vals =
          val_same main same t.sizenode laws t.node (used t.node t.sizenode) main_place n ok.hashed
            at in
        inr (
          n,
          _,
          result node n n,
          refl,
          finish-IsInserted node (used t.node t.sizenode + 1) n n n
              (chain-IsLinked main same t.sizenode laws t.node (used t.node t.sizenode) main_place n
                ok.hashed at)
              (chain-IsPlace main same t.sizenode laws t.node (used t.node t.sizenode) main_place n
                ok.hashed at key refl good fresh)
              (used_more t.node (place node n key) n t.sizenode
                (λ j h. place_free node n j (λ ne e. ap ttisnil (sym (keys j)) ∙ e) h) free_in
                free_nil (ap ttisnil (key-place_same node n key) ∙ key_not_nil))
              low real (ap ttisnil (vals n) ∙ no_val) (λ j l. (j, keys j, vals j))
              (λ j l. (j, sym (keys j), sym (vals j))),
        )

    moved_lem :
        (prev : ℕ)
        → IsMove main same t.sizenode t.node prev main_place n
        → Reached (finish t n (move t.node prev main_place n) main_place key)
    moved_lem prev at =
        let node = move t.node prev main_place n in
        let carried =
          move-Carried main same t.sizenode laws t.node (used t.node t.sizenode) prev main_place n
            ok.hashed at in
        inr (
          main_place,
          _,
          result node n main_place,
          refl,
          finish-IsInserted node (used t.node t.sizenode) t.sizenode n main_place
              (move-IsLinked main same t.sizenode laws t.node (used t.node t.sizenode) prev
                main_place n ok.hashed at)
              (move-IsPlace main same t.sizenode laws t.node (used t.node t.sizenode) prev
                main_place n ok.hashed at key refl (laws.below key) good fresh)
              (used_mono t.node (place node main_place key) t.sizenode (λ j h.
                place_free node main_place j
                  (move_free main same t.sizenode laws t.node (used t.node t.sizenode) prev
                    main_place n ok.hashed at j)
                  h))
              low real
              (ap (λ (x : Entry). ttisnil x.val)
                (at_mp main same t.sizenode t.node (used t.node t.sizenode) prev main_place n
                  ok.hashed at))
              carried.0 carried.1,
        )

    out_of_place :
        main (t.node main_place).key ≢ main_place
        → Reached (
            move_from t key main_place n
              (find_prev t.node main_place (suc t.sizenode) (main (t.node main_place).key)))
    out_of_place away =
        let r = ok.hashed.reached main_place occupied in
        let steps_le : r.0 ≤ suc t.sizenode = omega (
          arith,
          rank_le t.node ok.hashed.rank ok.hashed.rises (r.0) (main (t.node main_place).key)
              main_place r.1,
          ok.hashed.bounded main_place,
          used_le t.node t.sizenode,
        ) in
        let w =
          find_prev-some t.node t.sizenode main_place (suc t.sizenode) (r.0)
            (main (t.node main_place).key) ok.hashed.inside r.1 away
            (laws.below (t.node main_place).key) steps_le in
        let at : IsMove main same t.sizenode t.node (w.0) main_place n = record {
          in_range = w.3;
          free_in_range = free_in;
          to_mp = w.2;
          free = free_nil;
          live = occupied;
          away = away;
        } in
        subst (λ o. Reached (move_from t key main_place n o)) (sym (w.1)) (moved_lem (w.0) at)

    collide-Outcome : Reached (collide main t key main_place (some n))
    collide-Outcome = elim (same_index (main (t.node main_place).key) main_place) [
      | inl e ↦
          let hit : (main (t.node main_place).key == main_place) ≡ true = ground arith in
          rw hit (in_place e)
      | inr ne ↦
          let miss : (main (t.node main_place).key == main_place) ≡ false = ground arith in
          rw miss (out_of_place ne)
    ]

  newkey_free :
      ttisnil (t.node main_place).val ≡ true
      → t.dummy ≡ false
      → newkey main t key ≡ finish t t.lastfree t.node main_place key
  unfolding newkey
  newkey_free h k = rw (h, k) refl

  newkey_taken :
      (not (ttisnil (t.node main_place).val) || t.dummy) ≡ true
      → newkey main t key ≡ collide main t key main_place (getfreepos t.node t.lastfree)
  unfolding newkey
  newkey_taken h = rw h refl

  none_free :
      getfreepos t.node t.lastfree ≡ none
      → Reached (collide main t key main_place (getfreepos t.node t.lastfree))
  none_free h =
      inl (ap (collide main t key main_place) h, λ j lt. getfreepos-none t.node t.lastfree j h lt)

  pub newkey-Outcome : Outcome main same t key (newkey main t key)
  newkey-Outcome = elim (Bool-cases (ttisnil (t.node main_place).val)) [
    | inl empty ↦ elim (Bool-cases t.dummy) [
      | inr real ↦ subst Reached (sym (newkey_free empty real)) (at_main empty real)
      | inl dummy ↦
          subst Reached (sym (newkey_taken (ground arith)))
            (elim (Option-cases (getfreepos t.node t.lastfree)) [
              | inl e ↦ none_free e
              | inr (n, e) ↦
                  absurd (
                    omega (arith, (getfreepos-some t.node t.lastfree n e).0, ok.nothing_free dummy))
            ])
    ]
    | inr live ↦
        subst Reached (sym (newkey_taken (rw live refl)))
          (elim (Option-cases (getfreepos t.node t.lastfree)) [
            | inl e ↦ none_free e
            | inr (n, e) ↦
                subst (λ o. Reached (collide main t key main_place o)) (sym e)
                  (collide-Outcome n e live)
          ])
  ]
