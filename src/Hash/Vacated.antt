-- ===== src/Hash/Vacated.antt =====
-- The chains after `newkey` of src/ltable.c has moved a colliding node.
use mathlib.Core.Path.{subst}
use luarc.Prelude.{
  ℕ, zero, suc, ◌<◌, ◌≤◌, ◌≡◌, ◌≢◌, refl, sym, ap, ◌∙◌, Bool, true, false, none, some, ◌==◌,
  if◌then◌else◌, inl, inr, arith,
}
use luarc.Object.{Value, nil, ttisnil}
use luarc.Table.{Entry}
use luarc.Hash.{move}
use luarc.Hash.Linked.{is_key, Steps, Reach, IsLinked, IsHashing}
use luarc.Hash.Kept.{Carried}
use luarc.Hash.Placed.{same_index, IsPlace}
use luarc.Hash.Moved.{
  moved, moved_same, moved_other, IsMove, n_apart, n-ends, n-alone, at_mp, at_n, at_other, key_kept,
  val_kept, came, kept, Steps-moved,
}

moved_inj : (mp n x y : ℕ) → x ≢ n → y ≢ n → moved mp n x ≡ moved mp n y → x ≡ y
moved_inj mp n x y a b h = ground arith

moved-ne_mp : (mp n x : ℕ) → n ≢ mp → moved mp n x ≢ mp
moved-ne_mp mp n x h e = ground arith

abbrev moved_rank : (ℕ → ℕ) → (mp n j : ℕ) → ℕ
moved_rank rank mp n j = if j == mp then 0 else if j == n then rank mp else rank j

moved_rank_le :
    (rank : ℕ → ℕ) (mp n j bound : ℕ) → ((i : ℕ) → rank i ≤ bound) → moved_rank rank mp n j ≤ bound
moved_rank_le rank mp n j bound h = ground (arith, h mp, h j)

moved_rank-moved :
    (rank : ℕ → ℕ) (mp n j : ℕ) → n ≢ mp → j ≢ n → moved_rank rank mp n (moved mp n j) ≡ rank j
moved_rank-moved rank mp n j apart other = elim (same_index j mp) [
  | inl e ↦
      let here : (n == mp) ≡ false = ground arith in
      let there : (n == n) ≡ true = ground arith in
      ap (λ x. moved_rank rank mp n (moved mp n x)) e
      ∙ ap (moved_rank rank mp n) (moved_same mp n)
      ∙ rw (here, there) (ap rank (sym e))
  | inr ne ↦
      let here : (j == mp) ≡ false = ground arith in
      let there : (j == n) ≡ false = ground arith in
      ap (moved_rank rank mp n) (moved_other mp n j ne) ∙ rw (here, there) refl
]

module _ (main : Value → ℕ) (same : Value → Value → Bool) (size : ℕ)
    (laws : IsHashing main same size) (node : ℕ → Entry) (bound prev mp n : ℕ)
    (ok : IsLinked main same size bound size node) (at : IsMove main same size node prev mp n) where
  abbrev node' : ℕ → Entry
  node' = move node prev mp n

  from_ne : (a b : ℕ) → (node a).next ≡ some b → a ≢ n
  from_ne a b h e =
      ground (arith, h, n-ends main same size node bound prev mp n ok at, ap (λ x. (node x).next) e)

  to_ne : (a b : ℕ) → (node a).next ≡ some b → b ≢ n
  to_ne a b h e = n-alone main same size node bound prev mp n ok at a (h ∙ ap some e)

  key_ne : (j : ℕ) → ttisnil (node j).key ≡ false → j ≢ n
  key_ne j h e = ground (arith, at.free, ap (λ x. ttisnil (node x).key) e)

  not_nil : (v : Value) → is_key v ≡ true → ttisnil v ≡ false
  not_nil v h = ground arith

  mp_blank : (node' mp) ≡ record { key = nil; val = nil; next = none }
  mp_blank = at_mp main same size node bound prev mp n ok at

  -- No other key has its main position at `mp`.
  main_apart : (j : ℕ) → is_key (node j).key ≡ true → main (node j).key ≢ mp
  main_apart j h e = elim (same_index j mp) [
    | inl here ↦ at.away (ap (λ x. main (node x).key) (sym here) ∙ e)
    | inr other ↦ at.away ((ok.home j mp h e (λ k. other (sym k))).1 at.live)
  ]

  stuck : (k j : ℕ) → Steps node k n j → n ≡ j
  stuck zero j e = e
  stuck (suc k) j (x, e, steps) = absurd (from_ne n x e refl)

  main_ne_free : (j : ℕ) → is_key (node j).key ≡ true → main (node j).key ≢ n
  main_ne_free j h e =
      let r = ok.reached j h in
      key_ne j (not_nil (node j).key h)
        (sym (stuck (r.0) j (subst (λ m. Steps node (r.0) m j) e r.1)))

  abbrev steps_back :
      (a b : ℕ)
      → (node' a).next ≡ some b
      → (a0 b0 : ℕ) × ((node a0).next ≡ some b0) × (a ≡ moved mp n a0) × (b ≡ moved mp n b0)
  steps_back = came main same size node bound prev mp n ok at

  abbrev key_back :
      (j : ℕ)
      → is_key (node' j).key ≡ true
      → (j0 : ℕ) × (j ≡ moved mp n j0)
        × ((node' j).key ≡ (node j0).key)
        × ((node' j).val ≡ (node j0).val)
  key_back j h = kept main same size node bound prev mp n ok at j (not_nil (node' j).key h)

  apart : n ≢ mp
  apart = n_apart main same size node bound prev mp n ok at

  abbrev rank' : ℕ → ℕ
  rank' = moved_rank ok.rank mp n

  move-rises : (a b : ℕ) → (node' a).next ≡ some b → rank' a < rank' b
  move-rises a b h =
      let c = steps_back a b h in
      let from : rank' a ≡ ok.rank (c.0) =
        ap rank' (c.3) ∙ moved_rank-moved ok.rank mp n (c.0) apart (from_ne (c.0) (c.1) (c.2)) in
      let to : rank' b ≡ ok.rank (c.1) =
        ap rank' (c.4) ∙ moved_rank-moved ok.rank mp n (c.1) apart (to_ne (c.0) (c.1) (c.2)) in
      omega (arith, from, to, ok.rises (c.0) (c.1) (c.2))

  move-inside : (a b : ℕ) → (node' a).next ≡ some b → b < size
  move-inside a b h =
      let c = steps_back a b h in
      let old : c.1 < size = ok.inside (c.0) (c.1) (c.2) in
      let there : b ≡ moved mp n (c.1) = c.4 in ground (arith, at.free_in_range)

  move-single : (a b m : ℕ) → (node' a).next ≡ some m → (node' b).next ≡ some m → a ≡ b
  move-single a b m h k =
      let c = steps_back a m h in
      let d = steps_back b m k in
      let ends_same : c.1 ≡ d.1 =
        moved_inj mp n (c.1) (d.1) (to_ne (c.0) (c.1) (c.2)) (to_ne (d.0) (d.1) (d.2))
          (sym (c.4) ∙ d.4) in
      c.3
      ∙ ap (moved mp n) (ok.single (c.0) (d.0) (d.1) (c.2 ∙ ap some ends_same) (d.2))
      ∙ sym (d.3)

  key_n : ttisnil (node' n).key ≡ false
  key_n =
      ap (λ (x : Entry). ttisnil x.key) (at_n main same size node bound prev mp n ok at)
      ∙ not_nil (node mp).key at.live

  move-ends : (j : ℕ) → j < size → ttisnil (node' j).key ≡ true → (node' j).next ≡ none
  move-ends j lt h = elim (same_index j mp) [
    | inl e ↦ ap (λ x. (node' x).next) e ∙ ap (λ (x : Entry). x.next) mp_blank
    | inr j_mp ↦
        let j_n : j ≢ n = λ e. ground (arith, h, key_n, ap (λ x. ttisnil (node' x).key) e) in
        let old : ttisnil (node j).key ≡ true =
          ap ttisnil (sym (key_kept main same size node bound prev mp n ok at j j_mp j_n)) ∙ h in
        let ending : (node j).next ≡ none = ok.ends j lt (λ e. omega arith) old in
        let j_prev : j ≢ prev = λ e. ground (arith, ending, at.to_mp, ap (λ x. (node x).next) e) in
        ap (λ (x : Entry). x.next)
          (at_other main same size node bound prev mp n ok at j j_mp j_n j_prev)
        ∙ ending
  ]

  move-alone : (j m : ℕ) → j ≢ size → ttisnil (node' j).key ≡ true → (node' m).next ≢ some j
  move-alone j m inner h e =
      let c = steps_back m j e in
      elim (same_index (c.1) mp) [
        | inl there ↦
            let j_n : j ≡ n = c.4 ∙ ap (moved mp n) there ∙ moved_same mp n in
            ground (arith, h, key_n, ap (λ x. ttisnil (node' x).key) j_n)
        | inr b_mp ↦
            let same_j : j ≡ c.1 = c.4 ∙ moved_other mp n (c.1) b_mp in
            let j_mp : j ≢ mp = λ k. b_mp (sym same_j ∙ k) in
            let j_n : j ≢ n = λ k. to_ne (c.0) (c.1) (c.2) (sym same_j ∙ k) in
            ok.alone j (c.0) inner
              (ap ttisnil (sym (key_kept main same size node bound prev mp n ok at j j_mp j_n)) ∙ h)
              (c.2 ∙ ap some (sym same_j))
      ]

  move-alive : (j : ℕ) → ttisnil (node' j).val ≡ false → is_key (node' j).key ≡ true
  move-alive j h = elim (same_index j mp) [
    | inl e ↦ absurd (
        ground
          (arith, h, ap (λ x. ttisnil (node' x).val) e, ap (λ (x : Entry). ttisnil x.val) mp_blank))
    | inr j_mp ↦ elim (same_index j n) [
      | inl e ↦
          ap (λ x. is_key (node' x).key) e
          ∙ ap (λ (x : Entry). is_key x.key) (at_n main same size node bound prev mp n ok at)
          ∙ at.live
      | inr j_n ↦
          ap is_key (key_kept main same size node bound prev mp n ok at j j_mp j_n)
          ∙ ok.alive j
              (ap ttisnil (sym (val_kept main same size node bound prev mp n ok at j j_mp j_n)) ∙ h)
    ]
  ]

  move-reached : (j : ℕ) → is_key (node' j).key ≡ true → Reach node' (main (node' j).key) j
  move-reached j h =
      let c = key_back j h in
      let good : is_key (node (c.0)).key ≡ true = ap is_key (sym (c.2)) ∙ h in
      let r = ok.reached (c.0) good in
      let start : moved mp n (main (node (c.0)).key) ≡ main (node' j).key =
        moved_other mp n (main (node (c.0)).key) (main_apart (c.0) good) ∙ ap main (sym (c.2)) in
      (
        r.0,
        subst (λ x. Steps node' (r.0) (main (node' j).key) x) (sym (c.1))
            (subst (λ x. Steps node' (r.0) x (moved mp n (c.0))) start
              (Steps-moved main same size node bound prev mp n ok at (r.0) (main (node (c.0)).key)
                (c.0) r.1)),
      )

  move-home :
      (j m : ℕ)
      → is_key (node' j).key ≡ true
      → main (node' j).key ≡ m
      → m ≢ j
      → (ttisnil (node' m).key ≡ false) × (is_key (node' m).key ≡ true → main (node' m).key ≡ m)
  move-home j m h e ne =
      let c = key_back j h in
      let good : is_key (node (c.0)).key ≡ true = ap is_key (sym (c.2)) ∙ h in
      let from : main (node (c.0)).key ≡ m = ap main (sym (c.2)) ∙ e in
      let m_mp : m ≢ mp = λ k. main_apart (c.0) good (from ∙ k) in
      let m_n : m ≢ n = λ k. main_ne_free (c.0) good (from ∙ k) in
      let m_old : m ≢ c.0 =
        λ k. ne (sym (moved_other mp n m m_mp) ∙ ap (moved mp n) k ∙ sym (c.1)) in
      subst (λ v. (ttisnil v ≡ false) × (is_key v ≡ true → main v ≡ m))
        (sym (key_kept main same size node bound prev mp n ok at m m_mp m_n))
        (ok.home (c.0) m good from m_old)

  move_unique :
      (a b : ℕ)
      → is_key (node' a).key ≡ true
      → is_key (node' b).key ≡ true
      → same (node' a).key (node' b).key ≡ true
      → a ≡ b
  move_unique a b h k e =
      let c = key_back a h in
      let d = key_back b k in
      c.1
      ∙ ap (moved mp n) (
          ok.unique (c.0) (d.0) (ap is_key (sym (c.2)) ∙ h) (ap is_key (sym (d.2)) ∙ k) (
            ap (λ v. same v (node (d.0)).key) (sym (c.2))
            ∙ ap (same (node' a).key) (sym (d.2))
            ∙ e))
      ∙ sym (d.1)

  pub move-IsLinked : IsLinked main same size bound size node'
  move-IsLinked = record {
    rank = rank';
    rises = move-rises;
    inside = move-inside;
    bounded = λ j. moved_rank_le ok.rank mp n j bound ok.bounded;
    single = move-single;
    ends = λ j lt inner h. move-ends j lt h;
    alone = move-alone;
    alive = move-alive;
    reached = move-reached;
    home = move-home;
    unique = move_unique;
  }

  -- The main position is free for a new key.
  pub move-IsPlace :
      (key : Value)
      → main key ≡ mp
      → mp < size
      → is_key key ≡ true
      → ((j : ℕ) → is_key (node j).key ≡ true → same (node j).key key ≡ false)
      → IsPlace main same size laws node' size mp key
  move-IsPlace key here lt good fresh = record {
    is_hole = inl refl;
    in_range = lt;
    good = good;
    fresh = λ j h.
        let c = key_back j h in
        ap (λ v. same v key) (c.2) ∙ fresh (c.0) (ap is_key (sym (c.2)) ∙ h);
    in_chain = (0, here);
    led = λ h. absurd (h here);
    vacant = inl here;
  }

  -- A node with no key has had none, but for the vacated one.
  pub move_free : (j : ℕ) → j ≢ mp → ttisnil (node' j).key ≡ true → ttisnil (node j).key ≡ true
  move_free j j_mp h =
      let j_n : j ≢ n = λ e. ground (arith, h, key_n, ap (λ x. ttisnil (node' x).key) e) in
      ap ttisnil (sym (key_kept main same size node bound prev mp n ok at j j_mp j_n)) ∙ h

  pub move-Carried : Carried node node' × Carried node' node
  move-Carried = (
    λ j live. elim (same_index j mp) [
      | inl e ↦ (
        n,
        ap (λ (x : Entry). x.key) (at_n main same size node bound prev mp n ok at)
            ∙ ap (λ x. (node x).key) (sym e),
        ap (λ (x : Entry). x.val) (at_n main same size node bound prev mp n ok at)
            ∙ ap (λ x. (node x).val) (sym e),
      )
      | inr j_mp ↦
          let j_n : j ≢ n = key_ne j (not_nil (node j).key (ok.alive j live)) in
          (
            j,
            key_kept main same size node bound prev mp n ok at j j_mp j_n,
            val_kept main same size node bound prev mp n ok at j j_mp j_n,
          )
    ],
    λ j live. let c = key_back j (move-alive j live) in (c.0, sym (c.2), sym (c.3)),
  )
