-- ===== src/Hash/Moved.antt =====
-- How `newkey` of src/ltable.c moves a colliding node to a free position.
use mathlib.Core.Path.{subst}
use luarc.Prelude.{
  ℕ, zero, suc, ◌<◌, ◌≡◌, ◌≢◌, refl, sym, ap, ◌∙◌, Bool, true, false, none, some, ◌==◌,
  if◌then◌else◌, inl, inr, arith,
}
use luarc.Object.{Value, nil, ttisnil}
use luarc.Table.{Entry}
use luarc.Hash.{put, move}
use luarc.Hash.Linked.{is_key, Steps, IsLinked}
use luarc.Hash.Placed.{same_index}

-- Where the node of index `j` is after the move.
abbrev pub moved : (mp n j : ℕ) → ℕ
moved mp n j = if j == mp then n else j

pub moved_same : (mp n : ℕ) → moved mp n mp ≡ n
moved_same mp n = let e : (mp == mp) ≡ true = ground arith in rw e refl

pub moved_other : (mp n j : ℕ) → j ≢ mp → moved mp n j ≡ j
moved_other mp n j h = let e : (j == mp) ≡ false = ground arith in rw e refl

pub some_inj : {a b : ℕ} → some a ≡ some b → a ≡ b
some_inj h = ground arith

pub put_same : (node : ℕ → Entry) (i : ℕ) (e : Entry) → put node i e i ≡ e
put_same node i e = let h : (i == i) ≡ true = ground arith in rw h refl

pub put_other : (node : ℕ → Entry) (i : ℕ) (e : Entry) (j : ℕ) → j ≢ i → put node i e j ≡ node j
put_other node i e j h = let k : (j == i) ≡ false = ground arith in rw k refl

module _ (main : Value → ℕ) (same : Value → Value → Bool) (size : ℕ) where
  -- A node at `mp` away from its main position, its predecessor, and a free position.
  pub record IsMove (node : ℕ → Entry) (prev mp n : ℕ) : Type 0 where
    pub in_range : prev < size
    pub free_in_range : n < size
    pub to_mp : (node prev).next ≡ some mp
    pub free : ttisnil (node n).key ≡ true
    pub live : is_key (node mp).key ≡ true
    pub away : main (node mp).key ≢ mp

  module _ (node : ℕ → Entry) (bound prev mp n : ℕ) (ok : IsLinked main same size bound size node)
      (at : IsMove node prev mp n) where
    abbrev pub node' : ℕ → Entry
    node' = move node prev mp n

    abbrev pub relinked : Entry
    relinked = record { key = (node prev).key; val = (node prev).val; next = some n }

    abbrev before : ℕ → Entry
    before = put node prev relinked

    abbrev filled : ℕ → Entry
    filled = put before n (node mp)

    abbrev pub blank : Entry
    blank = record { key = nil; val = nil; next = none }

    pub n_apart : n ≢ mp
    n_apart e = ground (arith, at.free, at.live, ap (λ x. ttisnil (node x).key) e)

    pub n-ends : (node n).next ≡ none
    n-ends = ok.ends n at.free_in_range (λ e. omega (arith, at.free_in_range)) at.free

    pub n-alone : (j : ℕ) → (node j).next ≢ some n
    n-alone j = ok.alone n j (λ e. omega (arith, at.free_in_range)) at.free

    pub prev_apart : prev ≢ mp
    prev_apart e = omega (arith, ok.rises prev mp at.to_mp, ap ok.rank e)

    prev-n : prev ≢ n
    prev-n e = ground (arith, n-ends, at.to_mp, ap (λ x. (node x).next) e)

    pub at_mp : node' mp ≡ blank
    at_mp = put_same filled mp blank

    pub at_n : node' n ≡ node mp
    at_n = put_other filled mp blank n n_apart ∙ put_same before n (node mp)

    pub at_prev : node' prev ≡ relinked
    at_prev =
        put_other filled mp blank prev prev_apart
        ∙ put_other before n (node mp) prev prev-n
        ∙ put_same node prev relinked

    pub at_other : (j : ℕ) → j ≢ mp → j ≢ n → j ≢ prev → node' j ≡ node j
    at_other j a b c =
        put_other filled mp blank j a
        ∙ put_other before n (node mp) j b
        ∙ put_other node prev relinked j c

    next_at : (j : ℕ) (e : Entry) → node' j ≡ e → (node' j).next ≡ e.next
    next_at j e h = ap (λ (x : Entry). x.next) h

    not_mp : (a b : ℕ) → a ≢ prev → (node a).next ≡ some b → b ≢ mp
    not_mp a b apart h e = apart (ok.single a prev mp (h ∙ ap some e) at.to_mp)

    after_mp : (b : ℕ) → (node mp).next ≡ some b → b ≢ mp
    after_mp b h e = omega (arith, ok.rises mp b h, ap ok.rank e)

    pub key_kept : (j : ℕ) → j ≢ mp → j ≢ n → (node' j).key ≡ (node j).key
    key_kept j a b = elim (same_index j prev) [
      | inl e ↦
          subst (λ x. (node' x).key ≡ (node x).key) (sym e) (ap (λ (x : Entry). x.key) at_prev)
      | inr c ↦ ap (λ (x : Entry). x.key) (at_other j a b c)
    ]

    pub val_kept : (j : ℕ) → j ≢ mp → j ≢ n → (node' j).val ≡ (node j).val
    val_kept j a b = elim (same_index j prev) [
      | inl e ↦
          subst (λ x. (node' x).val ≡ (node x).val) (sym e) (ap (λ (x : Entry). x.val) at_prev)
      | inr c ↦ ap (λ (x : Entry). x.val) (at_other j a b c)
    ]

    -- Each step of the chains is one from before the move.
    pub came :
        (a b : ℕ)
        → (node' a).next ≡ some b
        → (a0 b0 : ℕ) × ((node a0).next ≡ some b0) × (a ≡ moved mp n a0) × (b ≡ moved mp n b0)
    came a b h = elim (same_index a mp) [
      | inl e ↦ absurd (ground (arith, h, next_at mp blank at_mp, ap (λ x. (node' x).next) e))
      | inr a_mp ↦ elim (same_index a n) [
        | inl e ↦
            let from : (node mp).next ≡ some b =
              sym (next_at n (node mp) at_n) ∙ ap (λ x. (node' x).next) (sym e) ∙ h in
            (mp, b, from, e ∙ sym (moved_same mp n), sym (moved_other mp n b (after_mp b from)))
        | inr a_n ↦ elim (same_index a prev) [
          | inl e ↦
              let to_n : some n ≡ some b =
                sym (next_at prev relinked at_prev) ∙ ap (λ x. (node' x).next) (sym e) ∙ h in
              (
                prev,
                mp,
                at.to_mp,
                e ∙ sym (moved_other mp n prev prev_apart),
                some_inj (sym to_n) ∙ sym (moved_same mp n),
              )
          | inr a_prev ↦
              let from : (node a).next ≡ some b =
                sym (next_at a (node a) (at_other a a_mp a_n a_prev)) ∙ h in
              (
                a,
                b,
                from,
                sym (moved_other mp n a a_mp),
                sym (moved_other mp n b (not_mp a b a_prev from)),
              )
        ]
      ]
    ]

    -- Each key is one from before the move.
    pub kept :
        (j : ℕ)
        → ttisnil (node' j).key ≡ false
        → (j0 : ℕ) × (j ≡ moved mp n j0)
          × ((node' j).key ≡ (node j0).key)
          × ((node' j).val ≡ (node j0).val)
    kept j h = elim (same_index j mp) [
      | inl e ↦ absurd (
          ground
            (arith, h, ap (λ x. ttisnil (node' x).key) e, ap (λ (x : Entry). ttisnil x.key) at_mp))
      | inr j_mp ↦ elim (same_index j n) [
        | inl e ↦ (
          mp,
          e ∙ sym (moved_same mp n),
          ap (λ x. (node' x).key) e ∙ ap (λ (x : Entry). x.key) at_n,
          ap (λ x. (node' x).val) e ∙ ap (λ (x : Entry). x.val) at_n,
        )
        | inr j_n ↦ (j, sym (moved_other mp n j j_mp), key_kept j j_mp j_n, val_kept j j_mp j_n)
      ]
    ]

    step_moved :
        (a b : ℕ) → (node a).next ≡ some b → (node' (moved mp n a)).next ≡ some (moved mp n b)
    step_moved a b h = elim (same_index a mp) [
      | inl e ↦
          let from : (node mp).next ≡ some b = ap (λ x. (node x).next) (sym e) ∙ h in
          ap (λ x. (node' (moved mp n x)).next) e
          ∙ ap (λ x. (node' x).next) (moved_same mp n)
          ∙ next_at n (node mp) at_n
          ∙ from
          ∙ ap some (sym (moved_other mp n b (after_mp b from)))
      | inr a_mp ↦ ap (λ x. (node' x).next) (moved_other mp n a a_mp) ∙ elim (same_index a prev) [
        | inl e ↦
            let b_mp : b ≡ mp = some_inj (sym h ∙ ap (λ x. (node x).next) e ∙ at.to_mp) in
            ap (λ x. (node' x).next) e
            ∙ next_at prev relinked at_prev
            ∙ ap some (sym (moved_same mp n) ∙ ap (moved mp n) (sym b_mp))
        | inr a_prev ↦
            next_at a (node a)
              (at_other a a_mp (λ e. ground (arith, h, n-ends, ap (λ x. (node x).next) e)) a_prev)
            ∙ h
            ∙ ap some (sym (moved_other mp n b (not_mp a b a_prev h)))
      ]
    ]

    pub Steps-moved : (k m i : ℕ) → Steps node k m i → Steps node' k (moved mp n m) (moved mp n i)
    Steps-moved zero m i e = ap (moved mp n) e
    Steps-moved (suc k) m i (j, e, steps) =
        (moved mp n j, step_moved m j e, Steps-moved k j i steps)
