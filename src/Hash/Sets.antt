-- ===== src/Hash/Sets.antt =====
-- `luaH_set` of src/ltable.c and a store to what it gives.
use mathlib.Core.Path.{subst}
use luarc.Prelude.{
  ℕ, zero, suc, ◌<◌, ◌≡◌, ◌⊎◌, ◌≢◌, refl, sym, ap, ◌∙◌, Bool, true, false, Option, none, some, ◌==◌,
  if◌then◌else◌, Bool-cases, Option-cases, inl, inr, arith, ==_iff,
}
use luarc.Object.{Ptr, Value, nil, boolean, lightuserdata, number, object, deadkey, ttisnil}
use luarc.Hash.{
  HashPart, found, missing, find_key, get, value_at, NewKey, newkey, is_nan, inserted, store,
  stored, rawset, mainposition, raw_equal,
}
use luarc.Hash.Linked.{is_key, Reach, IsHashing}
use luarc.Hash.Lookup.{get-Finds, get-cases, get-ends, same_only, Walk-cases}
use luarc.Hash.Placed.{same_index, Reach-along}
use luarc.Hash.Kept.{used_mono}
use luarc.Hash.Inserts.{IsTable, Outcome, newkey-Outcome}
use luarc.Hash.Keys.{IsNumEq, raw_equal-IsHashing}

module _ (t : HashPart) (i : ℕ) (v : Value) where
  key-store : (j : ℕ) → ((store t i v).node j).key ≡ (t.node j).key
  key-store j = elim (Bool-cases (j == i)) [
    | inl here ↦ rw here (ap (λ x. (t.node x).key) (sym ((==_iff j i).0 here)))
    | inr other ↦ rw other refl
  ]

  next-store : (j : ℕ) → ((store t i v).node j).next ≡ (t.node j).next
  next-store j = elim (Bool-cases (j == i)) [
    | inl here ↦ rw here (ap (λ x. (t.node x).next) (sym ((==_iff j i).0 here)))
    | inr other ↦ rw other refl
  ]

  val-store_same : ((store t i v).node i).val ≡ v
  val-store_same = let here : (i == i) ≡ true = ground arith in rw here refl

  val-store_other : (j : ℕ) → j ≢ i → ((store t i v).node j).val ≡ (t.node j).val
  val-store_other j ne = let other : (j == i) ≡ false = ground arith in rw other refl

  find_key-store :
      (test : Value → Bool) (fuel n : ℕ)
      → find_key test (store t i v).node fuel n ≡ find_key test t.node fuel n
  unfolding find_key
  find_key-store test zero n = refl
  find_key-store test (suc fuel) n = elim (Option-cases (t.node n).next) [
    | inl e ↦ rw (key-store n, next-store n, e) refl
    | inr (m, e) ↦ rw (key-store n, next-store n, e, find_key-store test fuel m) refl
  ]

  get-store :
      (main : Value → ℕ) (same : Value → Value → Bool) (k : Value)
      → get main same (store t i v) k ≡ get main same t k
  unfolding get
  get-store main same k =
      ap (λ o. if ttisnil k then missing else o)
        (find_key-store (λ x. same x k) (suc t.sizenode) (main k))

  store-alive :
      ((j : ℕ) → ttisnil (t.node j).val ≡ false → is_key (t.node j).key ≡ true)
      → is_key (t.node i).key ≡ true
      → (j : ℕ) → ttisnil ((store t i v).node j).val ≡ false
      → is_key ((store t i v).node j).key ≡ true
  store-alive alive good j h = ap is_key (key-store j) ∙ elim (same_index j i) [
    | inl e ↦ ap (λ x. is_key (t.node x).key) e ∙ good
    | inr ne ↦ alive j (ap ttisnil (sym (val-store_other j ne)) ∙ h)
  ]

module _ (main : Value → ℕ) (same : Value → Value → Bool) (t : HashPart) (i : ℕ) (v : Value) where
  abbrev t' : HashPart
  t' = store t i v

  store-IsTable : IsTable main same t → is_key (t.node i).key ≡ true → IsTable main same t'
  store-IsTable ok good =
      let h = ok.hashed in
      let keys = key-store t i v in
      let nexts = next-store t i v in
      record {
        hashed = record {
          rank = h.rank;
          rises = λ a b e. h.rises a b (sym (nexts a) ∙ e);
          inside = λ a b e. h.inside a b (sym (nexts a) ∙ e);
          bounded = λ a. omega (
            arith,
            h.bounded a,
            used_mono t.node t'.node t.sizenode (λ j e. ap ttisnil (sym (keys j)) ∙ e),
          );
          single = λ a b m e f. h.single a b m (sym (nexts a) ∙ e) (sym (nexts b) ∙ f);
          ends = λ a lt apart e. nexts a ∙ h.ends a lt apart (ap ttisnil (sym (keys a)) ∙ e);
          alone = λ a b apart e f.
              h.alone a b apart (ap ttisnil (sym (keys a)) ∙ e) (sym (nexts b) ∙ f);
          alive = store-alive t i v h.alive good;
          reached = λ a e.
              subst (λ w. Reach t'.node (main w) a) (sym (keys a))
                (Reach-along t.node t'.node nexts (main (t.node a).key) a
                  (h.reached a (ap is_key (sym (keys a)) ∙ e)));
          home = λ a m g e apart.
              subst (λ w. (ttisnil w ≡ false) × (is_key w ≡ true → main w ≡ m)) (sym (keys m))
                (h.home a m (ap is_key (sym (keys a)) ∙ g) (ap main (sym (keys a)) ∙ e) apart);
          unique = λ a b g k e.
              h.unique a b (ap is_key (sym (keys a)) ∙ g) (ap is_key (sym (keys b)) ∙ k) (
                ap (λ w. same w (t.node b).key) (sym (keys a))
                ∙ ap (same (t'.node a).key) (sym (keys b))
                ∙ e);
        };
        lastfree_le = ok.lastfree_le;
        nothing_free = ok.nothing_free;
      }

  other_value :
      (k : Value)
      → get main same t k ≢ found i
      → value_at t'.node (get main same t' k) ≡ value_at t.node (get main same t k)
  other_value k ne =
      ap (value_at t'.node) (get-store t i v main same k) ∙ elim (Walk-cases (get main same t k)) [
        | inl e ↦ ap (value_at t'.node) e ∙ sym (ap (value_at t.node) e)
        | inr (inr e) ↦ ap (value_at t'.node) e ∙ sym (ap (value_at t.node) e)
        | inr (inl (j, e)) ↦
            ap (value_at t'.node) e
            ∙ val-store_other t i v j (λ h. ne (e ∙ ap found h))
            ∙ sym (ap (value_at t.node) e)
      ]

-- `t'` is `t` with the value `v` for the key, by what `luaH_get` gives for every key.
pub record IsStored (main : Value → ℕ) (same : Value → Value → Bool) (t : HashPart) (key v : Value)
    (t' : HashPart) : Type 0 where
  pub well_formed : IsTable main same t'
  pub own : value_at t'.node (get main same t' key) ≡ v
  pub others :
      (k : Value)
      → is_key k ≡ true
      → same key k ≡ false
      → value_at t'.node (get main same t' k) ≡ value_at t.node (get main same t k)

module _ (main : Value → ℕ) (same : Value → Value → Bool) (t : HashPart) (key v : Value)
    (laws : IsHashing main same t.sizenode) (ok : IsTable main same t)
    (good : is_key key ≡ true) where
  -- A store to a node that `luaH_get` finds.
  store-IsStored :
      (i : ℕ) → get main same t key ≡ found i → IsStored main same t key v (store t i v)
  store-IsStored i e =
      let hit : same (t.node i).key key ≡ true =
        (get-Finds main same t laws key i ok.hashed good).0 e in
      record {
        well_formed = store-IsTable main same t i v ok (laws.kind (t.node i).key key hit ∙ good);
        own =
            ap (value_at (store t i v).node) (get-store t i v main same key ∙ e)
            ∙ val-store_same t i v;
        others = λ k h miss. other_value main same t i v k (λ f.
            let hit' : same (t.node i).key k ≡ true =
              (get-Finds main same t laws k i ok.hashed h).0 f in
            ground (
              arith,
              miss,
              laws.join key (t.node i).key k (laws.flip (t.node i).key key hit) hit',
            ));
      }

  absent :
      get main same t key ≡ missing
      → (j : ℕ) → is_key (t.node j).key ≡ true
      → same (t.node j).key key ≡ false
  absent e j h = elim (Bool-cases (same (t.node j).key key)) [
    | inl hit ↦ absurd (ground (arith, e, (get-Finds main same t laws key j ok.hashed good).1 hit))
    | inr miss ↦ miss
  ]

abbrev pub Stored :
    (Value → ℕ) → (Value → Value → Bool) → HashPart → (key v : Value) → Option HashPart → Type 0
Stored main same t key v none =
    (get main same t key ≡ missing) × ((j : ℕ) → j < t.lastfree → ttisnil (t.node j).key ≡ false)
Stored main same t key v (some t') = IsStored main same t key v t'

module _ (main : Value → ℕ) (same : Value → Value → Bool) (t : HashPart) (key v : Value)
    (laws : IsHashing main same t.sizenode) (ok : IsTable main same t) (good : is_key key ≡ true)
    (itself : same key key ≡ true) where
  inserted_lem :
      (r : NewKey)
      → get main same t key ≡ missing
      → Outcome main same t key r
      → Stored main same t key v (stored t v (inserted r))
  inserted_lem r absent_key (inl (e, full)) =
      subst (λ x. Stored main same t key v (stored t v (inserted x))) (sym e) (absent_key, full)
  inserted_lem r absent_key (inr (mp, dropped, t', e, it)) =
      let laws' : IsHashing main same t'.sizenode =
        subst (IsHashing main same) (sym it.same_size) laws in
      let s = store-IsStored main same t' key v laws' it.kept_whole good mp it.at_node in
      subst (λ x. Stored main same t key v (stored t v (inserted x))) (sym e)
        (record {
          well_formed = s.well_formed;
          own = s.own;
          others = λ k h miss. s.others k h miss ∙ it.values k h;
        })

  set_some : (i : ℕ) → get main same t key ≡ found i → rawset main same t key v ≡ some (store t i v)
  unfolding rawset
  set_some i e = rw e refl

  set_none :
      get main same t key ≡ missing
      → is_nan same key ≡ false
      → rawset main same t key v ≡ stored t v (inserted (newkey main t key))
  unfolding rawset
  set_none e real = let not_nil : ttisnil key ≡ false = ground arith in rw (e, not_nil, real) refl

  pub rawset-Stored : is_nan same key ≡ false → Stored main same t key v (rawset main same t key v)
  rawset-Stored real = elim (Walk-cases (get main same t key)) [
    | inr (inr e) ↦ absurd (get-ends main same t laws key ok.hashed good e)
    | inr (inl (i, e)) ↦
        subst (Stored main same t key v) (sym (set_some i e))
          (store-IsStored main same t key v laws ok good i e)
    | inl e ↦ subst (Stored main same t key v) (sym (set_none e real)) (
        inserted_lem (newkey main t key) e (
          newkey-Outcome main same t key laws ok good itself
            (absent main same t key v laws ok good e)))
  ]

raw_equal_itself :
    (numeq : ℕ → ℕ → Bool) (key : Value)
    → is_nan (raw_equal numeq) key ≡ false
    → raw_equal numeq key key ≡ true
raw_equal_itself numeq nil h = refl
raw_equal_itself numeq (boolean true) h = refl
raw_equal_itself numeq (boolean false) h = refl
raw_equal_itself numeq (lightuserdata p) h = ground arith
raw_equal_itself numeq (number n) h = ground arith
raw_equal_itself numeq (object t p) h = ground arith
raw_equal_itself numeq (deadkey p) h = ground arith

-- In a well-formed hash part, with a key that is neither nil nor dead nor a NaN, a store to what
-- `luaH_set` gives leaves the hash part well-formed, `luaH_get` gives the value for the key, and for every
-- other key what it gave before; or `luaH_get` gives no node for the key and no node below `lastfree` is
-- free, so that the table is to be rehashed.
pub rawset-get :
    (numeq : ℕ → ℕ → Bool) (str_hash : Ptr → ℕ) (t : HashPart) (key v : Value)
    → IsNumEq numeq
    → 0 < t.sizenode
    → IsTable (mainposition str_hash t.sizenode) (raw_equal numeq) t
    → is_key key ≡ true
    → is_nan (raw_equal numeq) key ≡ false
    → Stored
        (mainposition str_hash t.sizenode)
        (raw_equal numeq)
        t
        key
        v
        (rawset (mainposition str_hash t.sizenode) (raw_equal numeq) t key v)
rawset-get numeq str_hash t key v num positive ok good real =
    rawset-Stored (mainposition str_hash t.sizenode) (raw_equal numeq) t key v
      (raw_equal-IsHashing numeq num str_hash t.sizenode positive) ok good
      (raw_equal_itself numeq key real) real

-- In a well-formed hash part, with a key that is neither nil nor dead, the walk of `luaH_get` ends within
-- one more turn than there are nodes: at the one node that has the key, or, where no node has it, at
-- the end of the chain.
pub get-Found :
    (numeq : ℕ → ℕ → Bool) (str_hash : Ptr → ℕ) (t : HashPart) (key : Value)
    → IsNumEq numeq
    → 0 < t.sizenode
    → IsTable (mainposition str_hash t.sizenode) (raw_equal numeq) t
    → is_key key ≡ true
    → ((i : ℕ) × (get (mainposition str_hash t.sizenode) (raw_equal numeq) t key ≡ found i)
        × (raw_equal numeq (t.node i).key key ≡ true)
        × ((j : ℕ) → raw_equal numeq (t.node j).key key ≡ true → j ≡ i))
      ⊎ ((get (mainposition str_hash t.sizenode) (raw_equal numeq) t key ≡ missing)
          × ((j : ℕ) → raw_equal numeq (t.node j).key key ≡ false))
get-Found numeq str_hash t key num positive ok good =
    let main = mainposition str_hash t.sizenode in
    let laws = raw_equal-IsHashing numeq num str_hash t.sizenode positive in
    elim (get-cases main (raw_equal numeq) t laws key ok.hashed good) [
      | inl (i, e, hit) ↦ inl (
        i,
        e,
        hit,
        λ j hit'. same_only main (raw_equal numeq) t laws ok.hashed key i j good hit hit',
      )
      | inr (e, none_has) ↦ inr (e, none_has)
    ]
