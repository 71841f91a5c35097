-- ===== src/Hash/Linked.antt =====
-- Chains of a hash part in src/ltable.c, and what holds of them.
use luarc.Prelude.{
  ℕ, zero, suc, ◌<◌, ◌≤◌, ◌≡◌, ◌≢◌, Bool, true, false, not, ◌&&◌, none, some, if◌then◌else◌, arith,
}
use luarc.Object.{Value, ttisnil, is_deadkey}
use luarc.Table.{Entry}
use luarc.Hash.{HashPart}

-- A key in use: neither nil nor dead.
abbrev pub is_key : Value → Bool
is_key v = not (ttisnil v) && not (is_deadkey v)

-- `k` steps along the chain from `m` lead to `i`.
abbrev pub Steps : (ℕ → Entry) → (k m i : ℕ) → Type 0
Steps node zero m i = m ≡ i
Steps node (suc k) m i = (j : ℕ) × ((node m).next ≡ some j) × Steps node k j i

abbrev pub Reach : (ℕ → Entry) → (m i : ℕ) → Type 0
Reach node m i = (k : ℕ) × Steps node k m i

-- The number of nodes below `size` that have a key.
unfoldable pub used : (ℕ → Entry) → (size : ℕ) → ℕ
used node zero = 0
used node (suc i) = let rest = used node i in if ttisnil (node i).key then rest else suc rest

-- Chains rise in some rank up to `bound`, no two nodes lead to the same, and each key is in the chain of
-- its main position, whose node has a key of that main position too, if it is not dead. Nodes with
-- no key are in no chain, but for `hole`.
pub record IsLinked (main : Value → ℕ) (same : Value → Value → Bool) (size bound hole : ℕ)
    (node : ℕ → Entry) : Type 0 where
  pub rank : ℕ → ℕ
  pub rises : (i j : ℕ) → (node i).next ≡ some j → rank i < rank j
  pub inside : (i j : ℕ) → (node i).next ≡ some j → j < size
  pub bounded : (i : ℕ) → rank i ≤ bound
  pub single : (i j m : ℕ) → (node i).next ≡ some m → (node j).next ≡ some m → i ≡ j
  pub ends : (i : ℕ) → i < size → i ≢ hole → ttisnil (node i).key ≡ true → (node i).next ≡ none
  pub alone : (i j : ℕ) → i ≢ hole → ttisnil (node i).key ≡ true → (node j).next ≢ some i
  pub alive : (i : ℕ) → ttisnil (node i).val ≡ false → is_key (node i).key ≡ true
  pub reached : (i : ℕ) → is_key (node i).key ≡ true → Reach node (main (node i).key) i
  pub home :
      (i m : ℕ)
      → is_key (node i).key ≡ true
      → main (node i).key ≡ m
      → m ≢ i
      → (ttisnil (node m).key ≡ false) × (is_key (node m).key ≡ true → main (node m).key ≡ m)
  pub unique :
      (i j : ℕ)
      → is_key (node i).key ≡ true
      → is_key (node j).key ≡ true
      → same (node i).key (node j).key ≡ true
      → i ≡ j

-- What `luaO_rawequalObj` and `mainposition` have to do with each other.
pub record IsHashing (main : Value → ℕ) (same : Value → Value → Bool) (size : ℕ) : Type 0 where
  pub flip : (a b : Value) → same a b ≡ true → same b a ≡ true
  pub join : (a b c : Value) → same a b ≡ true → same b c ≡ true → same a c ≡ true
  pub hash : (a b : Value) → same a b ≡ true → main a ≡ main b
  pub kind : (a b : Value) → same a b ≡ true → is_key a ≡ is_key b
  pub below : (a : Value) → main a < size

abbrev pub IsHashed : (Value → ℕ) → (Value → Value → Bool) → HashPart → Type 0
IsHashed main same t = IsLinked main same t.sizenode (used t.node t.sizenode) t.sizenode t.node

pub used_le : (node : ℕ → Entry) (size : ℕ) → used node size ≤ size
unfolding used
used_le node zero = omega arith
used_le node (suc i) = ground (arith, used_le node i)

pub Reach-step :
    (node : ℕ → Entry) (m j i : ℕ) → (node m).next ≡ some j → Reach node j i → Reach node m i
Reach-step node m j i e (k, steps) = (suc k, (j, e, steps))
