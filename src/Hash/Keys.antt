-- ===== src/Hash/Keys.antt =====
-- What `luaO_rawequalObj` of src/lobject.c and `mainposition` of src/ltable.c have to do with each other.
use native.Mathlib.Nat.{mod-lt}
use luarc.Prelude.{
  ℕ, ◌+◌, ◌-◌, ◌*◌, ◌/◌, ◌%◌, ◌^◌, ◌<◌, ◌≤◌, ◌≡◌, ◌⊎◌, refl, sym, ap, ◌∙◌, Bool, true, false, not,
  ◌==◌, if◌then◌else◌, Bool-cases, inl, inr, arith, ==_iff,
}
use luarc.Object.{
  Ptr, Tag, string, table, function, userdata, thread, proto, upval, Value, nil, boolean,
  lightuserdata, number, object, deadkey,
}
use luarc.Table.{hashmod, num_position}
use luarc.Hash.{mainposition, tag_number, raw_equal}
use luarc.Hash.Linked.{is_key, IsHashing}

-- What the code relies on in the comparison of two floating-point numbers by their bits.
pub record IsNumEq (numeq : ℕ → ℕ → Bool) : Type 0 where
  pub flip : (a b : ℕ) → numeq a b ≡ true → numeq b a ≡ true
  pub join : (a b c : ℕ) → numeq a b ≡ true → numeq b c ≡ true → numeq a c ≡ true
  pub bits : (a b : ℕ) → numeq a b ≡ true → (a ≡ b) ⊎ ((a % 2 ^ 63 ≡ 0) × (b % 2 ^ 63 ≡ 0))

abbrev of_number : ℕ → Tag
of_number n =
    if n == 4
    then string
    else if n == 5
    then table
    else if n == 6
    then function
    else if n == 7
    then userdata
    else if n == 8
    then thread
    else if n == 9
    then proto
    else upval

of_number-tag_number : (t : Tag) → of_number (tag_number t) ≡ t
of_number-tag_number string = refl
of_number-tag_number table = refl
of_number-tag_number function = refl
of_number-tag_number userdata = refl
of_number-tag_number thread = refl
of_number-tag_number proto = refl
of_number-tag_number upval = refl

tag_number_inj : (t u : Tag) → tag_number t ≡ tag_number u → t ≡ u
tag_number_inj t u h = sym (of_number-tag_number t) ∙ ap of_number h ∙ of_number-tag_number u

same_bool : (b c : Bool) → (if b then c else not c) ≡ true → b ≡ c
same_bool true true h = refl
same_bool true false h = absurd cc
same_bool false true h = absurd cc
same_bool false false h = refl

module _ (numeq : ℕ → ℕ → Bool) where
  same_object :
      (t u : Tag) (p q : Ptr)
      → raw_equal numeq (object t p) (object u q) ≡ true
      → object t p ≡ object u q
  same_object t u p q h =
      let tags : tag_number t ≡ tag_number u = ground arith in
      let ptrs : p ≡ q = ground arith in
      ap (λ x. object x p) (tag_number_inj t u tags) ∙ ap (object u) ptrs

  raw_equal_inv :
      (a b : Value)
      → raw_equal numeq a b ≡ true
      → (a ≡ b) ⊎ ((n : ℕ) × (m : ℕ) × (a ≡ number n) × (b ≡ number m) × (numeq n m ≡ true))
  raw_equal_inv nil nil h = inl refl
  raw_equal_inv nil (boolean b2) h = absurd (ground arith)
  raw_equal_inv nil (lightuserdata p2) h = absurd (ground arith)
  raw_equal_inv nil (number n2) h = absurd (ground arith)
  raw_equal_inv nil (object t2 q2) h = absurd (ground arith)
  raw_equal_inv nil (deadkey r2) h = absurd (ground arith)
  raw_equal_inv (boolean b1) nil h = absurd (ground arith)
  raw_equal_inv (boolean b1) (boolean b2) h = inl (ap boolean (same_bool b1 b2 h))
  raw_equal_inv (boolean b1) (lightuserdata p2) h = absurd (ground arith)
  raw_equal_inv (boolean b1) (number n2) h = absurd (ground arith)
  raw_equal_inv (boolean b1) (object t2 q2) h = absurd (ground arith)
  raw_equal_inv (boolean b1) (deadkey r2) h = absurd (ground arith)
  raw_equal_inv (lightuserdata p1) nil h = absurd (ground arith)
  raw_equal_inv (lightuserdata p1) (boolean b2) h = absurd (ground arith)
  raw_equal_inv (lightuserdata p1) (lightuserdata p2) h = inl (ap lightuserdata (ground arith))
  raw_equal_inv (lightuserdata p1) (number n2) h = absurd (ground arith)
  raw_equal_inv (lightuserdata p1) (object t2 q2) h = absurd (ground arith)
  raw_equal_inv (lightuserdata p1) (deadkey r2) h = absurd (ground arith)
  raw_equal_inv (number n1) nil h = absurd (ground arith)
  raw_equal_inv (number n1) (boolean b2) h = absurd (ground arith)
  raw_equal_inv (number n1) (lightuserdata p2) h = absurd (ground arith)
  raw_equal_inv (number n1) (number n2) h = inr (n1, n2, refl, refl, h)
  raw_equal_inv (number n1) (object t2 q2) h = absurd (ground arith)
  raw_equal_inv (number n1) (deadkey r2) h = absurd (ground arith)
  raw_equal_inv (object t1 q1) nil h = absurd (ground arith)
  raw_equal_inv (object t1 q1) (boolean b2) h = absurd (ground arith)
  raw_equal_inv (object t1 q1) (lightuserdata p2) h = absurd (ground arith)
  raw_equal_inv (object t1 q1) (number n2) h = absurd (ground arith)
  raw_equal_inv (object t1 q1) (object t2 q2) h = inl (same_object t1 t2 q1 q2 h)
  raw_equal_inv (object t1 q1) (deadkey r2) h = absurd (ground arith)
  raw_equal_inv (deadkey r1) nil h = absurd (ground arith)
  raw_equal_inv (deadkey r1) (boolean b2) h = absurd (ground arith)
  raw_equal_inv (deadkey r1) (lightuserdata p2) h = absurd (ground arith)
  raw_equal_inv (deadkey r1) (number n2) h = absurd (ground arith)
  raw_equal_inv (deadkey r1) (object t2 q2) h = absurd (ground arith)
  raw_equal_inv (deadkey r1) (deadkey r2) h = inl (ap deadkey (ground arith))

below_hashmod : (size n : ℕ) → 0 < size → hashmod size n < size
below_hashmod size n h =
    let m = (size - 1) / 2 * 2 + 1 in
    let fits : m ≤ size = omega arith in
    let smaller : n % m < m = mod-lt n (omega arith) in omega (arith, smaller)

below_num_position : (size n : ℕ) → 0 < size → num_position size n < size
below_num_position size n h = elim (Bool-cases (n % 2 ^ 63 == 0)) [
  | inl e ↦ rw e h
  | inr e ↦ rw e (below_hashmod size ((n % 2 ^ 32 + n / 2 ^ 32 % 2 ^ 32) % 2 ^ 32) h)
]

below_mainposition :
    (str_hash : Ptr → ℕ) (size : ℕ) → 0 < size → (v : Value) → mainposition str_hash size v < size
unfolding mainposition
below_mainposition str_hash size h nil = h
below_mainposition str_hash size h (boolean true) = mod-lt 1 h
below_mainposition str_hash size h (boolean false) = h
below_mainposition str_hash size h (lightuserdata p) = below_hashmod size (p % 2 ^ 32) h
below_mainposition str_hash size h (number n) = below_num_position size n h
below_mainposition str_hash size h (object string p) = mod-lt (str_hash p) h
below_mainposition str_hash size h (object table p) = below_hashmod size (p % 2 ^ 32) h
below_mainposition str_hash size h (object function p) = below_hashmod size (p % 2 ^ 32) h
below_mainposition str_hash size h (object userdata p) = below_hashmod size (p % 2 ^ 32) h
below_mainposition str_hash size h (object thread p) = below_hashmod size (p % 2 ^ 32) h
below_mainposition str_hash size h (object proto p) = below_hashmod size (p % 2 ^ 32) h
below_mainposition str_hash size h (object upval p) = below_hashmod size (p % 2 ^ 32) h
below_mainposition str_hash size h (deadkey p) = below_hashmod size (p % 2 ^ 32) h

module _ (numeq : ℕ → ℕ → Bool) (num : IsNumEq numeq) (str_hash : Ptr → ℕ) (size : ℕ) where
  mainposition-number :
      (n m : ℕ)
      → numeq n m ≡ true
      → mainposition str_hash size (number n) ≡ mainposition str_hash size (number m)
  unfolding mainposition
  mainposition-number n m h = elim (num.bits n m h) [
    | inl e ↦ ap (num_position size) e
    | inr (a, b) ↦
        let a' : (n % 2 ^ 63 == 0) ≡ true = (==_iff (n % 2 ^ 63) 0).1 a in
        let b' : (m % 2 ^ 63 == 0) ≡ true = (==_iff (m % 2 ^ 63) 0).1 b in rw (a', b') refl
  ]

  number_equal :
      (a b : Value) (n m : ℕ)
      → a ≡ number n
      → b ≡ number m
      → numeq n m ≡ true
      → raw_equal numeq a b ≡ true
  number_equal a b n m e f h =
      ap (λ v. raw_equal numeq v b) e ∙ ap (raw_equal numeq (number n)) f ∙ h

  number_inj : (n m : ℕ) → number n ≡ number m → n ≡ m
  number_inj n m h = ground arith

  raw_equal_flip : (a b : Value) → raw_equal numeq a b ≡ true → raw_equal numeq b a ≡ true
  raw_equal_flip a b h = elim (raw_equal_inv numeq a b h) [
    | inl e ↦ ap (raw_equal numeq b) e ∙ ap (λ v. raw_equal numeq v b) (sym e) ∙ h
    | inr (n, m, e, f, k) ↦ number_equal b a m n f e (num.flip n m k)
  ]

  raw_equal_join :
      (a b c : Value)
      → raw_equal numeq a b ≡ true
      → raw_equal numeq b c ≡ true
      → raw_equal numeq a c ≡ true
  raw_equal_join a b c h k = elim (raw_equal_inv numeq a b h) [
    | inl e ↦ ap (λ v. raw_equal numeq v c) e ∙ k
    | inr (n, m, e, f, j) ↦ elim (raw_equal_inv numeq b c k) [
      | inl e' ↦ ap (raw_equal numeq a) (sym e') ∙ h
      | inr (n', m', e', f', j') ↦
          number_equal a c n m' e f'
            (num.join n m m' j (ap (λ x. numeq x m') (number_inj m n' (sym f ∙ e')) ∙ j'))
    ]
  ]

  -- Equal keys have the same main position, where equal numbers are the same bits or zeros.
  pub raw_equal-IsHashing : 0 < size → IsHashing (mainposition str_hash size) (raw_equal numeq) size
  raw_equal-IsHashing h = record {
    flip = raw_equal_flip;
    join = raw_equal_join;
    hash = λ a b e. elim (raw_equal_inv numeq a b e) [
      | inl same ↦ ap (mainposition str_hash size) same
      | inr (n, m, ea, eb, k) ↦
          ap (mainposition str_hash size) ea
          ∙ mainposition-number n m k
          ∙ ap (mainposition str_hash size) (sym eb)
    ];
    kind = λ a b e. elim (raw_equal_inv numeq a b e) [
      | inl same ↦ ap is_key same
      | inr (n, m, ea, eb, k) ↦ ap is_key ea ∙ sym (ap is_key eb)
    ];
    below = below_mainposition str_hash size h;
  }
