-- ===== src/Table/Sizes.antt =====
-- `computesizes` of src/ltable.c picks the largest array part that is more than half full.
use native.Mathlib.Nat.{mul-le-mul_left, pow-suc, one-le-pow}
use luarc.Prelude.{
  ℕ, zero, suc, ◌+◌, ◌-◌, ◌*◌, ◌/◌, ◌^◌, ◌<◌, ◌≤◌, ◌≡◌, ◌⊎◌, inl, inr, refl, sym, ap, ◌∙◌, ◌&&◌,
  List, [], ◌∷◌, length, ltb, ◌==◌, if◌then◌else◌, Bool-cases, arith,
}
use mathlib.Core.Path.{ap₂}
use luarc.Table.{sizes_loop, computesizes}

-- The number of integer keys up to 2 ^ (d - 1), if `nums` counts those between powers of two.
abbrev pub keys_upto : (d : ℕ) → List ℕ → ℕ
keys_upto zero nums = 0
keys_upto (suc d) [] = 0
keys_upto (suc d) (c ∷ nums) = c + keys_upto d nums

abbrev pub sum : List ℕ → ℕ
sum [] = 0
sum (c ∷ nums) = c + sum nums

-- No slice, the first of which ends at `twotoi`, counts more keys than there are integers in it.
abbrev pub IsSlices : (twotoi : ℕ) → List ℕ → Type 0
IsSlices twotoi [] = Unit {0}
IsSlices twotoi (c ∷ nums) = (c ≤ twotoi - twotoi / 2) × IsSlices (twotoi * 2) nums

keys_upto-le : (d : ℕ) (nums : List ℕ) → keys_upto d nums ≤ sum nums
keys_upto-le zero nums = omega arith
keys_upto-le (suc d) [] = omega arith
keys_upto-le (suc d) (c ∷ nums) = omega (arith, keys_upto-le d nums)

twice : (t d : ℕ) → t * 2 ^ suc d ≡ t * 2 * 2 ^ d
twice t d = rw (pow-suc 2 d) (omega arith)

grows : (t d : ℕ) → t ≤ t * 2 ^ d
grows t d = omega (arith, mul-le-mul_left t (one-le-pow d 2 (omega arith)))

-- A size for the array part, as a power of two, that has more than half of its entries in use.
abbrev pub HalfFull : (twotoi a : ℕ) → List ℕ → (n na : ℕ) → Type 0
HalfFull twotoi a nums n na =
    (d : ℕ) × (n ≡ twotoi * 2 ^ d) × (na ≡ a + keys_upto (suc d) nums) × (n / 2 < na) × (na ≤ n)

record Best (nums : List ℕ) (twotoi a n na : ℕ) (r : ℕ × ℕ) : Type 0 where
  either : (r ≡ (n, na)) ⊎ HalfFull twotoi a nums r.0 r.1
  atleast : n ≤ r.0
  best :
      (d : ℕ)
      → d < length nums
      → twotoi * 2 ^ d / 2 < a + keys_upto (suc d) nums
      → twotoi * 2 ^ d ≤ r.0

half_of : (t d : ℕ) → t * 2 * 2 ^ d / 2 ≡ t * 2 ^ d
half_of t d = let even : t * 2 * 2 ^ d ≡ t * 2 ^ d * 2 = omega arith in omega (arith, even)

-- The size and count after one slice.
abbrev Chosen : (c twotoi a na n n' na' : ℕ) → Type 0
Chosen c twotoi a na n n' na' =
    ((n' ≡ twotoi) × (na' ≡ a + c) × (twotoi / 2 < a + c))
    ⊎ ((n' ≡ n) × (na' ≡ na) × (a + c ≤ twotoi / 2))

-- No size that starts at `twotoi` or above is half full once its half reaches all keys that are left.
none-Best :
    (nums : List ℕ) (twotoi a n na : ℕ)
    → a + sum nums ≤ twotoi / 2
    → Best nums twotoi a n na (n, na)
none-Best nums twotoi a n na few = record {
  either = inl refl;
  atleast = omega arith;
  best = λ d h more.
      let most = keys_upto-le (suc d) nums in
      let big = grows twotoi d in absurd (omega (arith, most, big));
}

module _ (c : ℕ) (nums : List ℕ) (twotoi a n na n' na' : ℕ) (low : a ≤ twotoi / 2)
    (fits : c ≤ twotoi - twotoi / 2) (small : n ≤ twotoi)
    (chosen : Chosen c twotoi a na n n' na') where
  module _ (r : ℕ × ℕ) (b : Best nums (twotoi * 2) (a + c) n' na' r) where
    next_either : (r ≡ (n, na)) ⊎ HalfFull twotoi a (c ∷ nums) r.0 r.1
    next_either = elim b.either [
      | inl same ↦
          let size : r.0 ≡ n' = ap (λ x. x.0) same in
          let count : r.1 ≡ na' = ap (λ x. x.1) same in
          elim chosen [
            | inl k ↦
                let one : twotoi * 2 ^ 0 ≡ twotoi = omega arith in
                inr (
                  0,
                  size ∙ (k.0 ∙ sym one),
                  omega (arith, count, k.1),
                  omega (arith, size, k.0, count, k.1, k.2),
                  omega (arith, size, k.0, count, k.1),
                )
            | inr k ↦ inl (same ∙ ap₂ (λ x y. (x, y)) k.0 k.1)
          ]
      | inr h ↦
          let (d, size, count, half, fit) = h in
          inr (suc d, size ∙ sym (twice twotoi d), omega (arith, count), half, fit)
    ]

    next_best :
        (d : ℕ)
        → d < length (c ∷ nums)
        → twotoi * 2 ^ d / 2 < a + keys_upto (suc d) (c ∷ nums)
        → twotoi * 2 ^ d ≤ r.0
    next_best zero h more = elim chosen [
      | inl k ↦ omega (arith, k.0, b.atleast)
      | inr k ↦ absurd (omega (arith, k.2, more))
    ]
    next_best (suc d) h more =
        let same = twice twotoi d in
        omega (arith, same, b.best d (omega arith) (omega (arith, same, more)))

    next-Best : Best (c ∷ nums) twotoi a n na r
    next-Best = record {
      either = next_either;
      atleast = elim chosen [
        | inl k ↦ omega (arith, k.0, b.atleast)
        | inr k ↦ omega (arith, k.0, b.atleast)
      ];
      best = next_best;
    }

  turn-Best :
      (narray : ℕ) (rest : ℕ × ℕ)
      → a + sum (c ∷ nums) ≡ narray
      → Best nums (twotoi * 2) (a + c) n' na' rest
      → Best (c ∷ nums) twotoi a n na (if a + c == narray then (n', na') else rest)
  turn-Best narray rest all b = elim (Bool-cases (a + c == narray)) [
    | inl done ↦
        rw (done) (next-Best (n', na') (none-Best nums (twotoi * 2) (a + c) n' na' (ground arith)))
    | inr on ↦ rw (on) (next-Best rest b)
  ]

sizes_loop-Best :
    (nums : List ℕ) (narray twotoi a na n : ℕ)
    → a + sum nums ≡ narray
    → IsSlices twotoi nums
    → a ≤ twotoi / 2
    → n ≤ twotoi
    → Best nums twotoi a n na (sizes_loop nums narray twotoi a na n)
unfolding sizes_loop
sizes_loop-Best [] narray twotoi a na n all slices low small = record {
  either = inl refl;
  atleast = omega arith;
  best = λ d h. absurd (omega arith);
}
sizes_loop-Best (c ∷ nums) narray twotoi a na n all slices low small =
    elim (Bool-cases (ltb (twotoi / 2) narray)) [
      | inl go ↦ elim (Bool-cases (ltb 0 c && ltb (twotoi / 2) (a + c))) [
        | inl better ↦
            rw (go, better)
              (turn-Best c nums twotoi a n na twotoi (a + c) low slices.0 small
                (inl (refl, refl, ground arith)) narray _ all
                (sizes_loop-Best nums narray (twotoi * 2) (a + c) (a + c) twotoi (omega arith)
                  slices.1 (omega (arith, slices.0)) (omega arith)))
        | inr worse ↦
            rw (go, worse)
              (turn-Best c nums twotoi a n na n na low slices.0 small
                (inr (refl, refl, ground arith)) narray _ all
                (sizes_loop-Best nums narray (twotoi * 2) (a + c) na n (omega arith) slices.1
                  (omega (arith, slices.0)) (omega arith)))
      ]
      | inr stop ↦ rw (stop) (none-Best (c ∷ nums) twotoi a n na (ground arith))
    ]

module _ (nums : List ℕ) (narray : ℕ) (all : sum nums ≡ narray) (slices : IsSlices 1 nums) where
  computesizes-Best : Best nums 1 0 0 0 (computesizes nums narray)
  unfolding computesizes
  computesizes-Best =
      sizes_loop-Best nums narray 1 0 0 0 (omega (arith, all)) slices (omega arith) (omega arith)

  -- From the numbers of integer keys between powers of two, which sum to `narray` and of which none is
  -- above the number of integers in its slice, `computesizes` gives size 0 and no keys, or a power of
  -- two and the number of keys up to it, which is more than half of it and no more than it.
  pub computesizes-HalfFull :
      (computesizes nums narray ≡ (0, 0))
      ⊎ HalfFull 1 0 nums (computesizes nums narray).0 (computesizes nums narray).1
  computesizes-HalfFull = computesizes-Best.either

  -- Under the same conditions no power of two within the counts is above the size that `computesizes`
  -- gives, if the keys up to it are more than half of it.
  pub computesizes_largest :
      (d : ℕ)
      → d < length nums
      → 2 ^ d / 2 < keys_upto (suc d) nums
      → 2 ^ d ≤ (computesizes nums narray).0
  computesizes_largest d h more =
      let one : 1 * 2 ^ d ≡ 2 ^ d = omega arith in
      omega (arith, one, computesizes-Best.best d h (omega (arith, one, more)))
