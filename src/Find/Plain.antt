-- ===== src/Find/Plain.antt =====
-- `lmemfind` of src/lstrlib.c finds the first occurrence of a string.
use luarc.Prelude.{
  ℕ, zero, suc, ◌+◌, ◌-◌, ◌<◌, ◌≤◌, ◌≡◌, ◌≢◌, refl, sym, ap, ◌∙◌, true, Option, none, some, List,
  [], ◌∷◌, length, take, drop, arith, ◌==◌, ltb, Bool-cases, inl, inr, ==_iff,
}
use mathlib.Core.Path.{subst}
use luarc.Chunk.{str_eq}
use luarc.Undump.Saved.{str_eq_sound}
use luarc.Find.{next_index, memfind_at, memchr, memfind_loop, lmemfind}

-- `s2` stands in `s1` at `i`.
abbrev pub OccursAt : (s1 s2 : List ℕ) → ℕ → Type 0
OccursAt s1 s2 i = take (length s2) (drop i s1) ≡ s2

-- The first occurrence among those before `bound`, counted from `base`.
abbrev pub First : (s1 s2 : List ℕ) → (base bound : ℕ) → Option ℕ → Type 0
First s1 s2 base bound none = (j : ℕ) → j < bound → OccursAt s1 s2 j → ⊥
First s1 s2 base bound (some t) =
    (i : ℕ) × (t ≡ base + i) × OccursAt s1 s2 i × ((j : ℕ) → j < i → OccursAt s1 s2 j → ⊥)

str_eq_refl : (s : List ℕ) → str_eq s s ≡ true
str_eq_refl [] = refl
str_eq_refl (x ∷ s) = ground (arith, str_eq_refl s)

str_eq_of_eq : (s t : List ℕ) → s ≡ t → str_eq s t ≡ true
str_eq_of_eq s t e = rw e (str_eq_refl t)

drop-nil : (n : ℕ) → drop {A = ℕ} n [] ≡ []
drop-nil zero = refl
drop-nil (suc n) = refl

drop-drop : (xs : List ℕ) (i j : ℕ) → drop j (drop i xs) ≡ drop (i + j) xs
drop-drop xs zero j = let e : j ≡ 0 + j = omega arith in ap (λ n. drop n xs) e
drop-drop [] (suc i) j = drop-nil j ∙ sym (drop-nil (suc i + j))
drop-drop (x ∷ xs) (suc i) j =
    let e : suc i + j ≡ suc (i + j) = omega arith in rw e (drop-drop xs i j)

drop-one : (xs : List ℕ) (i : ℕ) → drop 1 (drop i xs) ≡ drop (suc i) xs
drop-one xs i =
    let e : i + 1 ≡ suc i = omega arith in
    subst (λ n. drop 1 (drop i xs) ≡ drop n xs) e (drop-drop xs i 1)

-- What `memchr` says of the byte `c` that an occurrence starts with.
abbrev FirstByte : List ℕ → (c : ℕ) → (s2 : List ℕ) → (n : ℕ) → Option ℕ → Type 0
FirstByte s c s2 n none = (j : ℕ) → j < n → OccursAt s (c ∷ s2) j → ⊥
FirstByte s c s2 n (some i) =
    (i < n) × (take 1 (drop i s) ≡ c ∷ []) × ((j : ℕ) → j < i → OccursAt s (c ∷ s2) j → ⊥)

not_first : (x c : ℕ) (s s2 : List ℕ) → x ≢ c → OccursAt (x ∷ s) (c ∷ s2) 0 → ⊥
not_first x c s s2 other h = ground arith

no_later :
    (x c n : ℕ) (s s2 : List ℕ)
    → x ≢ c
    → ((j : ℕ) → j < n → OccursAt s (c ∷ s2) j → ⊥)
    → (j : ℕ) → j < suc n
    → OccursAt (x ∷ s) (c ∷ s2) j
    → ⊥
no_later x c n s s2 other h zero lt occurs = not_first x c s s2 other occurs
no_later x c n s s2 other h (suc j) lt occurs = h j (omega arith) occurs

no_bytes : (c : ℕ) (s2 : List ℕ) (j : ℕ) → OccursAt [] (c ∷ s2) j → ⊥
no_bytes c s2 zero occurs = cc
no_bytes c s2 (suc j) occurs = cc

FirstByte-next :
    (x c n : ℕ) (s s2 : List ℕ) (o : Option ℕ)
    → x ≢ c
    → FirstByte s c s2 n o
    → FirstByte (x ∷ s) c s2 (suc n) (next_index o)
FirstByte-next x c n s s2 none other h = no_later x c n s s2 other h
FirstByte-next x c n s s2 (some i) other (lt, at_i, before) =
    (omega arith, at_i, no_later x c i s s2 other before)

memchr-FirstByte : (s : List ℕ) (c n : ℕ) (s2 : List ℕ) → FirstByte s c s2 n (memchr s c n)
unfolding memchr
memchr-FirstByte s c zero s2 = λ j lt occurs. absurd (omega arith)
memchr-FirstByte [] c (suc n) s2 = λ j lt occurs. absurd (no_bytes c s2 j occurs)
memchr-FirstByte (x ∷ s) c (suc n) s2 = elim (Bool-cases (x == c)) [
  | inl same ↦
      rw same
        (omega arith, ap (λ b. b ∷ []) ((==_iff x c).0 same), λ j lt occurs. absurd (omega arith))
  | inr other ↦
      rw other
        (FirstByte-next x c n s s2 (memchr s c n) (λ e. ground arith) (memchr-FirstByte s c n s2))
]

occurs_join :
    (xs s2 : List ℕ) (c : ℕ)
    → take 1 xs ≡ c ∷ []
    → take (length s2) (drop 1 xs) ≡ s2
    → take (suc (length s2)) xs ≡ c ∷ s2
occurs_join [] s2 c h e = absurd (cc)
occurs_join (x ∷ xs) s2 c h e = let same : x ≡ c = ground arith in rw (same, e)

occurs_rest :
    (xs s2 : List ℕ) (c : ℕ)
    → take (suc (length s2)) xs ≡ c ∷ s2
    → take (length s2) (drop 1 xs) ≡ s2
occurs_rest [] s2 c h = absurd (cc)
occurs_rest (x ∷ xs) s2 c h = ground arith

later_bytes_eq : (s1 : List ℕ) (j k m : ℕ) → m ≡ suc j + k → drop k (drop (suc j) s1) ≡ drop m s1
later_bytes_eq s1 j k m e = drop-drop s1 (suc j) k ∙ ap (λ n. drop n s1) (sym e)

occurs_out :
    (s1 pat : List ℕ) (j k m : ℕ)
    → m ≡ suc j + k
    → OccursAt (drop (suc j) s1) pat k
    → OccursAt s1 pat m
occurs_out s1 pat j k m e = subst (λ xs. take (length pat) xs ≡ pat) (later_bytes_eq s1 j k m e)

occurs_in :
    (s1 pat : List ℕ) (j k m : ℕ)
    → m ≡ suc j + k
    → OccursAt s1 pat m
    → OccursAt (drop (suc j) s1) pat k
occurs_in s1 pat j k m e =
    subst (λ xs. take (length pat) xs ≡ pat) (sym (later_bytes_eq s1 j k m e))

-- A search that goes on behind index `j`, no occurrence being at `j` or before.
First-later :
    (s1 pat : List ℕ) (base bound j : ℕ) (o : Option ℕ)
    → j < bound
    → ((k : ℕ) → k < suc j → OccursAt s1 pat k → ⊥)
    → First (drop (suc j) s1) pat (base + suc j) (bound - suc j) o
    → First s1 pat base bound o
First-later s1 pat base bound j none lt before h = λ k k_lt occurs.
    elim (Bool-cases (ltb k (suc j))) [
      | inl early ↦ before k (ground arith) occurs
      | inr late ↦
          h (k - suc j) (ground arith) (occurs_in s1 pat j (k - suc j) k (ground arith) occurs)
    ]
First-later s1 pat base bound j (some t) lt before (i, t_is, occurs, none_before) = (
  suc j + i,
  omega arith,
  occurs_out s1 pat j i (suc j + i) refl occurs,
  λ k k_lt occ. elim (Bool-cases (ltb k (suc j))) [
    | inl early ↦ before k (ground arith) occ
    | inr late ↦
        none_before (k - suc j) (ground arith) (occurs_in s1 pat j (k - suc j) k (ground arith) occ)
  ],
)

memfind_at-First :
    (again : ℕ → Option ℕ) (i l1 c : ℕ) (s1 s2 : List ℕ) (o : Option ℕ)
    → FirstByte s1 c s2 l1 o
    → ((j : ℕ) → j < l1 → First (drop (suc j) s1) (c ∷ s2) (i + suc j) (l1 - suc j) (again j))
    → First s1 (c ∷ s2) i l1 (memfind_at again i s1 s2 o)
memfind_at-First again i l1 c s1 s2 none first later = first
memfind_at-First again i l1 c s1 s2 (some j) (lt, byte, before) later =
    elim (Bool-cases (str_eq (take (length s2) (drop (suc j) s1)) s2)) [
      | inl same ↦ rw same (
        j,
        refl,
        occurs_join (drop j s1) s2 c byte
            (subst (λ xs. take (length s2) xs ≡ s2) (sym (drop-one s1 j)) (str_eq_sound _ _ same)),
        before,
      )
      | inr other ↦ rw other (
          First-later s1 (c ∷ s2) i l1 j (again j) lt
            (λ k k_lt occurs. elim (Bool-cases (k == j)) [
              | inl here ↦
                  let at_j = subst (OccursAt s1 (c ∷ s2)) ((==_iff k j).0 here) occurs in
                  let rest =
                    subst (λ xs. take (length s2) xs ≡ s2) (drop-one s1 j)
                      (occurs_rest (drop j s1) s2 c at_j) in
                  cc (str_eq_of_eq (take (length s2) (drop (suc j) s1)) s2 rest)
              | inr earlier ↦ before k (ground arith) occurs
            ])
            (later j lt))
    ]

memfind_loop-First :
    (fuel i l1 c : ℕ) (s1 s2 : List ℕ)
    → l1 < fuel
    → First s1 (c ∷ s2) i l1 (memfind_loop fuel i l1 c s1 s2)
unfolding memfind_loop
memfind_loop-First zero i l1 c s1 s2 h = absurd (omega arith)
memfind_loop-First (suc fuel) i l1 c s1 s2 h =
    memfind_at-First (λ j. memfind_loop fuel (i + suc j) (l1 - suc j) c (drop (suc j) s1) s2) i l1 c
      s1 s2 (memchr s1 c l1) (memchr-FirstByte s1 c l1 s2)
      (λ j lt.
        memfind_loop-First fuel (i + suc j) (l1 - suc j) c (drop (suc j) s1) s2 (omega arith))

length-take_le : (n : ℕ) (xs : List ℕ) → length (take n xs) ≤ length xs
length-take_le zero xs = omega arith
length-take_le (suc n) [] = omega arith
length-take_le (suc n) (x ∷ xs) = omega (arith, length-take_le n xs)

-- An occurrence ends in the string.
occurs_fits : (s1 s2 : List ℕ) (c j : ℕ) → OccursAt s1 (c ∷ s2) j → j + suc (length s2) ≤ length s1
occurs_fits s1 s2 c zero occurs =
    omega (arith, ap length occurs, length-take_le (suc (length s2)) s1)
occurs_fits [] s2 c (suc j) occurs = absurd (cc)
occurs_fits (x ∷ s1) s2 c (suc j) occurs = omega (arith, occurs_fits s1 s2 c j occurs)

First-widen :
    (s1 s2 : List ℕ) (c bound : ℕ) (o : Option ℕ)
    → bound ≡ length s1 - length s2
    → First s1 (c ∷ s2) 0 bound o
    → First s1 (c ∷ s2) 0 (suc (length s1)) o
First-widen s1 s2 c bound none e h =
    λ j lt occurs. h j (omega (arith, occurs_fits s1 s2 c j occurs)) occurs
First-widen s1 s2 c bound (some t) e h = h

-- `lmemfind` gives the first index at which the second string stands in the first, if there is one.
pub lmemfind-First : (s1 s2 : List ℕ) → First s1 s2 0 (suc (length s1)) (lmemfind s1 s2)
unfolding lmemfind
lmemfind-First s1 [] = (0, refl, refl, λ j lt occurs. absurd (omega arith))
lmemfind-First s1 (c ∷ s2) = elim (Bool-cases (ltb (length s1) (suc (length s2)))) [
  | inl short ↦ rw short (λ j lt occurs. ground (arith, occurs_fits s1 s2 c j))
  | inr long ↦ rw long (
      First-widen s1 s2 c (length s1 - length s2) _ refl
        (memfind_loop-First (suc (length s1)) 0 (length s1 - length s2) c s1 s2 (omega arith)))
]
