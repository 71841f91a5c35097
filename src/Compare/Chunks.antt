-- ===== src/Compare/Chunks.antt =====
-- `l_strcmp` of src/lvm.c compares two strings chunk by chunk, as their zeros divide them.
use Prim.Native.Nat.{Ordering}
use luarc.Prelude.{
  ℕ, zero, suc, ◌<◌, ◌≤◌, ◌≡◌, ◌≢◌, refl, sym, ap, ◌∙◌, false, Option, some, List, [], ◌∷◌, length,
  drop, ◌==◌, if◌then◌else◌, Bool-cases, inl, inr, arith,
}
use luarc.Compare.{c_string, Collation, strcmp_round, strcmp_loop, l_strcmp}

-- A string as the list of its parts between zeros.
abbrev pub in_first : ℕ → List (List ℕ) → List (List ℕ)
in_first x [] = (x ∷ []) ∷ []
in_first x (c ∷ cs) = (x ∷ c) ∷ cs

unfoldable pub chunks : List ℕ → List (List ℕ)
chunks [] = [] ∷ []
chunks (x ∷ s) = if x == 0 then [] ∷ chunks s else in_first x (chunks s)

-- The order of lists of chunks: by the first that differ, a list before its extensions.
abbrev pub else_by : Ordering → Ordering → Ordering
else_by Ordering.lt o = Ordering.lt
else_by Ordering.gt o = Ordering.gt
else_by Ordering.eq o = o

unfoldable pub lexicographic : Collation → List (List ℕ) → List (List ℕ) → Ordering
lexicographic strcoll [] [] = Ordering.eq
lexicographic strcoll [] (b ∷ ds) = Ordering.lt
lexicographic strcoll (a ∷ cs) [] = Ordering.gt
lexicographic strcoll (a ∷ cs) (b ∷ ds) = else_by (strcoll a b) (lexicographic strcoll cs ds)

-- The chunks after the first.
abbrev pub rest_chunks : List ℕ → List (List ℕ)
rest_chunks s =
    if length (c_string s) == length s then [] else chunks (drop (suc (length (c_string s))) s)

length-c_string_le : (s : List ℕ) → length (c_string s) ≤ length s
unfolding c_string
length-c_string_le [] = omega arith
length-c_string_le (x ∷ s) = ground (arith, length-c_string_le s)

pub chunks_lem : (s : List ℕ) → chunks s ≡ c_string s ∷ rest_chunks s
unfolding chunks c_string
chunks_lem [] = refl
chunks_lem (x ∷ s) = elim (Bool-cases (x == 0)) [
  | inl zero_byte ↦
      let short : (0 == suc (length s)) ≡ false = ground arith in rw (zero_byte, short) refl
  | inr other ↦
      let a = length (c_string s) in
      let same : (suc a == suc (length s)) ≡ (a == length s) = ground arith in
      rw (other, chunks_lem s, same) refl
]

-- One round, where the strings before the zeros are the same whenever they compare equal.
round_lem :
    (strcoll : Collation) (o : Ordering) (l r : List ℕ) (next : Option Ordering)
    → (o ≡ Ordering.eq → c_string l ≡ c_string r)
    → (length (c_string l) ≢ length l
        → next
          ≡ some (
              lexicographic strcoll
                (chunks (drop (suc (length (c_string l))) l))
                (chunks (drop (suc (length (c_string l))) r))))
    → strcmp_round o (length (c_string l)) (length l) (length r) next
      ≡ some (else_by o (lexicographic strcoll (rest_chunks l) (rest_chunks r)))
unfolding lexicographic
round_lem strcoll Ordering.lt l r next same again = refl
round_lem strcoll Ordering.gt l r next same again = refl
round_lem strcoll Ordering.eq l r next same again =
    let lens : length (c_string r) ≡ length (c_string l) = ap length (sym (same refl)) in
    let rest_r : rest_chunks r ≡ (
        if length (c_string l) == length r
        then []
        else chunks (drop (suc (length (c_string l))) r)) =
      rw lens refl in
    elim (Bool-cases (length (c_string l) == length r)) [
      | inl r_ends ↦ elim (Bool-cases (length (c_string l) == length l)) [
        | inl l_ends ↦ rw (rest_r, r_ends, l_ends) refl
        | inr l_more ↦
            rw (rest_r, r_ends, l_more, chunks_lem (drop (suc (length (c_string l))) l)) refl
      ]
      | inr r_more ↦ elim (Bool-cases (length (c_string l) == length l)) [
        | inl l_ends ↦
            rw (rest_r, r_more, l_ends, chunks_lem (drop (suc (length (c_string l))) r)) refl
        | inr l_more ↦ rw (rest_r, r_more, l_more) (again (λ e. ground arith))
      ]
    ]

length-drop_lt : (s : List ℕ) (n : ℕ) → n < length s → length (drop (suc n) s) < length s
length-drop_lt [] n h = absurd (omega arith)
length-drop_lt (x ∷ s) zero h = omega arith
length-drop_lt (x ∷ s) (suc n) h = omega (arith, length-drop_lt s n (omega arith))

length_lt_of_ne : (s : List ℕ) → length (c_string s) ≢ length s → length (c_string s) < length s
length_lt_of_ne s h = ground (arith, length-c_string_le s)

by_chunks :
    (strcoll : Collation) (l r : List ℕ)
    → else_by
        (strcoll (c_string l) (c_string r))
        (lexicographic strcoll (rest_chunks l) (rest_chunks r))
      ≡ lexicographic strcoll (chunks l) (chunks r)
unfolding lexicographic
by_chunks strcoll l r = rw (chunks_lem l, chunks_lem r) refl

strcmp_loop_lem :
    (strcoll : Collation) (fuel : ℕ) (l r : List ℕ)
    → ((a b : List ℕ) → strcoll a b ≡ Ordering.eq → a ≡ b)
    → length l < fuel
    → strcmp_loop strcoll fuel l r ≡ some (lexicographic strcoll (chunks l) (chunks r))
unfolding strcmp_loop
strcmp_loop_lem strcoll zero l r same h = absurd (omega arith)
strcmp_loop_lem strcoll (suc fuel) l r same h =
    round_lem strcoll (strcoll (c_string l) (c_string r)) l r
      (strcmp_loop strcoll fuel (drop (suc (length (c_string l))) l)
        (drop (suc (length (c_string l))) r))
      (same (c_string l) (c_string r))
      (λ more.
        strcmp_loop_lem strcoll fuel _ _ same
          (omega (arith, length-drop_lt l (length (c_string l)) (length_lt_of_ne l more))))
    ∙ ap some (by_chunks strcoll l r)

-- Where C strings that compare equal are equal, `l_strcmp` ends, and orders strings with zeros in them
-- as the lists of their chunks, by the first that differ, a list before its extensions.
pub l_strcmp-lexicographic :
    (strcoll : Collation) (l r : List ℕ)
    → ((a b : List ℕ) → strcoll a b ≡ Ordering.eq → a ≡ b)
    → l_strcmp strcoll l r ≡ some (lexicographic strcoll (chunks l) (chunks r))
unfolding l_strcmp
l_strcmp-lexicographic strcoll l r same =
    strcmp_loop_lem strcoll (suc (length l)) l r same (omega arith)
