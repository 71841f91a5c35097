-- ===== src/Compare/Examples.antt =====
-- Strings that are compared byte by byte, for the theorems on src/lvm.c.
use Prim.Native.Nat.{Ordering}
use luarc.Prelude.{
  ℕ, zero, suc, ◌≡◌, ◌⊎◌, refl, ap, Bool, true, false, none, some, List, [], ◌∷◌, arith, ltb,
  Option,
}
use luarc.Compare.{Collation, Operand, Calls, string, verdict, lessthan, l_strcmp}
use luarc.Compare.Chunks.{lexicographic, chunks, else_by, l_strcmp-lexicographic}
use luarc.Compare.Ordered.{opposite, opposite-else_by, IsOrder, Results, lessthan_total}

abbrev by_byte : ℕ → ℕ → Ordering
by_byte zero zero = Ordering.eq
by_byte zero (suc y) = Ordering.lt
by_byte (suc x) zero = Ordering.gt
by_byte (suc x) (suc y) = by_byte x y

abbrev bytewise : Collation
bytewise [] [] = Ordering.eq
bytewise [] (y ∷ b) = Ordering.lt
bytewise (x ∷ a) [] = Ordering.gt
bytewise (x ∷ a) (y ∷ b) = else_by (by_byte x y) (bytewise a b)

by_byte_same : (x y : ℕ) → by_byte x y ≡ Ordering.eq → x ≡ y
by_byte_same zero zero h = refl
by_byte_same zero (suc y) h = absurd cc
by_byte_same (suc x) zero h = absurd cc
by_byte_same (suc x) (suc y) h = ap (λ n. suc n) (by_byte_same x y h)

by_byte_itself : (x : ℕ) → by_byte x x ≡ Ordering.eq
by_byte_itself zero = refl
by_byte_itself (suc x) = by_byte_itself x

by_byte_flipped : (x y : ℕ) → by_byte y x ≡ opposite (by_byte x y)
by_byte_flipped zero zero = refl
by_byte_flipped zero (suc y) = refl
by_byte_flipped (suc x) zero = refl
by_byte_flipped (suc x) (suc y) = by_byte_flipped x y

by_byte_chained :
    (x y z : ℕ) → by_byte x y ≡ Ordering.lt → by_byte y z ≡ Ordering.lt → by_byte x z ≡ Ordering.lt
by_byte_chained zero zero z h k = absurd cc
by_byte_chained zero (suc y) zero h k = absurd cc
by_byte_chained zero (suc y) (suc z) h k = refl
by_byte_chained (suc x) zero z h k = absurd cc
by_byte_chained (suc x) (suc y) zero h k = absurd cc
by_byte_chained (suc x) (suc y) (suc z) h k = by_byte_chained x y z h k

bytewise_same : (a b : List ℕ) → bytewise a b ≡ Ordering.eq → a ≡ b
bytewise_same [] [] h = refl
bytewise_same [] (y ∷ b) h = absurd cc
bytewise_same (x ∷ a) [] h = absurd cc
bytewise_same (x ∷ a) (y ∷ b) h = ground (arith, by_byte_same x y, bytewise_same a b)

bytewise_itself : (a : List ℕ) → bytewise a a ≡ Ordering.eq
bytewise_itself [] = refl
bytewise_itself (x ∷ a) = rw (by_byte_itself x, bytewise_itself a) refl

bytewise_flipped : (a b : List ℕ) → bytewise b a ≡ opposite (bytewise a b)
bytewise_flipped [] [] = refl
bytewise_flipped [] (y ∷ b) = refl
bytewise_flipped (x ∷ a) [] = refl
bytewise_flipped (x ∷ a) (y ∷ b) =
    rw (by_byte_flipped x y, bytewise_flipped a b, opposite-else_by (by_byte x y) (bytewise a b))
      refl

bytewise_chained :
    (a b c : List ℕ)
    → bytewise a b ≡ Ordering.lt
    → bytewise b c ≡ Ordering.lt
    → bytewise a c ≡ Ordering.lt
bytewise_chained [] [] c h k = absurd cc
bytewise_chained [] (y ∷ b) [] h k = absurd cc
bytewise_chained [] (y ∷ b) (z ∷ c) h k = refl
bytewise_chained (x ∷ a) [] c h k = absurd cc
bytewise_chained (x ∷ a) (y ∷ b) [] h k = absurd cc
bytewise_chained (x ∷ a) (y ∷ b) (z ∷ c) h k =
    ground
      (arith, by_byte_chained x y z, by_byte_same x y, by_byte_same y z, bytewise_chained a b c)

bytewise-IsOrder : IsOrder bytewise
bytewise-IsOrder = record {
  same = bytewise_same;
  itself = bytewise_itself;
  flipped = bytewise_flipped;
  chained = bytewise_chained;
}

abbrev no_method : Operand → Operand → Option Bool
no_method l r = none

abbrev calls : Calls
calls = record {
  numlt = λ a b. ltb a b;
  numle = λ a b. ltb a (suc b);
  strcoll = bytewise;
  tm_lt = no_method;
  tm_le = no_method;
}

-- "a", "a\0b" and "b".
abbrev short : List ℕ
short = 97 ∷ []

abbrev zeroed : List ℕ
zeroed = 97 ∷ 0 ∷ 98 ∷ []

abbrev late : List ℕ
late = 98 ∷ []

zeroed_before : l_strcmp bytewise zeroed late ≡ some Ordering.lt
unfolding l_strcmp
zeroed_before = refl

l_strcmp-lexicographic_example :
    l_strcmp bytewise short zeroed ≡ some (lexicographic bytewise (chunks short) (chunks zeroed))
l_strcmp-lexicographic_example = l_strcmp-lexicographic bytewise short zeroed bytewise_same

lessthan_total_example :
    (Results calls bytewise-IsOrder short zeroed true true false false
      ⊎ (((short ≡ zeroed) × Results calls bytewise-IsOrder short zeroed false true false true)
          ⊎ Results calls bytewise-IsOrder short zeroed false false true true))
    × (lessthan calls (string short) (string zeroed) ≡ verdict true
        → lessthan calls (string zeroed) (string late) ≡ verdict true
        → lessthan calls (string short) (string late) ≡ verdict true)
lessthan_total_example = lessthan_total calls bytewise-IsOrder short zeroed late
