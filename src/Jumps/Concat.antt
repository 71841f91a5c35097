-- ===== src/Jumps/Concat.antt =====
-- `luaK_concat` of src/lcode.c appends one jump list to another.
use mathlib.Core.Path.{subst}
use mathlib.Core.List.{append-nil}
use luarc.Prelude.{
  ℕ, zero, suc, ◌<◌, ◌≤◌, ◌≡◌, ◌≢◌, refl, sym, ◌∙◌, some, List, [], ◌∷◌, ◌++◌, get_or, length, All,
  arith,
}
use luarc.Prelude.Int.{ℤ, pos}
use luarc.Opcodes.{Instruction, maxarg_sbx, get_opcode}
use luarc.Jumps.{getjump, last_jump, concat}
use luarc.Jumps.Chains.{Chain, ended, linked, Fixed, Chain-Fixed, fixjump-Fixed, getjump-others}

-- No position stands in the list twice.
abbrev pub Distinct : List ℕ → Type 0
Distinct [] = Unit {0}
Distinct (x ∷ xs) = All (λ y. y ≢ x) xs × Distinct xs

-- The last of a position and those after it.
last_of : ℕ → List ℕ → ℕ
last_of x [] = x
last_of x (y ∷ ys) = last_of y ys

last_jump-Chain :
    (code : List Instruction) (fuel list : ℕ) (next : ℤ) (xs : List ℕ)
    → Chain code next xs
    → length xs < fuel
    → last_jump code fuel list next ≡ some (last_of list xs)
unfolding last_jump last_of
last_jump-Chain code zero list next xs c le = absurd (omega arith)
last_jump-Chain code (suc fuel) list _ [] ended le = refl
last_jump-Chain code (suc fuel) list _ (p ∷ xs) (linked inside c) le =
    last_jump-Chain code fuel p (getjump code p) xs c (omega arith)

last_apart : (x y : ℕ) (ys : List ℕ) → All (λ z. z ≢ x) (y ∷ ys) → last_of y ys ≢ x
unfolding last_of
last_apart x y [] h = h.0
last_apart x y (z ∷ zs) h = last_apart x z zs h.1

after_last : (x : ℕ) (xs ys : List ℕ) → Distinct (x ∷ xs ++ ys) → All (λ y. y ≢ last_of x xs) ys
unfolding last_of
after_last x [] ys h = h.0
after_last x (z ∷ zs) ys h = after_last z zs ys h.1

All-prefix : (P : ℕ → Type 0) (xs ys : List ℕ) → All P (xs ++ ys) → All P xs
All-prefix P [] ys h = tt
All-prefix P (x ∷ xs) ys h = (h.0, All-prefix P xs ys h.1)

last-inside :
    (code : List Instruction) (a : ℕ) (next : ℤ) (xs : List ℕ)
    → a < length code
    → Chain code next xs
    → last_of a xs < length code
unfolding last_of
last-inside code a _ [] inside ended = inside
last-inside code a _ (p ∷ xs) inside (linked there c) = last-inside code p _ xs there c

-- The first list, fixed at its last jump, goes on into the second.
joined :
    (code code' : List Instruction) (a b : ℕ) (next : ℤ) (xs ys : List ℕ)
    → getjump code a ≡ next
    → a < length code
    → Chain code next xs
    → Fixed code (last_of a xs) b code'
    → Chain code' (pos b) ys
    → Distinct (a ∷ xs ++ ys)
    → Chain code' (pos a) (a ∷ xs ++ ys)
unfolding last_of
joined code code' a b _ [] ys e inside ended f tail' distinct =
    linked (omega (arith, f.size)) (subst (λ l. Chain code' l ys) (sym f.jumps) tail')
joined code code' a b _ (p ∷ xs) ys e inside (linked there c) f tail' distinct =
    let apart : a ≢ last_of p xs =
      λ same. last_apart a p xs (All-prefix _ (p ∷ xs) ys distinct.0) (sym same) in
    let kept : getjump code' a ≡ pos p = getjump-others f a apart ∙ e in
    linked (omega (arith, f.size)) (
      subst (λ l. Chain code' l (p ∷ xs ++ ys)) (sym kept)
        (joined code code' p b _ xs ys refl there c f tail' distinct.1))

-- What `luaK_concat` gives: a list that goes through the positions of both, over code of the same size
-- and with the same opcodes.
pub record Joined (code : List Instruction) (xs : List ℕ) (r : List Instruction × ℤ) : Type 0 where
  pub chain : Chain r.0 r.1 xs
  pub opcodes : (q : ℕ) → get_opcode (get_or r.0 q 0) ≡ get_opcode (get_or code q 0)
  pub size : length r.0 ≡ length code

-- `luaK_concat` of a list through `xs` and a list through `ys`, no position being in them twice,
-- succeeds with a list through `xs` and then `ys`, and changes no opcode. The conditions are code no
-- longer than the largest offset and a turn of its loop for each element of the first list.
pub concat-Chain :
    (fuel : ℕ) (code : List Instruction) (l1 l2 : ℤ) (xs ys : List ℕ)
    → Chain code l1 xs
    → Chain code l2 ys
    → Distinct (xs ++ ys)
    → length code ≤ maxarg_sbx
    → length xs ≤ fuel
    → (r : List Instruction × ℤ) × (concat fuel code l1 l2 ≡ some r) × Joined code (xs ++ ys) r
unfolding concat
concat-Chain fuel code l1 _ xs [] c1 ended distinct small enough = (
  (code, l1),
  refl,
  record {
    chain = subst (Chain code l1) (sym (append-nil xs)) c1;
    opcodes = λ q. refl;
    size = refl;
  },
)
concat-Chain fuel code _ _ [] (b ∷ ys) ended (linked inside c2) distinct small enough =
    ((code, pos b), refl, record { chain = linked inside c2; opcodes = λ q. refl; size = refl })
concat-Chain fuel code _ _ (a ∷ xs) (b ∷ ys) (linked inside c1) (linked inside2 c2) distinct small
      enough =
    let apart = after_last a xs (b ∷ ys) distinct in
    let found = last_jump-Chain code fuel a (getjump code a) xs c1 (omega arith) in
    let (code', fixed, f) =
      fixjump-Fixed code (last_of a xs) b (last-inside code a _ xs inside c1) small (omega arith)
        apart.0 in
    (
      (code', pos a),
      rw (found, fixed) refl,
      record {
        chain =
            joined code code' a b _ xs (b ∷ ys) refl inside c1 f
              (Chain-Fixed f apart (linked inside2 c2)) distinct;
        opcodes = f.opcodes;
        size = f.size;
      },
    )
