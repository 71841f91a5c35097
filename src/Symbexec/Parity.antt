-- ===== src/Symbexec/Parity.antt =====
-- Why `luaG_checkcode` (src/ldebug.c) counts the instructions before the target of a jump that look
-- like a SETLIST with its count in the next word: an even count means that the target is an
-- instruction, and not such a word.
use luarc.Prelude.{
  ℕ, zero, suc, ◌%◌, ◌≤◌, ◌<◌, ◌≡◌, refl, sym, true, false, some, List, [], ◌∷◌, length, get_elem?,
  ◌==◌, Bool-cases, inl, inr, arith,
}
use mathlib.Core.Path.{subst}
use luarc.Prelude.Int.{ℤ, pos, negsuc}
use luarc.Chunk.{Code}
use luarc.Opcodes.{Instruction}
use luarc.Checker.{
  check, ◌>>=◌, Check, passed, failed, fault, long_setlist, setlists_before, check_dest,
}
use luarc.Symbexec.Visited.{Visited, here, next, over}

-- Every position is one that the checking run comes to, or the count of a long SETLIST.
pub data Placed (code : List Instruction) (n : ℕ) : Type 0 where
  visited : Visited code 0 n → Placed code n
  counted :
      {m : ℕ} {i : Instruction}
      → n ≡ suc m
      → Visited code 0 m
      → get_elem? code m ≡ some i
      → long_setlist i ≡ true
      → Placed code n

pub get_elem?-lt :
    (code : List Instruction) (n : ℕ)
    → n < length code
    → (i : Instruction) × (get_elem? code n ≡ some i)
get_elem?-lt [] n h = absurd (omega arith)
get_elem?-lt (x ∷ xs) zero h = (x, refl)
get_elem?-lt (x ∷ xs) (suc n) h = get_elem?-lt xs n (omega arith)

placed_next :
    {code : List Instruction} {n : ℕ} {i : Instruction}
    → Placed code n
    → get_elem? code n ≡ some i
    → Placed code (suc n)
placed_next {i} (visited v) e = elim (Bool-cases (long_setlist i)) [
  | inl long ↦ counted refl v e long
  | inr short ↦ visited (next v e short)
]
placed_next {code} (counted same v e' long) e =
    visited (subst (λ n. Visited code 0 (suc n)) (sym same) (over v e' long))

pub placed : (code : List Instruction) (n : ℕ) → n ≤ length code → Placed code n
placed code zero h = visited here
placed code (suc n) h =
    let (i, e) = get_elem?-lt code n (omega arith) in placed_next (placed code n (omega arith)) e

-- A position whose predecessor is no long SETLIST is one that the run comes to.
pub short-Visited :
    {code : List Instruction} {n : ℕ} {i : Instruction}
    → Placed code n
    → get_elem? code n ≡ some i
    → long_setlist i ≡ false
    → Visited code 0 (suc n)
short-Visited (visited v) e short = next v e short
short-Visited {code} (counted same v e' long) e short =
    subst (λ n. Visited code 0 (suc n)) (sym same) (over v e' long)

setlists_before_short :
    (code : List Instruction) (d : ℕ) (i : Instruction)
    → get_elem? code d ≡ some i
    → long_setlist i ≡ false
    → setlists_before code (suc d) ≡ passed 0
unfolding setlists_before
setlists_before_short code d i e short = ground arith

counted_suc :
    (c : Check ℕ) {j : ℕ}
    → (c >>= λ k. passed (suc k)) ≡ passed j
    → (k : ℕ) × (c ≡ passed k) × (j ≡ suc k)
counted_suc (passed k) h = (k, refl, ground arith)
counted_suc failed h = cc
counted_suc fault h = cc

setlists_before_long :
    (code : List Instruction) (d : ℕ) (i : Instruction) {j : ℕ}
    → get_elem? code d ≡ some i
    → long_setlist i ≡ true
    → setlists_before code (suc d) ≡ passed j
    → (k : ℕ) × (setlists_before code d ≡ passed k) × (j ≡ suc k)
unfolding setlists_before
setlists_before_long code d i {j} e long h = counted_suc (setlists_before code d) (ground arith)

setlists_before-Visited :
    (code : List Instruction) (d : ℕ) {j : ℕ}
    → d ≤ length code
    → setlists_before code d ≡ passed j
    → j % 2 ≡ 0
    → Visited code 0 d
setlists_before-Visited code zero le h even = here
setlists_before-Visited code (suc zero) le h even =
    let (i, e) = get_elem?-lt code 0 (omega arith) in
    elim (Bool-cases (long_setlist i)) [
      | inl long ↦
          let (k, before, count) = setlists_before_long code 0 i e long h in
          absurd (unfold setlists_before in ground arith)
      | inr short ↦ next here e short
    ]
setlists_before-Visited code (suc (suc d)) le h even =
    let (i, e) = get_elem?-lt code (suc d) (omega arith) in
    elim (Bool-cases (long_setlist i)) [
      | inl long ↦
          let (k, before, count) = setlists_before_long code (suc d) i e long h in
          let (i', e') = get_elem?-lt code d (omega arith) in
          elim (Bool-cases (long_setlist i')) [
            | inl long' ↦
                let (k', before', count') = setlists_before_long code d i' e' long' before in
                over (setlists_before-Visited code d (omega arith) before' (omega arith)) e' long'
            | inr short' ↦ absurd (ground (arith, setlists_before_short code d i' e' short'))
          ]
      | inr short ↦ short-Visited (placed code (suc d) (omega arith)) e short
    ]

even_count :
    (c : Check ℕ)
    → (c >>= λ j. check (j % 2 == 0)) ≡ passed tt
    → (j : ℕ) × (c ≡ passed j) × (j % 2 ≡ 0)
even_count (passed j) h = (j, refl, ground arith)
even_count failed h = cc
even_count fault h = cc

-- A checked target of a jump is a position of the code that the run comes to.
pub check_dest-Visited :
    (f : Code) (z : ℤ)
    → check_dest f z ≡ passed tt
    → (q : ℕ) × (z ≡ pos q) × Visited f.code 0 q × (q < length f.code)
unfolding check_dest
check_dest-Visited f (negsuc n) h = cc
check_dest-Visited f (pos q) h =
    let inside : q < length f.code = ground arith in
    let (j, before, even) = even_count (setlists_before f.code q) (ground arith) in
    (q, refl, setlists_before-Visited f.code q (omega arith) before even, inside)
