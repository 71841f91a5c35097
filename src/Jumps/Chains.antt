-- ===== src/Jumps/Chains.antt =====
-- Jump lists of src/lcode.c as the positions that they go through.
use mathlib.Core.Path.{subst}
use luarc.Prelude.{
  ℕ, zero, suc, ◌+◌, ◌-◌, ◌<◌, ◌≤◌, ◌≡◌, ◌≢◌, inl, inr, refl, sym, ap, ◌∙◌, false, some, List, [],
  ◌∷◌, set, get_or, length, length-set, leb, ltb, ◌==◌, if◌then◌else◌, Bool-cases, All, arith,
}
use luarc.Prelude.Int.{ℤ, pos, negsuc, pos_part, neg_part, sub_ℕ}
use luarc.Opcodes.{Instruction, maxarg_sbx, getarg_sbx, setarg_sbx, get_opcode}
use luarc.Opcodes.Fields.{getarg_sbx-setarg_sbx}
use luarc.Jumps.{no_jump, target, getjump, fixjump}

-- The list from a head goes through these positions, and ends.
pub data Chain (code : List Instruction) : ℤ → List ℕ → Type 0 where
  ended : Chain code no_jump []
  linked :
      {p : ℕ} {xs : List ℕ}
      → p < length code
      → Chain code (getjump code p) xs
      → Chain code (pos p) (p ∷ xs)

get_or-set :
    (code : List Instruction) (p q : ℕ) (i : Instruction)
    → p < length code
    → get_or (set code p i) q 0 ≡ (if q == p then i else get_or code q 0)
get_or-set [] p q i h = absurd (omega arith)
get_or-set (x ∷ xs) zero zero i h = refl
get_or-set (x ∷ xs) zero (suc q) i h = ground arith
get_or-set (x ∷ xs) (suc p) zero i h = ground arith
get_or-set (x ∷ xs) (suc p) (suc q) i h = ground (arith, get_or-set xs p q i)

-- What `fixjump` does to the code: the jump at `pc` goes to `dest`, and no other changes.
pub record Fixed (code : List Instruction) (pc dest : ℕ) (code' : List Instruction) : Type 0 where
  pub jumps : getjump code' pc ≡ pos dest
  pub others : (q : ℕ) → q ≢ pc → get_or code' q 0 ≡ get_or code q 0
  pub opcodes : (q : ℕ) → get_opcode (get_or code' q 0) ≡ get_opcode (get_or code q 0)
  pub size : length code' ≡ length code

sub_bound : (a b m : ℕ) → a ≤ b + m → b ≤ a + m → pos_part (sub_ℕ a b) + neg_part (sub_ℕ a b) ≤ m
sub_bound a b m hi lo = ground arith

target_neg : (pc k dest : ℕ) → 0 < k → pc ≡ k + dest → target pc (negsuc k) ≡ pos dest
target_neg pc zero dest h e = absurd (omega arith)
target_neg pc (suc k) dest h e = ground arith

target-back : (pc dest : ℕ) → dest ≢ pc → target pc (sub_ℕ dest (pc + 1)) ≡ pos dest
target-back pc dest ne = elim (Bool-cases (leb (pc + 1) dest)) [
  | inl ahead ↦ rw (ahead) (ground arith)
  | inr back ↦
      let differs : 0 < pc + 1 - dest - 1 = ground arith in
      rw (back) (target_neg pc (pc + 1 - dest - 1) dest differs (ground arith))
]

set-Fixed :
    (code : List Instruction) (pc dest : ℕ) (i : Instruction)
    → pc < length code
    → target pc (getarg_sbx i) ≡ pos dest
    → get_opcode i ≡ get_opcode (get_or code pc 0)
    → Fixed code pc dest (set code pc i)
unfolding getjump
set-Fixed code pc dest i inside goes same =
    let written : get_or (set code pc i) pc 0 ≡ i =
      ground (arith, get_or-set code pc pc i inside) in
    record {
      jumps = rw (written) goes;
      others = λ q other. ground (arith, get_or-set code pc q i inside);
      opcodes = λ q. elim (Bool-cases (q == pc)) [
        | inl at ↦ let here : q ≡ pc = ground arith in rw (here) (ap get_opcode written ∙ same)
        | inr ne ↦
            let there : get_or (set code pc i) q 0 ≡ get_or code q 0 =
              ground (arith, get_or-set code pc q i inside) in
            ap get_opcode there
      ];
      size = length-set code pc i;
    }

pub getjump-others :
    {code code' : List Instruction} {pc dest : ℕ}
    → Fixed code pc dest code'
    → (q : ℕ) → q ≢ pc
    → getjump code' q ≡ getjump code q
unfolding getjump
getjump-others f q other = ap (λ i. target q (getarg_sbx i)) (f.others q other)

-- Where no position of a list is `pc`, fixing the jump at `pc` keeps the list.
pub Chain-Fixed :
    {code code' : List Instruction} {pc dest : ℕ} {l : ℤ} {xs : List ℕ}
    → Fixed code pc dest code'
    → All (λ p. p ≢ pc) xs
    → Chain code l xs
    → Chain code' l xs
unfolding getjump
Chain-Fixed f apart ended = ended
Chain-Fixed {code' = code'} f apart (linked {p} {xs} inside c) = linked (omega (arith, f.size)) (
    subst (λ i. Chain code' (target p (getarg_sbx i)) xs) (sym (f.others p apart.0))
      (Chain-Fixed f apart.1 c))

pub fixjump-Fixed :
    (code : List Instruction) (pc dest : ℕ)
    → pc < length code
    → length code ≤ maxarg_sbx
    → dest ≤ length code
    → dest ≢ pc
    → (code' : List Instruction) × (fixjump code pc dest ≡ some code') × Fixed code pc dest code'
unfolding fixjump
fixjump-Fixed code pc dest inside small near ne =
    let offset = sub_ℕ dest (pc + 1) in
    let i : Instruction = get_or code pc 0 in
    let bound = sub_bound dest (pc + 1) maxarg_sbx (omega arith) (omega arith) in
    let fits : ltb maxarg_sbx (pos_part offset + neg_part offset) ≡ false = ground arith in
    let read = getarg_sbx-setarg_sbx i offset (omega (arith, bound)) (omega (arith, bound)) in
    (
      set code pc (setarg_sbx i offset),
      rw (fits) refl,
      set-Fixed code pc dest (setarg_sbx i offset) inside
          (ap (target pc) read.0 ∙ target-back pc dest ne) read.1,
    )
