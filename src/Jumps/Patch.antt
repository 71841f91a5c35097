-- ===== src/Jumps/Patch.antt =====
-- After `patchlistaux` (src/lcode.c) every jump of the list goes to its target.
use mathlib.Core.Path.{subst}
use luarc.Prelude.{
  ℕ, zero, suc, ◌<◌, ◌≤◌, ◌≡◌, ◌≢◌, inl, inr, refl, sym, ap, ◌∙◌, Bool, true, false, some, List, [],
  ◌∷◌, set, get_or, length, length-set, ◌==◌, if◌then◌else◌, Bool-cases, All, arith,
}
use luarc.Prelude.Int.{ℤ, pos}
use luarc.Opcodes.{Instruction, OpCode, number, maxarg_sbx, get_opcode, getarg_sbx}
use luarc.Jumps.{target, getjump, getjumpcontrol, patchtestreg, patchlistaux}
use luarc.Jumps.Chains.{Chain, ended, linked, Chain-Fixed, fixjump-Fixed}
use luarc.Jumps.Concat.{Distinct}

-- The instruction at a position is a jump.
abbrev pub IsJump : List Instruction → ℕ → Type 0
IsJump code p = get_opcode (get_or code p 0) ≡ number OpCode.op_jmp

get_or-set_other :
    (code : List Instruction) (c q : ℕ) (i : Instruction)
    → q ≢ c
    → get_or (set code c i) q 0 ≡ get_or code q 0
get_or-set_other [] c q i ne = refl
get_or-set_other (x ∷ xs) zero zero i ne = absurd (ne refl)
get_or-set_other (x ∷ xs) zero (suc q) i ne = refl
get_or-set_other (x ∷ xs) (suc c) zero i ne = refl
get_or-set_other (x ∷ xs) (suc c) (suc q) i ne = get_or-set_other xs c q i (λ e. ne (ap suc e))

-- Patching a test leaves every jump as it is.
record JumpsKept (code code' : List Instruction) : Type 0 where
  jumps : (q : ℕ) → IsJump code q → get_or code' q 0 ≡ get_or code q 0
  size : length code' ≡ length code

patchtestreg-JumpsKept :
    (code : List Instruction) (node reg : ℕ) → JumpsKept code (patchtestreg code node reg).0
unfolding patchtestreg number
patchtestreg-JumpsKept code node reg =
    let c : ℕ = getjumpcontrol code node in
    elim (Bool-cases (get_opcode (get_or code c 0) == 27)) [
      | inl testset ↦ rw (testset) (record {
        jumps = λ q jump. get_or-set_other code c q _ (λ e.
            let same : get_opcode (get_or code c 0) ≡ 22 =
              subst (λ k. get_opcode (get_or code k 0) ≡ 22) e jump in
            ground arith);
        size = length-set code c _;
      })
      | inr other ↦ rw (other) (record { jumps = λ q jump. refl; size = refl })
    ]

Chain-kept :
    {code code' : List Instruction} {l : ℤ} {xs : List ℕ}
    → JumpsKept code code'
    → All (IsJump code) xs
    → Chain code l xs
    → Chain code' l xs
unfolding getjump
Chain-kept k jumps ended = ended
Chain-kept {code' = code'} k jumps (linked {p} {xs} inside c) = linked (omega (arith, k.size)) (
    subst (λ i. Chain code' (target p (getarg_sbx i)) xs) (sym (k.jumps p jumps.0))
      (Chain-kept k jumps.1 c))

getjump-same :
    (code code' : List Instruction) (p : ℕ)
    → get_or code' p 0 ≡ get_or code p 0
    → getjump code' p ≡ getjump code p
unfolding getjump
getjump-same code code' p e = ap (λ i. target p (getarg_sbx i)) e

either_same : (b : Bool) (x : ℕ) → (if b then x else x) ≡ x
either_same true x = refl
either_same false x = refl

-- The jumps of `xs` go to `dest`, and every other jump is as it was.
pub record Patched (code : List Instruction) (xs : List ℕ) (dest : ℕ) (code' : List Instruction)
    : Type 0 where
  pub patched : All (λ p. getjump code' p ≡ pos dest) xs
  pub others : (q : ℕ) → IsJump code q → All (λ p. p ≢ q) xs → get_or code' q 0 ≡ get_or code q 0
  pub size : length code' ≡ length code

pub All-map : {P Q : ℕ → Type 0} (xs : List ℕ) → ((x : ℕ) → P x → Q x) → All P xs → All Q xs
All-map [] f h = tt
All-map (x ∷ xs) f h = (f x h.0, All-map xs f h.1)

-- `patchlistaux` with one target, which is how `luaK_patchlist` and `dischargejpc` call it: on a list
-- through `xs` that are jumps and are not the target, it succeeds, every jump of `xs` then goes to the
-- target, and every other jump is as it was. The conditions are code no longer than the largest offset
-- and a turn for each element of the list and one more.
pub patchlistaux-Patched :
    (fuel dest reg : ℕ) (code : List Instruction) (l : ℤ) (xs : List ℕ)
    → Chain code l xs
    → All (IsJump code) xs
    → Distinct xs
    → All (λ p. dest ≢ p) xs
    → dest ≤ length code
    → length code ≤ maxarg_sbx
    → length xs < fuel
    → (code' : List Instruction) × (patchlistaux fuel dest reg dest code l ≡ some code')
      × Patched code xs dest code'
unfolding patchlistaux
patchlistaux-Patched zero dest reg code l xs c jumps distinct apart near small enough =
    absurd (omega arith)
patchlistaux-Patched (suc fuel) dest reg code _ [] ended jumps distinct apart near small enough =
    (code, refl, record { patched = tt; others = λ q j h. refl; size = refl })
patchlistaux-Patched (suc fuel) dest reg code _ (p ∷ xs) (linked inside c) jumps distinct apart near
      small enough =
    let code1 = (patchtestreg code p reg).0 in
    let k = patchtestreg-JumpsKept code p reg in
    let (code2, fixed, f) =
      fixjump-Fixed code1 p dest (omega (arith, k.size)) (omega (arith, k.size))
        (omega (arith, k.size)) apart.0 in
    let still : (q : ℕ) → IsJump code q → IsJump code2 q =
      λ q j. f.opcodes q ∙ (ap get_opcode (k.jumps q j) ∙ j) in
    let (code', rest, r) =
      patchlistaux-Patched fuel dest reg code2 (getjump code p) xs
        (Chain-Fixed f distinct.0 (Chain-kept k jumps.1 c)) (All-map xs still jumps.1) distinct.1
        apart.1 (omega (arith, f.size, k.size)) (omega (arith, f.size, k.size)) (omega arith) in
    (
      code',
      rw (either_same (patchtestreg code p reg).1 dest, fixed) rest,
      record {
        patched = (
          getjump-same code2 code' p (r.others p (still p jumps.0) distinct.0) ∙ f.jumps,
          r.patched,
        );
        others =
            λ q j h. r.others q (still q j) h.1 ∙ (f.others q (λ e. h.0 (sym e)) ∙ k.jumps q j);
        size = r.size ∙ (f.size ∙ k.size);
      },
    )
