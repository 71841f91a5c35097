-- ===== src/Jumps/Pending.antt =====
-- The jumps that wait for the next instruction, in src/lcode.c: `luaK_patchtohere` adds a list to them,
-- and `dischargejpc`, before the next instruction is coded, lets them jump to it.
use luarc.Prelude.{
  ℕ, ◌<◌, ◌≤◌, ◌≡◌, ◌≢◌, refl, ap, ◌∙◌, Option, none, some, List, ◌++◌, length, length-append, All,
  arith,
}
use luarc.Prelude.Int.{ℤ, pos}
use luarc.Opcodes.{Instruction, maxarg_sbx, no_reg}
use luarc.Jumps.{no_jump, getjump, concat, patchlistaux}
use luarc.Jumps.Chains.{Chain, ended, linked}
use luarc.Jumps.Concat.{Distinct, concat-Chain}
use luarc.Jumps.Patch.{IsJump, patchlistaux-Patched, All-map}

-- The part of `FuncState` that the jump lists use: `pc` is the length of the code.
pub record FuncState : Type 0 where
  pub code : List Instruction
  pub jpc : ℤ
  pub lasttarget : ℕ

abbrev pub with_list : FuncState → Option (List Instruction × ℤ) → Option FuncState
with_list fs none = none
with_list fs (some (code, l)) = some (record fs { code = code; jpc = l })

-- `luaK_patchtohere`, with `luaK_getlabel`.
unfoldable pub patchtohere : (fuel : ℕ) → ℤ → FuncState → Option FuncState
patchtohere fuel list fs =
    with_list (record fs { lasttarget = length fs.code }) (concat fuel fs.code fs.jpc list)

abbrev pub without_list : FuncState → Option (List Instruction) → Option FuncState
without_list fs none = none
without_list fs (some code) = some (record fs { code = code; jpc = no_jump })

-- `dischargejpc`.
unfoldable pub dischargejpc : (fuel : ℕ) → FuncState → Option FuncState
dischargejpc fuel fs =
    without_list fs (patchlistaux fuel (length fs.code) no_reg (length fs.code) fs.code fs.jpc)

abbrev pub then_discharge : (fuel : ℕ) → Option FuncState → Option FuncState
then_discharge fuel none = none
then_discharge fuel (some fs) = dischargejpc fuel fs

Chain-inside :
    {code : List Instruction} {l : ℤ} {xs : List ℕ}
    → Chain code l xs
    → All (λ p. length code ≢ p) xs
Chain-inside ended = tt
Chain-inside (linked inside c) = ((λ e. omega (arith, e)), Chain-inside c)

-- Patching a list through `ys` to here, with the list of the pending jumps through `xs`, and then
-- discharging succeeds: every jump of both lists goes to the end of the code, no jump is pending, and
-- that position is marked as a target. The conditions are that no position is in the lists twice, that
-- they are jumps, code no longer than the largest offset, and fuel for each jump and one more.
pub dischargejpc-patchtohere :
    (fuel : ℕ) (fs : FuncState) (list : ℤ) (xs ys : List ℕ)
    → Chain fs.code fs.jpc xs
    → Chain fs.code list ys
    → Distinct (xs ++ ys)
    → All (IsJump fs.code) (xs ++ ys)
    → length fs.code ≤ maxarg_sbx
    → length (xs ++ ys) < fuel
    → (fs' : FuncState) × (then_discharge fuel (patchtohere fuel list fs) ≡ some fs')
      × All (λ p. getjump fs'.code p ≡ pos (length fs.code)) (xs ++ ys)
      × (fs'.jpc ≡ no_jump)
      × (fs'.lasttarget ≡ length fs.code)
unfolding patchtohere dischargejpc
dischargejpc-patchtohere fuel fs list xs ys c1 c2 distinct jumps small enough =
    let (r, joined, j) =
      concat-Chain fuel fs.code fs.jpc list xs ys c1 c2 distinct small
        (omega (arith, length-append xs ys)) in
    let still : (q : ℕ) → IsJump fs.code q → IsJump r.0 q = λ q is. j.opcodes q ∙ is in
    let (code', patched, p) =
      patchlistaux-Patched fuel (length r.0) no_reg r.0 r.1 (xs ++ ys) j.chain
        (All-map (xs ++ ys) still jumps) distinct (Chain-inside j.chain) (omega arith)
        (omega (arith, j.size)) enough in
    (
      record { code = code'; jpc = no_jump; lasttarget = length fs.code },
      rw (joined, patched) refl,
      All-map (xs ++ ys) (λ q goes. goes ∙ ap pos j.size) p.patched,
      refl,
      refl,
    )
