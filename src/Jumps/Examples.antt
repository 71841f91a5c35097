-- ===== src/Jumps/Examples.antt =====
-- Two jump lists of src/lcode.c: the second jump goes on to the first; the third is alone.
use luarc.Prelude.{All, ◌+◌, ◌*◌, ◌≡◌, refl, some, List, [], ◌∷◌, arith}
use luarc.Prelude.Int.{ℤ, pos}
use luarc.Opcodes.{
  Instruction, getarg_sbx, setarg_sbx, setarg_bx, getarg_bx, no_reg, get_opcode, decode, opmodes,
  number, create_abc, getarg_b, getarg_c,
}
use luarc.Jumps.Pending.{FuncState, patchtohere, then_discharge, dischargejpc-patchtohere}
use luarc.Jumps.Patch.{Patched, patchlistaux-Patched}
use luarc.Jumps.{
  no_jump, getjump, fixjump, last_jump, concat, getjumpcontrol, patchtestreg, patchlistaux,
}
use luarc.Jumps.Chains.{Chain, ended, linked}
use luarc.Jumps.Concat.{Joined, concat-Chain}

-- `JMP` with an offset of -1, which ends a list, and with one of -2, which goes to the one before.
abbrev jmp_end : Instruction
jmp_end = 22 + 131070 * 16384

abbrev jmp_back : Instruction
jmp_back = 22 + 131069 * 16384

abbrev waiting : List Instruction
waiting = jmp_end ∷ jmp_back ∷ jmp_end ∷ []

joined_list :
    concat 3 waiting (pos 1) (pos 2) ≡ some ((22 + 131072 * 16384) ∷ jmp_back ∷ jmp_end ∷ [], pos 1)
unfolding concat last_jump getjump fixjump getarg_sbx setarg_sbx setarg_bx getarg_bx
joined_list = refl

two-Chain : Chain waiting (pos 1) (1 ∷ 0 ∷ [])
unfolding getjump getarg_sbx getarg_bx
two-Chain = linked (omega arith) (linked (omega arith) ended)

one-Chain : Chain waiting (pos 2) (2 ∷ [])
unfolding getjump getarg_sbx getarg_bx
one-Chain = linked (omega arith) ended

concat-Chain_example :
    (r : List Instruction × ℤ) × (concat 3 waiting (pos 1) (pos 2) ≡ some r)
    × Joined waiting (1 ∷ 0 ∷ 2 ∷ []) r
concat-Chain_example =
    concat-Chain 3 waiting (pos 1) (pos 2) (1 ∷ 0 ∷ []) (2 ∷ []) two-Chain one-Chain
      (
        ((λ e. omega (arith, e)), ((λ e. omega (arith, e)), tt)),
        (((λ e. omega (arith, e)), tt), (tt, tt)),
      )
      (omega arith) (omega arith)

-- A TESTSET of registers 1 and 2 before the jump of a list of one, patched to here.
abbrev guarded : List Instruction
guarded = (27 + 1 * 64 + 2 * 8388608) ∷ jmp_end ∷ []

guarded-Chain : Chain guarded (pos 1) (1 ∷ [])
unfolding getjump getarg_sbx getarg_bx
guarded-Chain = linked (omega arith) ended

-- The test becomes a TEST of register 2, and the jump goes on to the next instruction.
patched_test :
    patchlistaux 2 2 no_reg 2 guarded (pos 1) ≡ some ((26 + 2 * 64) ∷ (22 + 131071 * 16384) ∷ [])
unfolding patchlistaux patchtestreg getjumpcontrol fixjump getjump getarg_sbx setarg_sbx setarg_bx
    getarg_bx get_opcode decode opmodes number create_abc getarg_b getarg_c
patched_test = refl

patchlistaux-Patched_example :
    (code' : List Instruction) × (patchlistaux 2 2 no_reg 2 guarded (pos 1) ≡ some code')
    × Patched guarded (1 ∷ []) 2 code'
patchlistaux-Patched_example =
    patchlistaux-Patched 2 2 no_reg guarded (pos 1) (1 ∷ []) guarded-Chain
      ((unfold get_opcode number in refl), tt) (tt, tt) ((λ e. omega (arith, e)), tt) (omega arith)
      (omega arith) (omega arith)

-- A jump that waits for the next instruction, and a list of one that is patched to it.
abbrev two_pending : FuncState
two_pending = record { code = jmp_end ∷ jmp_end ∷ []; jpc = pos 0; lasttarget = 0 }

first-Chain : Chain two_pending.code (pos 0) (0 ∷ [])
unfolding getjump getarg_sbx getarg_bx
first-Chain = linked (omega arith) ended

second-Chain : Chain two_pending.code (pos 1) (1 ∷ [])
unfolding getjump getarg_sbx getarg_bx
second-Chain = linked (omega arith) ended

dischargejpc-patchtohere_example :
    (fs' : FuncState) × (then_discharge 3 (patchtohere 3 (pos 1) two_pending) ≡ some fs')
    × All (λ p. getjump fs'.code p ≡ pos 2) (0 ∷ 1 ∷ [])
    × (fs'.jpc ≡ no_jump)
    × (fs'.lasttarget ≡ 2)
dischargejpc-patchtohere_example =
    dischargejpc-patchtohere 3 two_pending (pos 1) (0 ∷ []) (1 ∷ []) first-Chain second-Chain
      (((λ e. omega (arith, e)), tt), (tt, tt))
      ((unfold get_opcode number in refl), ((unfold get_opcode number in refl), tt)) (omega arith)
      (omega arith)
