-- ===== src/Symbexec/Examples.antt =====
-- Functions that src/ldebug.c checks.
use luarc.Prelude.{
  ℕ, zero, suc, ◌≤◌, ◌≡◌, ◌≢◌, refl, true, false, none, some, List, [], ◌∷◌, ◌++◌, inl, arith,
  get_elem?, All, All,
}
use luarc.Prelude.Int.{pos}
use luarc.Chunk.{Code, proto, end}
use luarc.Opcodes.{
  Instruction, create_abc, create_abx, number, OpCode, decode, getarg_c, get_opcode, getarg_a,
  getarg_b, getarg_bx, opmodes, isk, indexk,
}
use luarc.Checker.{
  fault, precheck, check_operands, check_arg_mode, check_skip, check_dest, setlists_before,
  check_upvalues,
}
use luarc.Control.{Reaches, start, step, next_pcs, loadbool_next, test_next}
use luarc.Symbexec.{checkcode, symbexec, scan, round, switch, trace_jump}
use luarc.Dump.{dump}
use luarc.Undump.RoundTrip.{Loads, LoadsAll, undump-dump}
use luarc.Undump.Saved.{saved_function, saved_protos}
use luarc.Undump.Examples.{chunk, inner-IsCode, outer-IsCode}
use luarc.Undump.Accepted.{AllFunctions, undump-AllFunctions}
use luarc.Symbexec.Reads.{symbexec-ne-fault}
use luarc.Symbexec.Uses.{Executable}
use luarc.Symbexec.Skips.{skipping, of_code, skips-leaves}
use luarc.Symbexec.Captures.{Captures}
use luarc.Symbexec.Flow.{checkcode-Executable, HasPlainLoadbools, IsNoCount}

-- LOADBOOL 0 1 0; TEST 0 0; JMP to the RETURN; SETLIST with its count in the next word; RETURN.
abbrev branching : Code
branching = of_code (
    create_abc 2 0 1 0
    ∷ create_abc 26 0 0 0
    ∷ create_abx 22 0 131073
    ∷ create_abc 34 0 1 0
    ∷ 99
    ∷ create_abc 30 0 1 0
    ∷ [])

accepts_branching : checkcode (proto branching end) ≡ true
unfolding checkcode symbexec scan round switch precheck check_operands check_arg_mode check_skip
    check_dest setlists_before create_abc create_abx decode getarg_c get_opcode getarg_a getarg_b
    getarg_bx opmodes isk indexk number trace_jump
accepts_branching = refl

symbexec-ne-fault_example : symbexec branching end 3 0 ≢ fault
symbexec-ne-fault_example = symbexec-ne-fault branching end 3 0 (omega arith)

All-plain :
    (xs : List Instruction) (pc : ℕ) (i : Instruction)
    → All (λ x. getarg_c x ≤ 1) xs
    → get_elem? xs pc ≡ some i
    → getarg_c i ≤ 1
All-plain [] pc i h e = absurd (cc)
All-plain (x ∷ xs) zero i h e = ground (arith, h.0)
All-plain (x ∷ xs) (suc pc) i h e = All-plain xs pc i h.1 e

branching-plain : HasPlainLoadbools branching
unfolding getarg_c create_abc create_abx
branching-plain pc i e d = All-plain branching.code pc i (omega arith) e

branching-Reaches : Reaches branching end (pos 3)
unfolding next_pcs loadbool_next test_next create_abc create_abx decode get_opcode getarg_c
    getarg_bx
branching-Reaches =
    step {pc = 1} {op = OpCode.op_test}
      (step {pc = 0} {op = OpCode.op_loadbool} start refl refl (inl refl)) refl refl (inl refl)

checkcode-Executable_example :
    (pc : ℕ) × (pos 3 ≡ pos pc)
    × Executable branching end pc
    × Captures branching end pc
    × IsNoCount branching end pc
checkcode-Executable_example =
    checkcode-Executable branching end (pos 3) accepts_branching branching-plain branching-Reaches

skips-leaves_example :
    (checkcode (proto (skipping 2) end) ≡ true)
    × Reaches (skipping 2) end (pos 2)
    × (get_elem? (skipping 2).code 2 ≡ none)
skips-leaves_example = skips-leaves 2 (omega arith) (omega arith)

chunk-Loads : Loads checkcode false 2 chunk
unfolding Loads LoadsAll saved_function saved_protos checkcode symbexec scan round switch precheck
    check_operands check_arg_mode check_skip check_upvalues decode getarg_c get_opcode getarg_a
    getarg_b getarg_bx opmodes isk indexk number
chunk-Loads = (outer-IsCode, omega arith, refl, ((inner-IsCode, omega arith, refl, tt), tt))

undump-AllFunctions_example : AllFunctions checkcode (saved_function false chunk)
undump-AllFunctions_example =
    undump-AllFunctions checkcode 2 (dump false chunk ++ 7 ∷ [])
      (undump-dump checkcode false 2 chunk chunk-Loads (7 ∷ []))
