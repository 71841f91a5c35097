-- ===== src/Symbexec/Flow.antt =====
-- Where `luaV_execute` (src/lvm.c) goes from an instruction of a function that `luaG_checkcode`
-- (src/ldebug.c) accepts.
use luarc.Prelude.{
  lt_of_get_elem?, ◌-◌, sym, ap, ◌∙◌, ℕ, ◌≤◌, ◌<◌, suc, ◌≡◌, ◌≢◌, refl, true, some, length,
  get_elem?, arith,
}
use mathlib.Core.Path.{subst}
use luarc.Prelude.Int.{ℤ, pos}
use luarc.Chunk.{Code, Protos, proto}
use luarc.Opcodes.{Instruction, getarg_c, OpCode, decode}
use luarc.Symbexec.{checkcode}
use luarc.Control.{IsAmong, Reaches, start, step, next_pcs}
use luarc.Symbexec.Operands.{EndsInReturn, precheck-EndsInReturn}
use luarc.Symbexec.Visited.{Visited, here, Checked, checkcode-Checked}
use luarc.Symbexec.Uses.{Executable, Checked-Executable}
use luarc.Symbexec.Captures.{Captures, visited-Captures, count-Visited}
use luarc.Checker.{long_setlist}
use luarc.Symbexec.Lands.{Lands, lands}

-- Where every LOADBOOL of the code that skips an instruction says so by a 1.
abbrev pub HasPlainLoadbools : Code → Type 0
HasPlainLoadbools f =
    (pc : ℕ) (i : Instruction)
    → get_elem? f.code pc ≡ some i
    → decode i ≡ some OpCode.op_loadbool
    → getarg_c i ≤ 1

not_empty : (f : Code) → EndsInReturn f → 0 < length f.code
not_empty f (i, e, ret) = omega (arith, lt_of_get_elem? f.code (length f.code - 1) i e)

Checked-Lands :
    (f : Code) (ps : Protos) (pc : ℕ) (i : Instruction) (op : OpCode) (z : ℤ)
    → EndsInReturn f
    → ((q : ℕ) → Visited f.code 0 q → q < length f.code → Checked f ps (length f.code) q)
    → HasPlainLoadbools f
    → Checked f ps (length f.code) pc
    → Visited f.code 0 pc
    → get_elem? f.code pc ≡ some i
    → decode i ≡ some op
    → IsAmong z (next_pcs f ps pc i op)
    → Lands f z
Checked-Lands f ps pc i op z ends all plain c v at_pc is_op among =
    let same_i : c.instr ≡ i = cc (c.at_pc) in
    let same_op : c.op ≡ op = cc (c.decodes) in
    let among' =
      subst (λ o. IsAmong z (next_pcs f ps pc c.instr o)) (sym same_op)
        (subst (λ j. IsAmong z (next_pcs f ps pc j op)) (sym same_i) among) in
    lands f ps ends (length f.code) pc c.last c.instr z c.result all v c.at_pc c.op c.decodes
      c.operands c.skip c.switched (λ e. plain pc c.instr c.at_pc (c.decodes ∙ ap some e)) among'

Reaches-Lands :
    (f : Code) (ps : Protos) (z : ℤ)
    → EndsInReturn f
    → ((q : ℕ) → Visited f.code 0 q → q < length f.code → Checked f ps (length f.code) q)
    → HasPlainLoadbools f
    → Reaches f ps z
    → Lands f z
Reaches-Lands f ps z ends all plain start = (0, refl, here, not_empty f ends)
Reaches-Lands f ps z ends all plain (step {pc} {i} {op} r at_pc is_op among) =
    let (q, same, v, inside) = Reaches-Lands f ps (pos pc) ends all plain r in
    let v' : Visited f.code 0 pc = subst (Visited f.code 0) (ground arith) v in
    Checked-Lands f ps pc i op z ends all plain (all pc v' (ground arith)) v' at_pc is_op among

-- That a run comes to no word that a long SETLIST, to which a run comes, has its count in.
abbrev pub IsNoCount : Code → Protos → ℕ → Type 0
IsNoCount f ps pc =
    (m : ℕ) (i : Instruction)
    → Reaches f ps (pos m)
    → get_elem? f.code m ≡ some i
    → long_setlist i ≡ true
    → pc ≢ suc m

-- In a function that the checker accepts, and whose LOADBOOL instructions skip by a C of 1 only, the
-- interpreter never leaves the code and never takes the count of a SETLIST for an instruction: wherever it
-- comes to, there is an instruction with an opcode, the function has the registers, constants,
-- upvalues and nested functions that it uses, but for the last two of the three registers that the
-- call of a TFORLOOP takes, which may be as many past the end, and the function has the upvalues and
-- registers that a CLOSURE captures.
pub checkcode-Executable :
    (f : Code) (ps : Protos) (z : ℤ)
    → checkcode (proto f ps) ≡ true
    → HasPlainLoadbools f
    → Reaches f ps z
    → (pc : ℕ) × (z ≡ pos pc) × Executable f ps pc × Captures f ps pc × IsNoCount f ps pc
checkcode-Executable f ps z ok plain r =
    let (pre, all) = checkcode-Checked f ps ok in
    let ends = precheck-EndsInReturn f pre in
    let (pc, same, v, inside) = Reaches-Lands f ps z ends all plain r in
    (
      pc,
      same,
      Checked-Executable (all pc v inside),
      visited-Captures f ps (length f.code) ends all pc v inside,
      λ m i reached at_m long.
          let (q, same', w, _) = Reaches-Lands f ps (pos m) ends all plain reached in
          let w' : Visited f.code 0 m = subst (Visited f.code 0) (ground arith) w in
          count-Visited f.code m i pc w' at_m long v,
    )
