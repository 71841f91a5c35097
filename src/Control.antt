-- ===== src/Control.antt =====
-- The control flow of `luaV_execute`, src/lvm.c: where the `pc` of the interpreter may stand after an
-- instruction, whatever the values are. A read of an instruction that is not there leads off the code.
use luarc.Prelude.{ℕ, ◌+◌, ◌≡◌, ◌⊎◌, none, some, List, [], ◌∷◌, get_elem?, ◌==◌, if◌then◌else◌}
use luarc.Prelude.Int.{ℤ, pos, negsuc}
use luarc.Chunk.{Code, Protos}
use luarc.Opcodes.{Instruction, getarg_c, getarg_bx, OpCode, decode}
use luarc.Checker.{Check, passed, failed, fault, read_nups, jump_dest}

abbrev off_code : ℤ
off_code = negsuc 0

-- OP_LOADBOOL.
unfoldable pub loadbool_next : (pc : ℕ) → Instruction → List ℤ
loadbool_next pc i = if getarg_c i == 0 then pos (pc + 1) ∷ [] else pos (pc + 2) ∷ []

-- The tests and OP_TFORLOOP: the jump after them, or past it.
unfoldable pub test_next : Code → (pc : ℕ) → List ℤ
test_next f pc =
    pos (pc + 2)
    ∷ elim (get_elem? f.code (pc + 1)) [ none ↦ off_code | some j ↦ jump_dest (pc + 1) j ]
    ∷ []

-- OP_FORLOOP.
unfoldable pub forloop_next : (pc : ℕ) → Instruction → List ℤ
forloop_next pc i = pos (pc + 1) ∷ jump_dest pc i ∷ []

-- OP_SETLIST.
unfoldable pub setlist_next : (pc : ℕ) → Instruction → List ℤ
setlist_next pc i = if getarg_c i == 0 then pos (pc + 2) ∷ [] else pos (pc + 1) ∷ []

-- OP_CLOSURE: past an instruction for each upvalue.
abbrev pub past_upvalues : (pc : ℕ) → Check ℕ → List ℤ
past_upvalues pc (passed nup) = pos (pc + 1 + nup) ∷ []
past_upvalues pc failed = off_code ∷ []
past_upvalues pc fault = off_code ∷ []

unfoldable pub closure_next : Protos → (pc : ℕ) → Instruction → List ℤ
closure_next ps pc i = past_upvalues pc (read_nups ps (getarg_bx i))

-- Where the interpreter's `pc` may stand after an instruction; a RETURN leaves the function.
unfoldable pub next_pcs : Code → Protos → (pc : ℕ) → Instruction → OpCode → List ℤ
unfolding loadbool_next test_next forloop_next setlist_next closure_next
next_pcs f ps pc i OpCode.op_loadbool = loadbool_next pc i
next_pcs f ps pc i OpCode.op_jmp = jump_dest pc i ∷ []
next_pcs f ps pc i OpCode.op_forprep = jump_dest pc i ∷ []
next_pcs f ps pc i OpCode.op_forloop = forloop_next pc i
next_pcs f ps pc i OpCode.op_eq = test_next f pc
next_pcs f ps pc i OpCode.op_lt = test_next f pc
next_pcs f ps pc i OpCode.op_le = test_next f pc
next_pcs f ps pc i OpCode.op_test = test_next f pc
next_pcs f ps pc i OpCode.op_testset = test_next f pc
next_pcs f ps pc i OpCode.op_tforloop = test_next f pc
next_pcs f ps pc i OpCode.op_setlist = setlist_next pc i
next_pcs f ps pc i OpCode.op_closure = closure_next ps pc i
next_pcs f ps pc i OpCode.op_return = []
next_pcs f ps pc i _ = pos (pc + 1) ∷ []

abbrev pub IsAmong : ℤ → List ℤ → Type 0
IsAmong z [] = ⊥
IsAmong z (x ∷ xs) = (z ≡ x) ⊎ IsAmong z xs

-- Where a run of the function may come to.
pub data Reaches (f : Code) (ps : Protos) : ℤ → Type 0 where
  start : Reaches f ps (pos 0)
  step :
      {pc : ℕ} {i : Instruction} {op : OpCode} {z : ℤ}
      → Reaches f ps (pos pc)
      → get_elem? f.code pc ≡ some i
      → decode i ≡ some op
      → IsAmong z (next_pcs f ps pc i op)
      → Reaches f ps z
