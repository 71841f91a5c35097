-- ===== src/Symbexec/Uses.antt =====
-- The registers, constants, upvalues and nested functions that the interpreter (src/lvm.c) uses when it
-- executes an instruction that `luaG_checkcode` (src/ldebug.c) has checked.
use mathlib.Core.Path.{subst}
use luarc.Prelude.{
  ℕ, ◌+◌, ◌≤◌, ◌<◌, ◌≡◌, ◌⊎◌, true, false, some, length, get_elem?, inl, inr, Option-cases, arith,
}
use luarc.Chunk.{Constant, Code, Protos, length_protos}
use luarc.Opcodes.{
  Instruction, getarg_a, getarg_b, getarg_c, getarg_bx, isk, indexk, no_reg, decode, OpCode,
  opmodes,
}
use luarc.Checker.{◌>>=◌, ◌>>◌, check, passed, read, check_operands, check_arg_mode, is_string}
use luarc.Symbexec.{switch, check_call}
use luarc.Symbexec.Visited.{Checked}

-- A register or a constant of the function.
abbrev IsOperand : Code → ℕ → Type 0
IsOperand f r =
    ((isk r ≡ true) × (indexk r < length f.k)) ⊎ ((isk r ≡ false) × (r < f.maxstacksize))

abbrev IsGlobal : Code → ℕ → Type 0
IsGlobal f b = (k : Constant) × (get_elem? f.k b ≡ some k) × (is_string k ≡ true)

-- What the cases of `luaV_execute` read and write, but for what an open call or `...` leaves on top and
-- what a CLOSURE captures. The call of a TFORLOOP, at three registers from `A + 3`, is only known to
-- be within two of the end of the registers.
abbrev pub Fits : Code → Protos → Instruction → OpCode → Type 0
Fits f ps i OpCode.op_move = getarg_b i < f.maxstacksize
Fits f ps i OpCode.op_loadk = getarg_bx i < length f.k
Fits f ps i OpCode.op_loadnil = getarg_b i < f.maxstacksize
Fits f ps i OpCode.op_getupval = getarg_b i < f.nups
Fits f ps i OpCode.op_setupval = getarg_b i < f.nups
Fits f ps i OpCode.op_getglobal = IsGlobal f (getarg_bx i)
Fits f ps i OpCode.op_setglobal = IsGlobal f (getarg_bx i)
Fits f ps i OpCode.op_gettable = (getarg_b i < f.maxstacksize) × IsOperand f (getarg_c i)
Fits f ps i OpCode.op_settable = IsOperand f (getarg_b i) × IsOperand f (getarg_c i)
Fits f ps i OpCode.op_self =
    (getarg_a i + 1 < f.maxstacksize) × (getarg_b i < f.maxstacksize) × IsOperand f (getarg_c i)
Fits f ps i OpCode.op_add = IsOperand f (getarg_b i) × IsOperand f (getarg_c i)
Fits f ps i OpCode.op_sub = IsOperand f (getarg_b i) × IsOperand f (getarg_c i)
Fits f ps i OpCode.op_mul = IsOperand f (getarg_b i) × IsOperand f (getarg_c i)
Fits f ps i OpCode.op_div = IsOperand f (getarg_b i) × IsOperand f (getarg_c i)
Fits f ps i OpCode.op_mod = IsOperand f (getarg_b i) × IsOperand f (getarg_c i)
Fits f ps i OpCode.op_pow = IsOperand f (getarg_b i) × IsOperand f (getarg_c i)
Fits f ps i OpCode.op_eq = IsOperand f (getarg_b i) × IsOperand f (getarg_c i)
Fits f ps i OpCode.op_lt = IsOperand f (getarg_b i) × IsOperand f (getarg_c i)
Fits f ps i OpCode.op_le = IsOperand f (getarg_b i) × IsOperand f (getarg_c i)
Fits f ps i OpCode.op_unm = getarg_b i < f.maxstacksize
Fits f ps i OpCode.op_not = getarg_b i < f.maxstacksize
Fits f ps i OpCode.op_len = getarg_b i < f.maxstacksize
Fits f ps i OpCode.op_concat = (getarg_b i < getarg_c i) × (getarg_c i < f.maxstacksize)
Fits f ps i OpCode.op_test = getarg_b i < f.maxstacksize
Fits f ps i OpCode.op_testset = getarg_b i < f.maxstacksize
Fits f ps i OpCode.op_call =
    (getarg_a i + getarg_b i ≤ f.maxstacksize) × (getarg_a i + getarg_c i ≤ f.maxstacksize + 1)
Fits f ps i OpCode.op_tailcall =
    (getarg_a i + getarg_b i ≤ f.maxstacksize) × (getarg_a i + getarg_c i ≤ f.maxstacksize + 1)
Fits f ps i OpCode.op_return = getarg_a i + getarg_b i ≤ f.maxstacksize + 1
Fits f ps i OpCode.op_forloop = getarg_a i + 3 < f.maxstacksize
Fits f ps i OpCode.op_forprep = getarg_a i + 3 < f.maxstacksize
Fits f ps i OpCode.op_tforloop =
    (getarg_a i + 2 + getarg_c i < f.maxstacksize) × (getarg_a i + 5 < f.maxstacksize + 2)
Fits f ps i OpCode.op_setlist = getarg_a i + getarg_b i < f.maxstacksize
Fits f ps i OpCode.op_closure = getarg_bx i < length_protos ps
Fits f ps i OpCode.op_vararg = getarg_a i + getarg_b i ≤ f.maxstacksize + 1
Fits f ps i _ = Unit {0}

IsGlobal-name :
    (f : Code) (b : ℕ) (t : ℕ × ℕ) {r : ℕ × ℕ}
    → (read f.k b >>= λ k. check (is_string k) >> passed t) ≡ passed r
    → IsGlobal f b
IsGlobal-name f b t h = elim (Option-cases (get_elem? f.k b)) [
  | inl out ↦ absurd (ground arith)
  | inr (k, at_b) ↦ (k, at_b, ground arith)
]

fits :
    (f : Code) (ps : Protos) (lastpc pc reg last : ℕ) (i : Instruction) (op : OpCode) {r : ℕ × ℕ}
    → getarg_a i < f.maxstacksize
    → check_operands f pc i op ≡ passed tt
    → switch f ps lastpc reg pc last i op ≡ passed r
    → Fits f ps i op
unfolding switch check_operands check_arg_mode opmodes check_call
fits f ps lastpc pc reg last i OpCode.op_move h e s = ground arith
fits f ps lastpc pc reg last i OpCode.op_getglobal h e s =
    IsGlobal-name f (getarg_bx i) (pc, last) s
fits f ps lastpc pc reg last i OpCode.op_setglobal h e s =
    IsGlobal-name f (getarg_bx i) (pc, last) s
fits f ps lastpc pc reg last i _ h e s = ground arith

-- An instruction at `pc`, with its first register and what `Fits` says of the rest that it uses.
pub record Executable (f : Code) (ps : Protos) (pc : ℕ) : Type 0 where
  pub instr : Instruction
  pub op : OpCode
  pub at_pc : get_elem? f.code pc ≡ some instr
  pub decodes : decode instr ≡ some op
  pub register : getarg_a instr < f.maxstacksize
  pub uses : Fits f ps instr op

pub Checked-Executable :
    {f : Code} {ps : Protos} {lastpc pc : ℕ} → Checked f ps lastpc pc → Executable f ps pc
Checked-Executable {f} {ps} {lastpc} {pc} c =
    let register : getarg_a c.instr < f.maxstacksize = ground (arith, c.register) in
    record {
      instr = c.instr;
      op = c.op;
      at_pc = c.at_pc;
      decodes = c.decodes;
      register = register;
      uses = fits f ps lastpc pc no_reg c.last c.instr c.op register c.operands c.switched;
    }

-- The same of the instruction by its name.
pub uses_at :
    {f : Code} {ps : Protos} {pc : ℕ}
    → Executable f ps pc
    → (i : Instruction) (op : OpCode) → get_elem? f.code pc ≡ some i
    → decode i ≡ some op
    → Fits f ps i op
uses_at {f} {ps} e i op at_pc is_op =
    let same_i : e.instr ≡ i = cc (e.at_pc) in
    let same_op : e.op ≡ op = cc (e.decodes) in
    subst (λ o. Fits f ps i o) same_op (subst (λ j. Fits f ps j e.op) same_i e.uses)
