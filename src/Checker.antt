-- ===== src/Checker.antt =====
-- The bytecode checker of src/ldebug.c: `precheck`, `checkArgMode`, `luaG_checkopenop`, `symbexec` and
-- `luaG_checkcode`. Every read of an array of the function is a step that faults out of range.
-- An int that is only ever compared after a subtraction keeps the sum on the other side.
use luarc.Prelude.{
  ℕ, zero, suc, ◌+◌, ◌-◌, ◌/◌, ◌%◌, Bool, true, false, not, ◌&&◌, ◌||◌, none, some, List, length,
  get_elem?, ltb, leb, ◌==◌, if◌then◌else◌,
}
use luarc.Prelude.Int.{ℤ, pos, negsuc, sub_ℕ}
use luarc.Chunk.{Constant, Code, proto, Protos, end, cons}
use luarc.Opcodes.{
  Instruction, get_opcode, getarg_b, getarg_c, getarg_bx, maxarg_sbx, isk, indexk, OpCode, number,
  opmodes, get_op_mode, get_b_mode, get_c_mode, test_t_mode,
}

-- A check that holds, one that fails, and a read outside an array.
pub data Check (A : Type 0) : Type 0 where
  passed : A → Check A
  failed fault : Check A

infixl 5 ◌>>=◌ ◌>>◌
abbrev pub ◌>>=◌ : {A B : Type 0} → Check A → (A → Check B) → Check B
passed a >>= f = f a
failed >>= f = failed
fault >>= f = fault

abbrev pub ◌>>◌ : {B : Type 0} → Check (Unit {0}) → Check B → Check B
m >> k = m >>= λ _. k

-- The macro `check`.
abbrev pub check : Bool → Check (Unit {0})
check true = passed tt
check false = failed

abbrev pub read : {A : Type 0} → List A → ℕ → Check A
read xs i = elim (get_elem? xs i) [ none ↦ fault | some x ↦ passed x ]

abbrev pub read_nups : Protos → ℕ → Check ℕ
read_nups end i = fault
read_nups (cons (proto f fs) ps) zero = passed f.nups
read_nups (cons p ps) (suc i) = read_nups ps i

abbrev pub maxstack : ℕ
maxstack = 250

abbrev pub has_opcode : OpCode → Instruction → Bool
has_opcode o i = get_opcode i == number o

unfoldable pub precheck : Code → Check (Unit {0})
precheck f = do
  check (leb f.maxstacksize maxstack)
  check (leb (f.numparams + f.is_vararg % 2) f.maxstacksize)
  check (not (f.is_vararg / 4 % 2 == 1) || (f.is_vararg % 2 == 1))
  check (leb (length f.upvalues) f.nups)
  check ((length f.lineinfo == length f.code) || (length f.lineinfo == 0))
  check (ltb 0 (length f.code))
  i ← read f.code (length f.code - 1)
  check (has_opcode OpCode.op_return i)

-- `luaG_checkopenop`.
unfoldable pub checkopenop : Instruction → Bool
checkopenop i =
    if has_opcode OpCode.op_call i
      || has_opcode OpCode.op_tailcall i
      || has_opcode OpCode.op_return i
      || has_opcode OpCode.op_setlist i
    then getarg_b i == 0
    else false

-- `checkArgMode`, of the mode as it stands in an opcode's properties.
unfoldable pub check_arg_mode : Code → (r mode : ℕ) → Bool
check_arg_mode f r mode =
    if mode == 0
    then r == 0
    else if mode == 1
    then true
    else if mode == 2
    then ltb r f.maxstacksize
    else if isk r
    then ltb (indexk r) (length f.k)
    else ltb r f.maxstacksize

-- A SETLIST whose count is in the next word.
abbrev pub long_setlist : Instruction → Bool
long_setlist i = has_opcode OpCode.op_setlist i && (getarg_c i == 0)

-- How many instructions just before `dest` look like a long SETLIST.
unfoldable pub setlists_before : List Instruction → (dest : ℕ) → Check ℕ
setlists_before code zero = passed 0
setlists_before code (suc d) = do
  i ← read code d
  let before = setlists_before code d
  if long_setlist i then (do j ← before; passed (suc j)) else passed 0

-- `pc + 1 + b` for a signed `b`.
abbrev pub jump_dest : ℕ → Instruction → ℤ
jump_dest pc i = sub_ℕ (pc + 1 + getarg_bx i) maxarg_sbx

-- A jump to `dest` stays in the code and off the count of a SETLIST.
unfoldable pub check_dest : Code → ℤ → Check (Unit {0})
unfolding setlists_before
check_dest f (negsuc n) = failed
check_dest f (pos dest) = do
  check (ltb dest (length f.code))
  j ← setlists_before f.code dest
  check (j % 2 == 0)

-- The first switch of `symbexec`: the operands, by the format of the opcode.
unfoldable pub check_operands : Code → (pc : ℕ) → Instruction → OpCode → Check (Unit {0})
unfolding check_arg_mode check_dest
check_operands f pc i op =
    let mode = opmodes op in
    if get_op_mode mode == 0
    then (do
      check (check_arg_mode f (getarg_b i) (get_b_mode mode))
      check (check_arg_mode f (getarg_c i) (get_c_mode mode)))
    else if get_op_mode mode == 1
    then (if get_b_mode mode == 3 then check (ltb (getarg_bx i) (length f.k)) else passed tt)
    else if get_b_mode mode == 2
    then check_dest f (jump_dest pc i)
    else passed tt

-- What `testTMode` asks for: a jump follows, and an instruction after it.
unfoldable pub check_skip : Code → (pc : ℕ) → OpCode → Check (Unit {0})
check_skip f pc op =
    if test_t_mode (opmodes op)
    then (do
      check (ltb (pc + 2) (length f.code))
      j ← read f.code (pc + 1)
      check (has_opcode OpCode.op_jmp j))
    else passed tt

-- The loop of OP_CLOSURE over the `nup` instructions from `pc + 1`.
unfoldable pub check_upvalues : List Instruction → (pc nup : ℕ) → Check (Unit {0})
check_upvalues code pc zero = passed tt
check_upvalues code pc (suc nup) = do
  i ← read code (pc + 1)
  check (has_opcode OpCode.op_getupval i || has_opcode OpCode.op_move i)
  check_upvalues code (suc pc) nup

abbrev pub is_string : Constant → Bool
is_string (Constant.string s) = true
is_string _ = false
