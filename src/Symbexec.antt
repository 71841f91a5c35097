-- ===== src/Symbexec.antt =====
-- The symbolic execution of src/ldebug.c: the second switch of `symbexec`, its loop and
-- `luaG_checkcode`. A round gives the `pc` at the end of the loop's body and `last`.
pub mod Operands
pub mod Reads
pub mod Visited
pub mod Uses
pub mod Parity
pub mod Lands
pub mod Captures
pub mod Flow
pub mod Skips
pub mod Examples
use luarc.Prelude.{
  ℕ, zero, suc, ◌+◌, ◌-◌, ◌/◌, ◌%◌, Bool, true, false, not, ◌&&◌, ◌||◌, Option, none, some, List,
  [], ◌∷◌, length, get_elem?, ltb, leb, ◌==◌, if◌then◌else◌,
}
use luarc.Prelude.Int.{ℤ, pos, negsuc}
use luarc.Chunk.{Code, Proto, proto, Protos, length_protos}
use luarc.Opcodes.{
  Instruction, getarg_a, getarg_b, getarg_c, getarg_bx, no_reg, OpCode, decode, opmodes,
  test_a_mode,
}
use luarc.Checker.{
  Check, passed, failed, fault, ◌>>=◌, ◌>>◌, check, read, read_nups, has_opcode, precheck,
  checkopenop, long_setlist, jump_dest, check_operands, check_skip, check_upvalues, is_string,
}

abbrev pub opcode_of : Option OpCode → Check OpCode
opcode_of none = failed
opcode_of (some op) = passed op

-- The case of OP_JMP: a tracing run follows a jump ahead, to which the loop adds one.
unfoldable pub trace_jump : (lastpc reg pc last : ℕ) → ℤ → Check (ℕ × ℕ)
trace_jump lastpc reg pc last (negsuc n) = passed (pc, last)
trace_jump lastpc reg pc last (pos dest) =
    if not (reg == no_reg) && (ltb pc dest && leb dest lastpc)
    then passed (dest - 1, last)
    else passed (pc, last)

-- The instruction after an open call or an open `...` takes its values.
unfoldable pub check_open : Code → ℕ → Check (Unit {0})
check_open f pc = do j ← read f.code (pc + 1); check (checkopenop j)

-- The cases of OP_CALL and OP_TAILCALL.
unfoldable pub check_call : Code → (pc a b c : ℕ) → Check (Unit {0})
unfolding check_open
check_call f pc a b c = do
  check ((b == 0) || ltb (a + b - 1) f.maxstacksize)
  if c == 0 then check_open f pc else check ((c == 1) || ltb (a + c - 2) f.maxstacksize)

-- The second switch of `symbexec`.
unfoldable pub switch :
    Code → Protos → (lastpc reg pc last : ℕ) → Instruction → OpCode → Check (ℕ × ℕ)
unfolding trace_jump check_call check_open
switch f ps lastpc reg pc last i OpCode.op_loadbool =
    if getarg_c i == 1
    then (do
      check (ltb (pc + 2) (length f.code))
      j ← read f.code (pc + 1)
      check (not (has_opcode OpCode.op_setlist j) || not (getarg_c j == 0))
      passed (pc, last))
    else passed (pc, last)
switch f ps lastpc reg pc last i OpCode.op_loadnil =
    passed (pc, if leb (getarg_a i) reg && leb reg (getarg_b i) then pc else last)
switch f ps lastpc reg pc last i OpCode.op_getupval = do
  check (ltb (getarg_b i) f.nups)
  passed (pc, last)
switch f ps lastpc reg pc last i OpCode.op_setupval = do
  check (ltb (getarg_b i) f.nups)
  passed (pc, last)
switch f ps lastpc reg pc last i OpCode.op_getglobal = do
  k ← read f.k (getarg_bx i)
  check (is_string k)
  passed (pc, last)
switch f ps lastpc reg pc last i OpCode.op_setglobal = do
  k ← read f.k (getarg_bx i)
  check (is_string k)
  passed (pc, last)
switch f ps lastpc reg pc last i OpCode.op_self = do
  check (ltb (getarg_a i + 1) f.maxstacksize)
  passed (pc, if reg == getarg_a i + 1 then pc else last)
switch f ps lastpc reg pc last i OpCode.op_concat = do
  check (ltb (getarg_b i) (getarg_c i))
  passed (pc, last)
switch f ps lastpc reg pc last i OpCode.op_tforloop = do
  check (leb 1 (getarg_c i))
  check (ltb (getarg_a i + 2 + getarg_c i) f.maxstacksize)
  passed (pc, if leb (getarg_a i + 2) reg then pc else last)
switch f ps lastpc reg pc last i OpCode.op_forloop = do
  check (ltb (getarg_a i + 3) f.maxstacksize)
  trace_jump lastpc reg pc last (jump_dest pc i)
switch f ps lastpc reg pc last i OpCode.op_forprep = do
  check (ltb (getarg_a i + 3) f.maxstacksize)
  trace_jump lastpc reg pc last (jump_dest pc i)
switch f ps lastpc reg pc last i OpCode.op_jmp = trace_jump lastpc reg pc last (jump_dest pc i)
switch f ps lastpc reg pc last i OpCode.op_call = do
  check_call f pc (getarg_a i) (getarg_b i) (getarg_c i)
  passed (pc, if leb (getarg_a i) reg then pc else last)
switch f ps lastpc reg pc last i OpCode.op_tailcall = do
  check_call f pc (getarg_a i) (getarg_b i) (getarg_c i)
  passed (pc, if leb (getarg_a i) reg then pc else last)
switch f ps lastpc reg pc last i OpCode.op_return = do
  check (leb (getarg_b i) 1 || ltb (getarg_a i + getarg_b i - 2) f.maxstacksize)
  passed (pc, last)
switch f ps lastpc reg pc last i OpCode.op_setlist = do
  check ((getarg_b i == 0) || ltb (getarg_a i + getarg_b i) f.maxstacksize)
  if getarg_c i == 0
      then (do check (ltb (pc + 1) (length f.code - 1)); passed (pc + 1, last))
      else passed (pc, last)
switch f ps lastpc reg pc last i OpCode.op_closure = do
  check (ltb (getarg_bx i) (length_protos ps))
  nup ← read_nups ps (getarg_bx i)
  check (ltb (pc + nup) (length f.code))
  check_upvalues f.code pc nup
  passed (if not (reg == no_reg) then pc + nup else pc, last)
switch f ps lastpc reg pc last i OpCode.op_vararg = do
  check ((f.is_vararg / 2 % 2 == 1) && not (f.is_vararg / 4 % 2 == 1))
  if getarg_b i == 0 then check_open f pc else passed tt
  check (ltb (getarg_a i + getarg_b i) (f.maxstacksize + 2))
  passed (pc, last)
switch f ps lastpc reg pc last i op = passed (pc, last)

-- The body of the loop.
unfoldable pub round : Code → Protos → (lastpc reg pc last : ℕ) → Check (ℕ × ℕ)
unfolding switch
round f ps lastpc reg pc last = do
  i ← read f.code pc
  op ← opcode_of (decode i)
  check (ltb (getarg_a i) f.maxstacksize)
  check_operands f pc i op
  check_skip f pc op
  let last' = if test_a_mode (opmodes op) && (getarg_a i == reg) then pc else last
  switch f ps lastpc reg pc last' i op

-- The loop, with fuel for its rounds; running out of it is a fault.
unfoldable pub scan : Code → Protos → (lastpc reg fuel pc last : ℕ) → Check ℕ
scan f ps lastpc reg zero pc last = fault
scan f ps lastpc reg (suc fuel) pc last =
    let rest = round f ps lastpc reg pc last >>= λ r. scan f ps lastpc reg fuel (suc r.0) r.1 in
    if ltb pc lastpc then rest else passed last

unfoldable pub symbexec : Code → Protos → (lastpc reg : ℕ) → Check Instruction
symbexec f ps lastpc reg = do
  precheck f
  last ← scan f ps lastpc reg (suc lastpc) 0 (length f.code - 1)
  read f.code last

-- Whether the result is an instruction that is not 0.
abbrev pub accepts : Check Instruction → Bool
accepts (passed i) = not (i == 0)
accepts failed = false
accepts fault = false

unfoldable pub checkcode : Proto → Bool
checkcode (proto f ps) = accepts (symbexec f ps (length f.code) no_reg)
