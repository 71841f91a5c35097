-- ===== src/Opcodes/Modes.antt =====
-- The opcodes of src/lopcodes.c: their order and their properties.
use luarc.Prelude.{ℕ, ◌^◌, ◌<◌, ◌≡◌, ◌∙◌, refl, ap, some, get_elem?, ◌==◌, arith}
use luarc.Opcodes.{
  OpCode, opcodes, number, decode, create_abc, create_abx, opmode, get_op_mode, get_b_mode,
  get_c_mode, test_a_mode, test_t_mode, OpMode, OpArgMask, mask_number, mode_number,
}
use luarc.Opcodes.Fields.{getarg-create}

number_lt : (o : OpCode) → number o < 38
unfolding number
number_lt OpCode.op_move = omega arith
number_lt OpCode.op_loadk = omega arith
number_lt OpCode.op_loadbool = omega arith
number_lt OpCode.op_loadnil = omega arith
number_lt OpCode.op_getupval = omega arith
number_lt OpCode.op_getglobal = omega arith
number_lt OpCode.op_gettable = omega arith
number_lt OpCode.op_setglobal = omega arith
number_lt OpCode.op_setupval = omega arith
number_lt OpCode.op_settable = omega arith
number_lt OpCode.op_newtable = omega arith
number_lt OpCode.op_self = omega arith
number_lt OpCode.op_add = omega arith
number_lt OpCode.op_sub = omega arith
number_lt OpCode.op_mul = omega arith
number_lt OpCode.op_div = omega arith
number_lt OpCode.op_mod = omega arith
number_lt OpCode.op_pow = omega arith
number_lt OpCode.op_unm = omega arith
number_lt OpCode.op_not = omega arith
number_lt OpCode.op_len = omega arith
number_lt OpCode.op_concat = omega arith
number_lt OpCode.op_jmp = omega arith
number_lt OpCode.op_eq = omega arith
number_lt OpCode.op_lt = omega arith
number_lt OpCode.op_le = omega arith
number_lt OpCode.op_test = omega arith
number_lt OpCode.op_testset = omega arith
number_lt OpCode.op_call = omega arith
number_lt OpCode.op_tailcall = omega arith
number_lt OpCode.op_return = omega arith
number_lt OpCode.op_forloop = omega arith
number_lt OpCode.op_forprep = omega arith
number_lt OpCode.op_tforloop = omega arith
number_lt OpCode.op_setlist = omega arith
number_lt OpCode.op_close = omega arith
number_lt OpCode.op_closure = omega arith
number_lt OpCode.op_vararg = omega arith

pub get_elem?-number : (o : OpCode) → get_elem? opcodes (number o) ≡ some o
unfolding number
get_elem?-number OpCode.op_move = refl
get_elem?-number OpCode.op_loadk = refl
get_elem?-number OpCode.op_loadbool = refl
get_elem?-number OpCode.op_loadnil = refl
get_elem?-number OpCode.op_getupval = refl
get_elem?-number OpCode.op_getglobal = refl
get_elem?-number OpCode.op_gettable = refl
get_elem?-number OpCode.op_setglobal = refl
get_elem?-number OpCode.op_setupval = refl
get_elem?-number OpCode.op_settable = refl
get_elem?-number OpCode.op_newtable = refl
get_elem?-number OpCode.op_self = refl
get_elem?-number OpCode.op_add = refl
get_elem?-number OpCode.op_sub = refl
get_elem?-number OpCode.op_mul = refl
get_elem?-number OpCode.op_div = refl
get_elem?-number OpCode.op_mod = refl
get_elem?-number OpCode.op_pow = refl
get_elem?-number OpCode.op_unm = refl
get_elem?-number OpCode.op_not = refl
get_elem?-number OpCode.op_len = refl
get_elem?-number OpCode.op_concat = refl
get_elem?-number OpCode.op_jmp = refl
get_elem?-number OpCode.op_eq = refl
get_elem?-number OpCode.op_lt = refl
get_elem?-number OpCode.op_le = refl
get_elem?-number OpCode.op_test = refl
get_elem?-number OpCode.op_testset = refl
get_elem?-number OpCode.op_call = refl
get_elem?-number OpCode.op_tailcall = refl
get_elem?-number OpCode.op_return = refl
get_elem?-number OpCode.op_forloop = refl
get_elem?-number OpCode.op_forprep = refl
get_elem?-number OpCode.op_tforloop = refl
get_elem?-number OpCode.op_setlist = refl
get_elem?-number OpCode.op_close = refl
get_elem?-number OpCode.op_closure = refl
get_elem?-number OpCode.op_vararg = refl

-- An instruction made from an opcode decodes to it, in both formats, whatever its arguments are, as
-- long as they fit.
pub decode-create :
    (o : OpCode) (a b c bc : ℕ)
    → a < 2 ^ 8
    → b < 2 ^ 9
    → c < 2 ^ 9
    → bc < 2 ^ 18
    → (decode (create_abc (number o) a b c) ≡ some o)
      × (decode (create_abx (number o) a bc) ≡ some o)
unfolding decode
decode-create o a b c bc ha hb hc hbc =
    let fields = getarg-create (number o) a b c bc (omega (arith, number_lt o)) ha hb hc hbc in
    (
      ap (get_elem? opcodes) fields.0.0 ∙ get_elem?-number o,
      ap (get_elem? opcodes) fields.1.0 ∙ get_elem?-number o,
    )

mask_number_lt : (m : OpArgMask) → mask_number m < 4
mask_number_lt OpArgMask.op_arg_n = omega arith
mask_number_lt OpArgMask.op_arg_u = omega arith
mask_number_lt OpArgMask.op_arg_r = omega arith
mask_number_lt OpArgMask.op_arg_k = omega arith

mode_number_lt : (m : OpMode) → mode_number m < 4
mode_number_lt OpMode.iabc = omega arith
mode_number_lt OpMode.iabx = omega arith
mode_number_lt OpMode.iasbx = omega arith

-- The byte of an opcode's properties holds each of them: the format, the use of C and B, whether A is
-- set and whether it is a test.
pub modes-opmode :
    (t a : ℕ) (b c : OpArgMask) (m : OpMode)
    → t < 2
    → a < 2
    → (opmode t a b c m < 256)
      × (get_op_mode (opmode t a b c m) ≡ mode_number m)
      × (get_c_mode (opmode t a b c m) ≡ mask_number c)
      × (get_b_mode (opmode t a b c m) ≡ mask_number b)
      × (test_a_mode (opmode t a b c m) ≡ (a == 1))
      × (test_t_mode (opmode t a b c m) ≡ (t == 1))
modes-opmode t a b c m ht ha =
    let hb = mask_number_lt b in
    let hc = mask_number_lt c in
    let hm = mode_number_lt m in
    (omega arith, omega arith, omega arith, omega arith, ground arith, ground arith)
