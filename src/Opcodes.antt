-- ===== src/Opcodes.antt =====
-- src/lopcodes.h and src/lopcodes.c: the fields of an instruction, RK operands and the properties of
-- the opcodes. An instruction is a number below 2 ^ 32. Shifts and masks are written as arithmetic:
-- `x >> n` is `x / 2 ^ n`, `x & MASK1(n, 0)` is `x % 2 ^ n`, and `|` of disjoint bits is `+`.
pub mod Examples
pub mod Fields
pub mod Modes
use luarc.Prelude.{
  ℕ, ◌+◌, ◌-◌, ◌*◌, ◌/◌, ◌%◌, ◌^◌, Bool, Option, List, [], ◌∷◌, get_elem?, ltb, ◌==◌, not,
  if◌then◌else◌,
}
use luarc.Prelude.Int.{ℤ, pos_part, neg_part, sub_ℕ}

abbrev pub Instruction : Type 0
Instruction = ℕ

-- The opcode is in the low 6 bits, then 8 bits of A, 9 of C and 9 of B; Bx is C and B together.
abbrev pub maxarg_bx : ℕ
maxarg_bx = 2 ^ 18 - 1

abbrev pub maxarg_sbx : ℕ
maxarg_sbx = maxarg_bx / 2

abbrev pub maxarg_a : ℕ
maxarg_a = 2 ^ 8 - 1

abbrev pub no_reg : ℕ
no_reg = maxarg_a

-- `GET_OPCODE`, `GETARG_A` and their kin.
unfoldable pub get_opcode : Instruction → ℕ
get_opcode i = i % 2 ^ 6

unfoldable pub getarg_a : Instruction → ℕ
getarg_a i = i / 2 ^ 6 % 2 ^ 8

unfoldable pub getarg_c : Instruction → ℕ
getarg_c i = i / 2 ^ 14 % 2 ^ 9

unfoldable pub getarg_b : Instruction → ℕ
getarg_b i = i / 2 ^ 23 % 2 ^ 9

unfoldable pub getarg_bx : Instruction → ℕ
getarg_bx i = i / 2 ^ 14 % 2 ^ 18

unfoldable pub getarg_sbx : Instruction → ℤ
unfolding getarg_bx
getarg_sbx i = sub_ℕ (getarg_bx i) maxarg_sbx

-- `SET_OPCODE`, `SETARG_A` and their kin: the bits above the field, the field, the bits below.
unfoldable pub set_opcode : Instruction → ℕ → Instruction
set_opcode i o = i / 2 ^ 6 * 2 ^ 6 + o % 2 ^ 6

unfoldable pub setarg_a : Instruction → ℕ → Instruction
setarg_a i u = i / 2 ^ 14 * 2 ^ 14 + u % 2 ^ 8 * 2 ^ 6 + i % 2 ^ 6

unfoldable pub setarg_c : Instruction → ℕ → Instruction
setarg_c i c = i / 2 ^ 23 * 2 ^ 23 + c % 2 ^ 9 * 2 ^ 14 + i % 2 ^ 14

unfoldable pub setarg_b : Instruction → ℕ → Instruction
setarg_b i b = b % 2 ^ 9 * 2 ^ 23 + i % 2 ^ 23

unfoldable pub setarg_bx : Instruction → ℕ → Instruction
setarg_bx i b = b % 2 ^ 18 * 2 ^ 14 + i % 2 ^ 14

-- `SETARG_sBx`: the sum as an unsigned int.
unfoldable pub setarg_sbx : Instruction → ℤ → Instruction
unfolding setarg_bx
setarg_sbx i b = setarg_bx i ((2 ^ 32 + pos_part b + maxarg_sbx - neg_part b % 2 ^ 32) % 2 ^ 32)

-- `CREATE_ABC` and `CREATE_ABx`, of arguments that fit their fields.
unfoldable pub create_abc : (o a b c : ℕ) → Instruction
create_abc o a b c = o + a * 2 ^ 6 + b * 2 ^ 23 + c * 2 ^ 14

unfoldable pub create_abx : (o a bc : ℕ) → Instruction
create_abx o a bc = o + a * 2 ^ 6 + bc * 2 ^ 14

-- RK operands: `ISK`, `INDEXK` and `RKASK` (of an index without the bit).
abbrev pub bitrk : ℕ
bitrk = 2 ^ 8

unfoldable pub isk : ℕ → Bool
isk x = x / bitrk % 2 == 1

unfoldable pub indexk : ℕ → ℕ
indexk r = r / (2 * bitrk) * (2 * bitrk) + r % bitrk

unfoldable pub rkask : ℕ → ℕ
rkask x = x / (2 * bitrk) * (2 * bitrk) + bitrk + x % bitrk

pub data OpCode : Type 0 where
  op_move op_loadk op_loadbool op_loadnil op_getupval op_getglobal op_gettable op_setglobal
        op_setupval op_settable op_newtable op_self op_add op_sub op_mul op_div op_mod op_pow op_unm
        op_not op_len op_concat op_jmp op_eq op_lt op_le op_test op_testset op_call op_tailcall
        op_return op_forloop op_forprep op_tforloop op_setlist op_close op_closure op_vararg :
      OpCode

-- The enumeration, in its order.
abbrev pub opcodes : List OpCode
opcodes =
    op_move ∷ op_loadk ∷ op_loadbool ∷ op_loadnil ∷ op_getupval ∷ op_getglobal ∷ op_gettable
    ∷ op_setglobal ∷ op_setupval ∷ op_settable ∷ op_newtable ∷ op_self ∷ op_add ∷ op_sub ∷ op_mul
    ∷ op_div ∷ op_mod ∷ op_pow ∷ op_unm ∷ op_not ∷ op_len ∷ op_concat ∷ op_jmp ∷ op_eq ∷ op_lt
    ∷ op_le ∷ op_test ∷ op_testset ∷ op_call ∷ op_tailcall ∷ op_return ∷ op_forloop ∷ op_forprep
    ∷ op_tforloop ∷ op_setlist ∷ op_close ∷ op_closure ∷ op_vararg ∷ []

-- The number of an opcode, and `GET_OPCODE` as an opcode where there is one.
unfoldable pub number : OpCode → ℕ
number OpCode.op_move = 0
number OpCode.op_loadk = 1
number OpCode.op_loadbool = 2
number OpCode.op_loadnil = 3
number OpCode.op_getupval = 4
number OpCode.op_getglobal = 5
number OpCode.op_gettable = 6
number OpCode.op_setglobal = 7
number OpCode.op_setupval = 8
number OpCode.op_settable = 9
number OpCode.op_newtable = 10
number OpCode.op_self = 11
number OpCode.op_add = 12
number OpCode.op_sub = 13
number OpCode.op_mul = 14
number OpCode.op_div = 15
number OpCode.op_mod = 16
number OpCode.op_pow = 17
number OpCode.op_unm = 18
number OpCode.op_not = 19
number OpCode.op_len = 20
number OpCode.op_concat = 21
number OpCode.op_jmp = 22
number OpCode.op_eq = 23
number OpCode.op_lt = 24
number OpCode.op_le = 25
number OpCode.op_test = 26
number OpCode.op_testset = 27
number OpCode.op_call = 28
number OpCode.op_tailcall = 29
number OpCode.op_return = 30
number OpCode.op_forloop = 31
number OpCode.op_forprep = 32
number OpCode.op_tforloop = 33
number OpCode.op_setlist = 34
number OpCode.op_close = 35
number OpCode.op_closure = 36
number OpCode.op_vararg = 37

unfoldable pub decode : Instruction → Option OpCode
decode i = get_elem? opcodes (get_opcode i)

pub data OpMode : Type 0 where
  iabc iabx iasbx : OpMode

pub data OpArgMask : Type 0 where
  op_arg_n op_arg_u op_arg_r op_arg_k : OpArgMask

abbrev pub mode_number : OpMode → ℕ
mode_number OpMode.iabc = 0
mode_number OpMode.iabx = 1
mode_number OpMode.iasbx = 2

abbrev pub mask_number : OpArgMask → ℕ
mask_number OpArgMask.op_arg_n = 0
mask_number OpArgMask.op_arg_u = 1
mask_number OpArgMask.op_arg_r = 2
mask_number OpArgMask.op_arg_k = 3

-- `opmode(t, a, b, c, m)`.
abbrev pub opmode : ℕ → ℕ → OpArgMask → OpArgMask → OpMode → ℕ
opmode t a b c m =
    t * 2 ^ 7 + a * 2 ^ 6 + mask_number b * 2 ^ 4 + mask_number c * 2 ^ 2 + mode_number m

-- `luaP_opmodes`.
unfoldable pub opmodes : OpCode → ℕ
opmodes OpCode.op_move = opmode 0 1 OpArgMask.op_arg_r OpArgMask.op_arg_n OpMode.iabc
opmodes OpCode.op_loadk = opmode 0 1 OpArgMask.op_arg_k OpArgMask.op_arg_n OpMode.iabx
opmodes OpCode.op_loadbool = opmode 0 1 OpArgMask.op_arg_u OpArgMask.op_arg_u OpMode.iabc
opmodes OpCode.op_loadnil = opmode 0 1 OpArgMask.op_arg_r OpArgMask.op_arg_n OpMode.iabc
opmodes OpCode.op_getupval = opmode 0 1 OpArgMask.op_arg_u OpArgMask.op_arg_n OpMode.iabc
opmodes OpCode.op_getglobal = opmode 0 1 OpArgMask.op_arg_k OpArgMask.op_arg_n OpMode.iabx
opmodes OpCode.op_gettable = opmode 0 1 OpArgMask.op_arg_r OpArgMask.op_arg_k OpMode.iabc
opmodes OpCode.op_setglobal = opmode 0 0 OpArgMask.op_arg_k OpArgMask.op_arg_n OpMode.iabx
opmodes OpCode.op_setupval = opmode 0 0 OpArgMask.op_arg_u OpArgMask.op_arg_n OpMode.iabc
opmodes OpCode.op_settable = opmode 0 0 OpArgMask.op_arg_k OpArgMask.op_arg_k OpMode.iabc
opmodes OpCode.op_newtable = opmode 0 1 OpArgMask.op_arg_u OpArgMask.op_arg_u OpMode.iabc
opmodes OpCode.op_self = opmode 0 1 OpArgMask.op_arg_r OpArgMask.op_arg_k OpMode.iabc
opmodes OpCode.op_add = opmode 0 1 OpArgMask.op_arg_k OpArgMask.op_arg_k OpMode.iabc
opmodes OpCode.op_sub = opmode 0 1 OpArgMask.op_arg_k OpArgMask.op_arg_k OpMode.iabc
opmodes OpCode.op_mul = opmode 0 1 OpArgMask.op_arg_k OpArgMask.op_arg_k OpMode.iabc
opmodes OpCode.op_div = opmode 0 1 OpArgMask.op_arg_k OpArgMask.op_arg_k OpMode.iabc
opmodes OpCode.op_mod = opmode 0 1 OpArgMask.op_arg_k OpArgMask.op_arg_k OpMode.iabc
opmodes OpCode.op_pow = opmode 0 1 OpArgMask.op_arg_k OpArgMask.op_arg_k OpMode.iabc
opmodes OpCode.op_unm = opmode 0 1 OpArgMask.op_arg_r OpArgMask.op_arg_n OpMode.iabc
opmodes OpCode.op_not = opmode 0 1 OpArgMask.op_arg_r OpArgMask.op_arg_n OpMode.iabc
opmodes OpCode.op_len = opmode 0 1 OpArgMask.op_arg_r OpArgMask.op_arg_n OpMode.iabc
opmodes OpCode.op_concat = opmode 0 1 OpArgMask.op_arg_r OpArgMask.op_arg_r OpMode.iabc
opmodes OpCode.op_jmp = opmode 0 0 OpArgMask.op_arg_r OpArgMask.op_arg_n OpMode.iasbx
opmodes OpCode.op_eq = opmode 1 0 OpArgMask.op_arg_k OpArgMask.op_arg_k OpMode.iabc
opmodes OpCode.op_lt = opmode 1 0 OpArgMask.op_arg_k OpArgMask.op_arg_k OpMode.iabc
opmodes OpCode.op_le = opmode 1 0 OpArgMask.op_arg_k OpArgMask.op_arg_k OpMode.iabc
opmodes OpCode.op_test = opmode 1 1 OpArgMask.op_arg_r OpArgMask.op_arg_u OpMode.iabc
opmodes OpCode.op_testset = opmode 1 1 OpArgMask.op_arg_r OpArgMask.op_arg_u OpMode.iabc
opmodes OpCode.op_call = opmode 0 1 OpArgMask.op_arg_u OpArgMask.op_arg_u OpMode.iabc
opmodes OpCode.op_tailcall = opmode 0 1 OpArgMask.op_arg_u OpArgMask.op_arg_u OpMode.iabc
opmodes OpCode.op_return = opmode 0 0 OpArgMask.op_arg_u OpArgMask.op_arg_n OpMode.iabc
opmodes OpCode.op_forloop = opmode 0 1 OpArgMask.op_arg_r OpArgMask.op_arg_n OpMode.iasbx
opmodes OpCode.op_forprep = opmode 0 1 OpArgMask.op_arg_r OpArgMask.op_arg_n OpMode.iasbx
opmodes OpCode.op_tforloop = opmode 1 0 OpArgMask.op_arg_n OpArgMask.op_arg_u OpMode.iabc
opmodes OpCode.op_setlist = opmode 0 0 OpArgMask.op_arg_u OpArgMask.op_arg_u OpMode.iabc
opmodes OpCode.op_close = opmode 0 0 OpArgMask.op_arg_n OpArgMask.op_arg_n OpMode.iabc
opmodes OpCode.op_closure = opmode 0 1 OpArgMask.op_arg_u OpArgMask.op_arg_n OpMode.iabx
opmodes OpCode.op_vararg = opmode 0 1 OpArgMask.op_arg_u OpArgMask.op_arg_n OpMode.iabc

-- `getOpMode`, `getBMode`, `getCMode`, `testAMode` and `testTMode`, as numbers.
abbrev pub get_op_mode : ℕ → ℕ
get_op_mode m = m % 4

abbrev pub get_b_mode : ℕ → ℕ
get_b_mode m = m / 2 ^ 4 % 4

abbrev pub get_c_mode : ℕ → ℕ
get_c_mode m = m / 2 ^ 2 % 4

abbrev pub test_a_mode : ℕ → Bool
test_a_mode m = m / 2 ^ 6 % 2 == 1

abbrev pub test_t_mode : ℕ → Bool
test_t_mode m = m / 2 ^ 7 % 2 == 1
