-- ===== src/Opcodes/Examples.antt =====
-- Instructions of src/lopcodes.h.
use luarc.Prelude.{ℕ, ◌%◌, ◌^◌, ◌<◌, ◌≡◌, some, ◌==◌, true, false, arith}
use luarc.Prelude.Int.{negsuc}
use luarc.Opcodes.{
  Instruction, get_opcode, getarg_a, getarg_b, getarg_c, getarg_bx, getarg_sbx, set_opcode,
  setarg_a, setarg_b, setarg_c, setarg_sbx, create_abc, create_abx, isk, indexk, rkask, OpCode,
  number, decode, opmode, OpArgMask, OpMode, mask_number, mode_number, get_op_mode, get_b_mode,
  get_c_mode, test_a_mode, test_t_mode,
}
use luarc.Opcodes.Modes.{decode-create, modes-opmode}
use luarc.Opcodes.Fields.{getarg-setarg, getarg_sbx-setarg_sbx, getarg-create, isk-rkask}

-- `ADD 1 2 259`.
abbrev add_word : Instruction
add_word = 21020748

getarg_sbx-setarg_sbx_example :
    (getarg_sbx (setarg_sbx 22 (negsuc 4)) ≡ negsuc 4)
    × (get_opcode (setarg_sbx 22 (negsuc 4)) ≡ get_opcode 22)
    × (getarg_a (setarg_sbx 22 (negsuc 4)) ≡ getarg_a 22)
getarg_sbx-setarg_sbx_example = getarg_sbx-setarg_sbx 22 (negsuc 4) (omega arith) (omega arith)

getarg-create_example :
    ((get_opcode (create_abc 12 1 2 259) ≡ 12)
      × (getarg_a (create_abc 12 1 2 259) ≡ 1)
      × (getarg_b (create_abc 12 1 2 259) ≡ 2)
      × (getarg_c (create_abc 12 1 2 259) ≡ 259)
      × (create_abc 12 1 2 259 < 2 ^ 32))
    × ((get_opcode (create_abx 12 1 700) ≡ 12)
        × (getarg_a (create_abx 12 1 700) ≡ 1)
        × (getarg_bx (create_abx 12 1 700) ≡ 700)
        × (create_abx 12 1 700 < 2 ^ 32))
getarg-create_example =
    getarg-create 12 1 2 259 700 (omega arith) (omega arith) (omega arith) (omega arith)
      (omega arith)

isk-rkask_example :
    (isk (rkask 7) ≡ true) × (indexk (rkask 7) ≡ 7) × (rkask 7 < 2 ^ 9) × (isk 7 ≡ false)
isk-rkask_example = isk-rkask 7 (omega arith)

getarg-setarg_example :
    ((get_opcode (set_opcode add_word 300) ≡ 300 % 2 ^ 6)
      × (getarg_a (set_opcode add_word 300) ≡ getarg_a add_word)
      × (getarg_b (set_opcode add_word 300) ≡ getarg_b add_word)
      × (getarg_c (set_opcode add_word 300) ≡ getarg_c add_word))
    × ((get_opcode (setarg_a add_word 300) ≡ get_opcode add_word)
        × (getarg_a (setarg_a add_word 300) ≡ 300 % 2 ^ 8)
        × (getarg_b (setarg_a add_word 300) ≡ getarg_b add_word)
        × (getarg_c (setarg_a add_word 300) ≡ getarg_c add_word))
    × ((get_opcode (setarg_b add_word 300) ≡ get_opcode add_word)
        × (getarg_a (setarg_b add_word 300) ≡ getarg_a add_word)
        × (getarg_b (setarg_b add_word 300) ≡ 300 % 2 ^ 9)
        × (getarg_c (setarg_b add_word 300) ≡ getarg_c add_word))
    × ((get_opcode (setarg_c add_word 300) ≡ get_opcode add_word)
        × (getarg_a (setarg_c add_word 300) ≡ getarg_a add_word)
        × (getarg_b (setarg_c add_word 300) ≡ getarg_b add_word)
        × (getarg_c (setarg_c add_word 300) ≡ 300 % 2 ^ 9))
getarg-setarg_example = getarg-setarg add_word 300

decode-create_example :
    (decode (create_abc (number OpCode.op_setlist) 1 2 3) ≡ some OpCode.op_setlist)
    × (decode (create_abx (number OpCode.op_setlist) 1 900) ≡ some OpCode.op_setlist)
decode-create_example =
    decode-create OpCode.op_setlist 1 2 3 900 (omega arith) (omega arith) (omega arith)
      (omega arith)

abbrev testset_modes : ℕ
testset_modes = opmode 1 1 OpArgMask.op_arg_r OpArgMask.op_arg_u OpMode.iabc

modes-opmode_example :
    (testset_modes < 256)
    × (get_op_mode testset_modes ≡ mode_number OpMode.iabc)
    × (get_c_mode testset_modes ≡ mask_number OpArgMask.op_arg_u)
    × (get_b_mode testset_modes ≡ mask_number OpArgMask.op_arg_r)
    × (test_a_mode testset_modes ≡ (1 == 1))
    × (test_t_mode testset_modes ≡ (1 == 1))
modes-opmode_example =
    modes-opmode 1 1 OpArgMask.op_arg_r OpArgMask.op_arg_u OpMode.iabc (omega arith) (omega arith)
