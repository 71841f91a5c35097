-- ===== src/Opcodes/Fields.antt =====
-- Reading a field of an instruction after writing one (src/lopcodes.h).
use luarc.Prelude.{ℕ, ◌+◌, ◌%◌, ◌^◌, ◌<◌, ◌≤◌, ◌≡◌, true, false, arith}
use luarc.Prelude.Int.{ℤ, pos, negsuc, pos_part, neg_part}
use luarc.Opcodes.{
  Instruction, maxarg_sbx, get_opcode, getarg_a, getarg_b, getarg_c, getarg_bx, getarg_sbx,
  set_opcode, setarg_a, setarg_b, setarg_c, setarg_bx, setarg_sbx, create_abc, create_abx, bitrk,
  isk, indexk, rkask,
}

-- What each setter of a one-field argument leaves in the four fields of an instruction: the low bits
-- of the argument in its own, and the others as they were.
pub getarg-setarg :
    (i : Instruction) (u : ℕ)
    → ((get_opcode (set_opcode i u) ≡ u % 2 ^ 6)
        × (getarg_a (set_opcode i u) ≡ getarg_a i)
        × (getarg_b (set_opcode i u) ≡ getarg_b i)
        × (getarg_c (set_opcode i u) ≡ getarg_c i))
      × ((get_opcode (setarg_a i u) ≡ get_opcode i)
          × (getarg_a (setarg_a i u) ≡ u % 2 ^ 8)
          × (getarg_b (setarg_a i u) ≡ getarg_b i)
          × (getarg_c (setarg_a i u) ≡ getarg_c i))
      × ((get_opcode (setarg_b i u) ≡ get_opcode i)
          × (getarg_a (setarg_b i u) ≡ getarg_a i)
          × (getarg_b (setarg_b i u) ≡ u % 2 ^ 9)
          × (getarg_c (setarg_b i u) ≡ getarg_c i))
      × ((get_opcode (setarg_c i u) ≡ get_opcode i)
          × (getarg_a (setarg_c i u) ≡ getarg_a i)
          × (getarg_b (setarg_c i u) ≡ getarg_b i)
          × (getarg_c (setarg_c i u) ≡ u % 2 ^ 9))
unfolding get_opcode getarg_a getarg_b getarg_c set_opcode setarg_a setarg_b setarg_c
getarg-setarg i u = (
  (omega arith, omega arith, omega arith, omega arith),
  (omega arith, omega arith, omega arith, omega arith),
  (omega arith, omega arith, omega arith, omega arith),
  (omega arith, omega arith, omega arith, omega arith),
)

-- Writing a signed argument within its range and reading it back gives the argument, and leaves the
-- opcode and A.
pub getarg_sbx-setarg_sbx :
    (i : Instruction) (b : ℤ)
    → pos_part b ≤ maxarg_sbx + 1
    → neg_part b ≤ maxarg_sbx
    → (getarg_sbx (setarg_sbx i b) ≡ b)
      × (get_opcode (setarg_sbx i b) ≡ get_opcode i)
      × (getarg_a (setarg_sbx i b) ≡ getarg_a i)
unfolding getarg_sbx setarg_sbx getarg_bx setarg_bx get_opcode getarg_a
getarg_sbx-setarg_sbx i (pos n) hi lo = (ground arith, omega arith, omega arith)
getarg_sbx-setarg_sbx i (negsuc n) hi lo = (ground arith, omega arith, omega arith)

-- The fields of an instruction made of arguments that fit are those arguments, in both formats.
pub getarg-create :
    (o a b c bc : ℕ)
    → o < 2 ^ 6
    → a < 2 ^ 8
    → b < 2 ^ 9
    → c < 2 ^ 9
    → bc < 2 ^ 18
    → ((get_opcode (create_abc o a b c) ≡ o)
        × (getarg_a (create_abc o a b c) ≡ a)
        × (getarg_b (create_abc o a b c) ≡ b)
        × (getarg_c (create_abc o a b c) ≡ c)
        × (create_abc o a b c < 2 ^ 32))
      × ((get_opcode (create_abx o a bc) ≡ o)
          × (getarg_a (create_abx o a bc) ≡ a)
          × (getarg_bx (create_abx o a bc) ≡ bc)
          × (create_abx o a bc < 2 ^ 32))
unfolding get_opcode getarg_a getarg_b getarg_c getarg_bx create_abc create_abx
getarg-create o a b c bc ho ha hb hc hbc = (
  (omega arith, omega arith, omega arith, omega arith, omega arith),
  (omega arith, omega arith, omega arith, omega arith),
)

-- A constant's index that fits is told from a register and read back from its RK operand, which fits
-- a field of 9 bits; a register is no constant.
pub isk-rkask :
    (x : ℕ)
    → x < bitrk
    → (isk (rkask x) ≡ true) × (indexk (rkask x) ≡ x) × (rkask x < 2 ^ 9) × (isk x ≡ false)
unfolding isk indexk rkask
isk-rkask x h = (ground arith, omega arith, omega arith, ground arith)
