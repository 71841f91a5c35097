-- ===== src/Jumps.antt =====
-- Jump lists of the code generator, src/lcode.c: the jumps that wait for one target are chained through
-- their own offsets. The code is the instructions up to `pc`. A failure stands for the error "control
-- structure too long", and for a read outside the code.
pub mod Chains
pub mod Concat
pub mod Examples
pub mod Patch
pub mod Pending
use luarc.Prelude.{
  ℕ, zero, suc, ◌+◌, Bool, true, false, not, ◌&&◌, ◌==◌, Option, none, some, List, [], ◌∷◌, set,
  get_or, ltb, if◌then◌else◌,
}
use luarc.Prelude.Int.{ℤ, pos, negsuc, pos_part, neg_part, sub_ℕ}
use luarc.Opcodes.{
  Instruction, maxarg_sbx, no_reg, getarg_sbx, setarg_sbx, setarg_a, getarg_b, getarg_c, get_opcode,
  create_abc, OpCode, number, decode, opmodes, test_t_mode,
}

-- `testTMode` of an instruction's opcode.
abbrev pub is_test : Option OpCode → Bool
is_test none = false
is_test (some o) = test_t_mode (opmodes o)

abbrev pub no_jump : ℤ
no_jump = negsuc 0

-- `pc + 1 + offset`, where the offset is not NO_JUMP.
abbrev pub target : ℕ → ℤ → ℤ
target pc (negsuc zero) = no_jump
target pc offset = sub_ℕ (pc + 1 + pos_part offset) (neg_part offset)

-- `getjump`.
unfoldable pub getjump : List Instruction → ℕ → ℤ
getjump code pc = target pc (getarg_sbx (get_or code pc 0))

-- `fixjump`.
unfoldable pub fixjump : List Instruction → (pc dest : ℕ) → Option (List Instruction)
fixjump code pc dest =
    let offset = sub_ℕ dest (pc + 1) in
    if ltb maxarg_sbx (pos_part offset + neg_part offset)
    then none
    else some (set code pc (setarg_sbx (get_or code pc 0) offset))

-- The search for the last element in `luaK_concat`, from an element and the one after it.
unfoldable pub last_jump : List Instruction → (fuel list : ℕ) → ℤ → Option ℕ
last_jump code zero list next = none
last_jump code (suc fuel) list (negsuc zero) = some list
last_jump code (suc fuel) list (negsuc (suc n)) = none
last_jump code (suc fuel) list (pos next) = last_jump code fuel next (getjump code next)

abbrev pub with_code : ℤ → Option (List Instruction) → Option (List Instruction × ℤ)
with_code l none = none
with_code l (some code) = some (code, l)

abbrev pub fix_last : List Instruction → ℕ → ℤ → Option ℕ → Option (List Instruction × ℤ)
fix_last code l2 l1 none = none
fix_last code l2 l1 (some list) = with_code l1 (fixjump code list l2)

-- `luaK_concat`: the code and the new list. The loop has a turn for each element of `l1`.
unfoldable pub concat : (fuel : ℕ) → List Instruction → (l1 l2 : ℤ) → Option (List Instruction × ℤ)
concat fuel code l1 (negsuc n) = some (code, l1)
concat fuel code (negsuc n) (pos b) = some (code, pos b)
concat fuel code (pos a) (pos b) = fix_last code b (pos a) (last_jump code fuel a (getjump code a))

-- `getjumpcontrol`: the position of the instruction that decides on a jump, a test before it.
unfoldable pub getjumpcontrol : List Instruction → ℕ → ℕ
getjumpcontrol code zero = 0
getjumpcontrol code (suc pc) = if is_test (decode (get_or code pc 0)) then pc else suc pc

-- What `patchtestreg` makes of a TESTSET.
abbrev pub retarget : Instruction → ℕ → Instruction
retarget i reg =
    if not (reg == no_reg) && not (reg == getarg_b i)
    then setarg_a i reg
    else create_abc (number OpCode.op_test) (getarg_b i) 0 (getarg_c i)

-- `patchtestreg`: the code, and whether the instruction could be patched.
unfoldable pub patchtestreg : List Instruction → (node reg : ℕ) → List Instruction × Bool
patchtestreg code node reg =
    let c = getjumpcontrol code node in
    let i = get_or code c 0 in
    if get_opcode i == number OpCode.op_testset
    then (set code c (retarget i reg), true)
    else (code, false)

abbrev pub patch_rest :
    (List Instruction → ℤ → Option (List Instruction))
    → ℤ
    → Option (List Instruction)
    → Option (List Instruction)
patch_rest loop next none = none
patch_rest loop next (some code) = loop code next

-- `patchlistaux`, with a turn for each element of the list.
unfoldable pub patchlistaux :
    (fuel : ℕ)
    → (vtarget reg dtarget : ℕ) → List Instruction
    → (list : ℤ) → Option (List Instruction)
patchlistaux zero vtarget reg dtarget code list = none
patchlistaux (suc fuel) vtarget reg dtarget code (negsuc zero) = some code
patchlistaux (suc fuel) vtarget reg dtarget code (negsuc (suc n)) = none
patchlistaux (suc fuel) vtarget reg dtarget code (pos list) =
    let next = getjump code list in
    let (code', patched) = patchtestreg code list reg in
    patch_rest (patchlistaux fuel vtarget reg dtarget) next
      (fixjump code' list (if patched then vtarget else dtarget))
