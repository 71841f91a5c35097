-- ===== src/Symbexec/Skips.antt =====
-- A LOADBOOL that skips an instruction, for `luaG_checkcode` (src/ldebug.c) and for `luaV_execute`
-- (src/lvm.c): the checker looks for a C of 1, the interpreter for any C but 0.
use luarc.Prelude.{
  ℕ, ◌^◌, ◌<◌, ◌≡◌, refl, true, false, none, List, [], ◌∷◌, ◌||◌, ◌==◌, get_elem?, leb, inl, arith,
}
use luarc.Prelude.Int.{pos}
use luarc.Chunk.{Code, proto, end}
use luarc.Opcodes.{
  create_abc, number, OpCode, decode, getarg_c, get_opcode, getarg_a, getarg_b, getarg_bx, opmodes,
  isk, indexk,
}
use luarc.Opcodes.Fields.{getarg-create}
use luarc.Opcodes.Modes.{decode-create}
use luarc.Checker.{precheck, check_operands, check_arg_mode, check_skip}
use luarc.Control.{IsAmong, Reaches, start, step, next_pcs, loadbool_next}
use luarc.Symbexec.{checkcode, symbexec, scan, round, switch}
use luarc.Symbexec.Visited.{holds_under, holds_under_lem}

abbrev pub of_code : List ℕ → Code
of_code code = record {
  source = none;
  linedefined = 0;
  lastlinedefined = 0;
  nups = 0;
  numparams = 0;
  is_vararg = 2;
  maxstacksize = 2;
  code = code;
  k = [];
  lineinfo = [];
  locvars = [];
  upvalues = [];
}

-- LOADBOOL 0 0 C; RETURN 0 1.
abbrev pub skipping : ℕ → Code
skipping c = of_code (create_abc 2 0 0 c ∷ create_abc 30 0 1 0 ∷ [])

accepted_table : holds_under (λ c. leb c 1 || checkcode (proto (skipping c) end)) 512 ≡ true
unfolding holds_under checkcode symbexec scan round switch precheck check_operands check_arg_mode
    check_skip create_abc decode getarg_c get_opcode getarg_a getarg_b getarg_bx opmodes isk indexk
    number
accepted_table = refl

accepts_skipping : (c : ℕ) → 1 < c → c < 512 → checkcode (proto (skipping c) end) ≡ true
accepts_skipping c more fits = ground (
  arith,
  holds_under_lem (λ c. leb c 1 || checkcode (proto (skipping c) end)) 512 c accepted_table,
)

goes_past : (c : ℕ) → 1 < c → c < 512 → IsAmong (pos 2) (loadbool_next 0 (create_abc 2 0 0 c))
unfolding loadbool_next
goes_past c more fits =
    let c_is : getarg_c (create_abc 2 0 0 c) ≡ c =
      (getarg-create 2 0 0 c 0 (omega arith) (omega arith) (omega arith) fits (omega arith)).0.3 in
    let test : (getarg_c (create_abc 2 0 0 c) == 0) ≡ false = ground arith in rw test (inl refl)

-- Whatever C above 1 the LOADBOOL has, the checker accepts a function of it and a RETURN, and the
-- interpreter goes on behind the code.
pub skips-leaves :
    (c : ℕ)
    → 1 < c
    → c < 2 ^ 9
    → (checkcode (proto (skipping c) end) ≡ true)
      × Reaches (skipping c) end (pos 2)
      × (get_elem? (skipping c).code 2 ≡ none)
unfolding next_pcs number
skips-leaves c more fits = (
  accepts_skipping c more fits,
  step {op = OpCode.op_loadbool} start refl
      (decode-create OpCode.op_loadbool 0 0 c 0 (omega arith) (omega arith) fits (omega arith)).0
      (goes_past c more fits),
  refl,
)
