-- ===== src/Symbexec/Captures.antt =====
-- What `luaV_execute` (src/lvm.c) captures for an OP_CLOSURE of a function that `luaG_checkcode`
-- (src/ldebug.c) accepts, and that it takes no count of a SETLIST for an instruction.
use mathlib.Core.Path.{subst}
use luarc.Prelude.{
  ℕ, zero, suc, ◌+◌, ◌<◌, ◌≡◌, ◌≢◌, ◌⊎◌, ◌||◌, refl, sym, ap, ◌∙◌, true, false, some, List, length,
  get_elem?, ◌==◌, ==_iff, Bool-cases, Option-cases, inl, inr, arith,
}
use luarc.Chunk.{Code, Protos}
use luarc.Opcodes.{Instruction, get_opcode, getarg_b, getarg_bx, no_reg, OpCode, number, decode}
use luarc.Checker.{passed, read_nups, has_opcode, long_setlist, check_upvalues}
use luarc.Symbexec.{switch}
use luarc.Symbexec.Operands.{EndsInReturn, has_successor}
use luarc.Symbexec.Visited.{Visited, here, next, over, Checked}
use luarc.Symbexec.Uses.{Checked-Executable, uses_at}
use luarc.Symbexec.Lands.{decode_of, short_of_opcode, short_of_decode}

-- An upvalue of the enclosing function, or one of its registers.
abbrev pub IsCapture : Code → Instruction → Type 0
IsCapture f i =
    ((decode i ≡ some OpCode.op_getupval) × (getarg_b i < f.nups))
    ⊎ ((decode i ≡ some OpCode.op_move) × (getarg_b i < f.maxstacksize))

-- Each instruction after an OP_CLOSURE that names an upvalue of the new function names one that the
-- enclosing function has.
abbrev pub Captures : Code → Protos → ℕ → Type 0
Captures f ps pc =
    (i : Instruction)
    → get_elem? f.code pc ≡ some i
    → decode i ≡ some OpCode.op_closure
    → (nup : ℕ) → read_nups ps (getarg_bx i) ≡ passed nup
    → (j : ℕ) → j < nup
    → (c : Instruction) × (get_elem? f.code (pc + 1 + j) ≡ some c) × IsCapture f c

capture_op :
    (i : Instruction)
    → (has_opcode OpCode.op_getupval i || has_opcode OpCode.op_move i) ≡ true
    → ((decode i ≡ some OpCode.op_getupval) ⊎ (decode i ≡ some OpCode.op_move))
      × (long_setlist i ≡ false)
unfolding number
capture_op i h = elim (Bool-cases (get_opcode i == 4)) [
  | inl getupval ↦
      let n : get_opcode i ≡ 4 = (==_iff _ _).0 getupval in
      (inl (decode_of i OpCode.op_getupval n), short_of_opcode i 4 n (omega arith))
  | inr other ↦
      let n : get_opcode i ≡ 0 = ground arith in
      (inr (decode_of i OpCode.op_move n), short_of_opcode i 0 n (omega arith))
]

module _ (f : Code) (ps : Protos) (lastpc : ℕ) (ends : EndsInReturn f)
    (all : (q : ℕ) → Visited f.code 0 q → q < length f.code → Checked f ps lastpc q) where
  capture :
      (pc : ℕ) (i : Instruction)
      → Visited f.code 0 pc
      → pc < length f.code
      → get_elem? f.code pc ≡ some i
      → (decode i ≡ some OpCode.op_getupval) ⊎ (decode i ≡ some OpCode.op_move)
      → IsCapture f i
  capture pc i v inside at_pc (inl is_op) =
      inl (is_op, uses_at (Checked-Executable (all pc v inside)) i OpCode.op_getupval at_pc is_op)
  capture pc i v inside at_pc (inr is_op) =
      inr (is_op, uses_at (Checked-Executable (all pc v inside)) i OpCode.op_move at_pc is_op)

  abbrev Captured : (pc j : ℕ) → Type 0
  Captured pc j = (c : Instruction) × (get_elem? f.code (pc + 1 + j) ≡ some c) × IsCapture f c

  -- No capture is the RETURN that ends the code.
  inside_next :
      (pc : ℕ) (i : Instruction)
      → get_elem? f.code pc ≡ some i
      → (decode i ≡ some OpCode.op_getupval) ⊎ (decode i ≡ some OpCode.op_move)
      → suc pc < length f.code
  inside_next pc i at_pc (inl d) =
      omega (arith, has_successor f pc i OpCode.op_getupval ends at_pc d (λ e. cc))
  inside_next pc i at_pc (inr d) =
      omega (arith, has_successor f pc i OpCode.op_move ends at_pc d (λ e. cc))

  here_or_later :
      (pc nup j : ℕ) (i : Instruction)
      → get_elem? f.code (suc pc) ≡ some i
      → IsCapture f i
      → j < suc nup
      → ((k : ℕ) → k < nup → Captured (suc pc) k)
      → Captured pc j
  here_or_later pc nup zero i at_suc fits lt later =
      (i, ap (get_elem? f.code) (omega arith) ∙ at_suc, fits)
  here_or_later pc nup (suc k) i at_suc fits lt later =
      let (c, e, fits') = later k (omega arith) in
      (c, ap (get_elem? f.code) (omega arith) ∙ e, fits')

  captured :
      (pc nup j : ℕ)
      → Visited f.code 0 (suc pc)
      → suc pc < length f.code
      → check_upvalues f.code pc nup ≡ passed tt
      → j < nup
      → (c : Instruction) × (get_elem? f.code (pc + 1 + j) ≡ some c) × IsCapture f c
  unfolding check_upvalues
  captured pc zero j v inside ok lt = absurd (omega arith)
  captured pc (suc nup) j v inside ok lt = elim (Option-cases (get_elem? f.code (pc + 1))) [
    | inl out ↦ absurd (ground arith)
    | inr (i, at_pc) ↦
        let (is_op, short) = capture_op i (ground arith) in
        let at_suc : get_elem? f.code (suc pc) ≡ some i = ground arith in
        here_or_later pc nup j i at_suc (capture (suc pc) i v inside at_suc is_op) lt (λ k below.
          captured (suc pc) nup k (next v at_suc short) (inside_next (suc pc) i at_suc is_op)
            (ground arith) below)
  ]

  closure_checked :
      (pc last : ℕ) (i : Instruction) (r : ℕ × ℕ) (nup : ℕ)
      → switch f ps lastpc no_reg pc last i OpCode.op_closure ≡ passed r
      → read_nups ps (getarg_bx i) ≡ passed nup
      → check_upvalues f.code pc nup ≡ passed tt
  unfolding switch
  closure_checked pc last i r nup sw nups = ground arith

  pub visited-Captures : (pc : ℕ) → Visited f.code 0 pc → pc < length f.code → Captures f ps pc
  visited-Captures pc v inside i at_pc is_op nup nups j lt =
      let c = all pc v inside in
      let same_i : c.instr ≡ i = cc (c.at_pc) in
      let same_op : c.op ≡ OpCode.op_closure = cc (c.decodes) in
      let sw : switch f ps lastpc no_reg pc c.last i OpCode.op_closure ≡ passed c.result =
        ap (switch f ps lastpc no_reg pc c.last i) (sym same_op)
        ∙ ap (λ x. switch f ps lastpc no_reg pc c.last x c.op) (sym same_i)
        ∙ c.switched in
      let short = short_of_decode i OpCode.op_closure is_op (unfold number in omega arith) in
      captured pc nup j (next v at_pc short)
        (omega (arith, has_successor f pc i OpCode.op_closure ends at_pc is_op (λ e. cc)))
        (closure_checked pc c.last i c.result nup sw nups) lt

-- The run never comes both to a long SETLIST and to the word after it.
pub count-Visited :
    (code : List Instruction) (m : ℕ) (i : Instruction) (q : ℕ)
    → Visited code 0 m
    → get_elem? code m ≡ some i
    → long_setlist i ≡ true
    → Visited code 0 q
    → q ≢ suc m
count-Visited code m i _ v at_m long here e = omega arith
count-Visited code m i _ v at_m long (next {pc} w at_pc short) e =
    let same : pc ≡ m = omega arith in ground (arith, ap (get_elem? code) same)
count-Visited code zero i _ v at_m long (over w at_pc long') e = omega arith
count-Visited code (suc m) i _ v at_m long (over {pc} {i = i'} w at_pc long') e =
    let same : pc ≡ m = omega arith in
    count-Visited code m i' (suc m) (subst (Visited code 0) same w)
      (ap (get_elem? code) (sym same) ∙ at_pc) long' v refl
