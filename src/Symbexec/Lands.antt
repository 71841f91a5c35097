-- ===== src/Symbexec/Lands.antt =====
-- Where `luaV_execute` (src/lvm.c) goes from one checked instruction of a function that `luaG_checkcode`
-- (src/ldebug.c) accepts.
use luarc.Opcodes.Modes.{get_elem?-number}
use luarc.Prelude.{
  sym, ◌||◌, ap, ◌∙◌, ==_iff, ℕ, zero, suc, ◌+◌, ◌≤◌, ◌<◌, ◌≡◌, ◌≢◌, ◌⊎◌, refl, true, false, some,
  [], ◌∷◌, ◌==◌, length, get_elem?, Bool-cases, Option-cases, inl, inr, arith,
}
use mathlib.Core.Path.{subst}
use luarc.Prelude.Int.{ℤ, pos}
use luarc.Chunk.{Code, Protos}
use luarc.Opcodes.{
  opcodes, Instruction, get_opcode, getarg_c, getarg_bx, no_reg, OpCode, number, decode, opmodes,
  test_t_mode,
}
use luarc.Checker.{
  Check, passed, failed, fault, read_nups, has_opcode, long_setlist, jump_dest, check_dest,
  check_operands, check_skip, check_upvalues,
}
use luarc.Symbexec.{switch}
use luarc.Control.{
  IsAmong, next_pcs, loadbool_next, test_next, forloop_next, setlist_next, closure_next,
  past_upvalues,
}
use luarc.Symbexec.Operands.{EndsInReturn, has_successor}
use luarc.Symbexec.Visited.{Visited, next, over, Checked, decode-number}
use luarc.Symbexec.Parity.{check_dest-Visited}

-- A position of the code that the checking run comes to.
abbrev pub Lands : Code → ℤ → Type 0
Lands f z = (q : ℕ) × (z ≡ pos q) × Visited f.code 0 q × (q < length f.code)

pub short_of_opcode : (i : Instruction) (n : ℕ) → get_opcode i ≡ n → n ≢ 34 → long_setlist i ≡ false
unfolding number
short_of_opcode i n h other = ground arith

pub decode_of : (i : Instruction) (op : OpCode) → get_opcode i ≡ number op → decode i ≡ some op
unfolding decode
decode_of i op h = ap (get_elem? opcodes) h ∙ get_elem?-number op

upvalue_opcode :
    (i : Instruction)
    → (has_opcode OpCode.op_getupval i || has_opcode OpCode.op_move i) ≡ true
    → (op : OpCode) × (decode i ≡ some op) × (op ≢ OpCode.op_return) × (long_setlist i ≡ false)
unfolding number
upvalue_opcode i h = elim (Bool-cases (get_opcode i == 4)) [
  | inl getupval ↦
      let n : get_opcode i ≡ 4 = (==_iff _ _).0 getupval in
      (
        OpCode.op_getupval,
        decode_of i OpCode.op_getupval n,
        λ e. cc,
        short_of_opcode i 4 n (omega arith),
      )
  | inr other ↦
      let n : get_opcode i ≡ 0 = ground arith in
      (OpCode.op_move, decode_of i OpCode.op_move n, λ e. cc, short_of_opcode i 0 n (omega arith))
]

pub short_of_decode :
    (i : Instruction) (op : OpCode) → decode i ≡ some op → number op ≢ 34 → long_setlist i ≡ false
short_of_decode i op d other = short_of_opcode i (number op) (decode-number i op d) other

jump_operands :
    (f : Code) (pc : ℕ) (i : Instruction)
    → check_operands f pc i OpCode.op_jmp ≡ passed tt
    → check_dest f (jump_dest pc i) ≡ passed tt
unfolding check_operands opmodes
jump_operands f pc i h = h

checked_dest :
    (f : Code) (pc : ℕ) (i : Instruction) (op : OpCode) (j : Instruction)
    → get_elem? f.code pc ≡ some i
    → get_elem? f.code pc ≡ some j
    → decode i ≡ some op
    → get_opcode j ≡ 22
    → check_operands f pc i op ≡ passed tt
    → check_dest f (jump_dest pc j) ≡ passed tt
unfolding number
checked_dest f pc i op j at_i at_j is_op is_jmp ok =
    let same : i ≡ j = cc in
    let jmp : op ≡ OpCode.op_jmp = cc (decode_of j OpCode.op_jmp is_jmp) in
    jump_operands f pc j (cc)

nups-cases : (c : Check ℕ) → ((n : ℕ) × (c ≡ passed n)) ⊎ ((c ≡ failed) ⊎ (c ≡ fault))
nups-cases (passed n) = inl (n, refl)
nups-cases failed = inr (inl refl)
nups-cases fault = inr (inr refl)

Lands-only : (f : Code) (d z : ℤ) → Lands f d → IsAmong z (d ∷ []) → Lands f z
Lands-only f d z a (inl e) = subst (Lands f) (sym e) a
Lands-only f d z a (inr e) = absurd e

Lands-either :
    (f : Code) (p : ℕ) (d z : ℤ)
    → Lands f (pos p)
    → Lands f d
    → IsAmong z (pos p ∷ d ∷ [])
    → Lands f z
Lands-either f p d z a b (inl e) = subst (Lands f) (sym e) a
Lands-either f p d z a b (inr (inl e)) = subst (Lands f) (sym e) b
Lands-either f p d z a b (inr (inr e)) = absurd e

module _ (f : Code) (ps : Protos) (ends : EndsInReturn f) where
  Lands-next :
      {pc : ℕ} {i : Instruction} {op : OpCode}
      → Visited f.code 0 pc
      → get_elem? f.code pc ≡ some i
      → decode i ≡ some op
      → op ≢ OpCode.op_return
      → long_setlist i ≡ false
      → Lands f (pos (pc + 1))
  Lands-next {pc} {i} {op} v at_pc is_op other short = (
    suc pc,
    ground arith,
    next v at_pc short,
    omega (arith, has_successor f pc i op ends at_pc is_op other),
  )

  -- The instructions after a closure that name its upvalues.
  Lands-upvalues :
      (pc nup : ℕ)
      → Visited f.code 0 (suc pc)
      → suc pc < length f.code
      → check_upvalues f.code pc nup ≡ passed tt
      → Lands f (pos (pc + 1 + nup))
  unfolding check_upvalues
  Lands-upvalues pc zero v inside ok = (suc pc, ground arith, v, inside)
  Lands-upvalues pc (suc nup) v inside ok = elim (Option-cases (get_elem? f.code (pc + 1))) [
    | inl out ↦ absurd (ground arith)
    | inr (i, at_pc) ↦
        let (op, is_op, other, short) = upvalue_opcode i (ground arith) in
        let at_suc : get_elem? f.code (suc pc) ≡ some i = ground arith in
        let (q, same, w, in_code) =
          Lands-upvalues (suc pc) nup (next v at_suc short)
            (omega (arith, has_successor f (suc pc) i op ends at_suc is_op other)) (ground arith) in
        (q, ground arith, w, in_code)
  ]

  -- The jump after a test, and past it.
  Lands-skip :
      {lastpc pc : ℕ} {i : Instruction} (op : OpCode)
      → ((q : ℕ) → Visited f.code 0 q → q < length f.code → Checked f ps lastpc q)
      → Visited f.code 0 pc
      → get_elem? f.code pc ≡ some i
      → long_setlist i ≡ false
      → test_t_mode (opmodes op) ≡ true
      → check_skip f pc op ≡ passed tt
      → (z : ℤ) → IsAmong z (test_next f pc)
      → Lands f z
  unfolding check_skip test_next
  Lands-skip {lastpc} {pc} {i} op all v at_pc short is_test ok z among =
      elim (Option-cases (get_elem? f.code (pc + 1))) [
        | inl out ↦ absurd (ground arith)
        | inr (j, at_j) ↦
            let inside : pc + 2 < length f.code = ground arith in
            let is_jmp : get_opcode j ≡ 22 = unfold number in ground arith in
            let w : Visited f.code 0 (pc + 1) =
              subst (Visited f.code 0) (omega arith) (next v at_pc short) in
            let c = all (pc + 1) w (omega arith) in
            let jumps =
              checked_dest f (pc + 1) c.instr c.op j (c.at_pc) at_j c.decodes is_jmp c.operands in
            Lands-either f (pc + 2) (jump_dest (pc + 1) j) z
              (
                pc + 2,
                refl,
                subst (Visited f.code 0) (omega arith)
                    (next w at_j (short_of_opcode j 22 is_jmp (omega arith))),
                inside,
              )
              (check_dest-Visited f (jump_dest (pc + 1) j) jumps) (rw at_j at among)
      ]

  module _ (lastpc pc last : ℕ) (i : Instruction) (z : ℤ) (r : ℕ × ℕ)
      (all : (q : ℕ) → Visited f.code 0 q → q < length f.code → Checked f ps lastpc q)
      (v : Visited f.code 0 pc) (at_pc : get_elem? f.code pc ≡ some i) where
    Lands-loadbool :
        decode i ≡ some OpCode.op_loadbool
        → switch f ps lastpc no_reg pc last i OpCode.op_loadbool ≡ passed r
        → getarg_c i ≤ 1
        → IsAmong z (loadbool_next pc i)
        → Lands f z
    unfolding switch loadbool_next
    Lands-loadbool is_op sw plain among =
        let short = short_of_decode i OpCode.op_loadbool is_op (unfold number in omega arith) in
        elim (Bool-cases (getarg_c i == 0)) [
          | inl stay ↦
              Lands-only f (pos (pc + 1)) z (Lands-next v at_pc is_op (λ e. cc) short)
                (rw stay at among)
          | inr skips ↦ elim (Option-cases (get_elem? f.code (pc + 1))) [
            | inl out ↦ absurd (ground arith)
            | inr (j, at_j) ↦
                let inside : pc + 2 < length f.code = ground arith in
                let short' : long_setlist j ≡ false = ground arith in
                let w : Visited f.code 0 (pc + 1) =
                  subst (Visited f.code 0) (omega arith) (next v at_pc short) in
                Lands-only f (pos (pc + 2)) z
                  (
                    pc + 2,
                    refl,
                    subst (Visited f.code 0) (omega arith) (next w at_j short'),
                    inside,
                  )
                  (rw skips at among)
          ]
        ]

    Lands-setlist :
        decode i ≡ some OpCode.op_setlist
        → switch f ps lastpc no_reg pc last i OpCode.op_setlist ≡ passed r
        → IsAmong z (setlist_next pc i)
        → Lands f z
    unfolding switch setlist_next
    Lands-setlist is_op sw among =
        let n = decode-number i OpCode.op_setlist is_op in
        elim (Bool-cases (getarg_c i == 0)) [
          | inl long ↦
              let inside : pc + 2 < length f.code = ground arith in
              Lands-only f (pos (pc + 2)) z
                (
                  pc + 2,
                  refl,
                  subst (Visited f.code 0) (omega arith) (over v at_pc (ground arith)),
                  inside,
                )
                (rw long at among)
          | inr short ↦
              Lands-only f (pos (pc + 1)) z (Lands-next v at_pc is_op (λ e. cc) (ground arith))
                (rw short at among)
        ]

    Lands-closure :
        decode i ≡ some OpCode.op_closure
        → switch f ps lastpc no_reg pc last i OpCode.op_closure ≡ passed r
        → IsAmong z (closure_next ps pc i)
        → Lands f z
    unfolding switch closure_next
    Lands-closure is_op sw among =
        let short = short_of_decode i OpCode.op_closure is_op (unfold number in omega arith) in
        let inside = has_successor f pc i OpCode.op_closure ends at_pc is_op (λ e. cc) in
        elim (nups-cases (read_nups ps (getarg_bx i))) [
          | inl (nup, e) ↦
              Lands-only f (pos (pc + 1 + nup)) z
                (Lands-upvalues pc nup (next v at_pc short) (omega arith) (ground arith))
                (subst (λ c. IsAmong z (past_upvalues pc c)) e among)
          | inr (inl e) ↦ absurd (ground arith)
          | inr (inr e) ↦ absurd (ground arith)
        ]

    -- Wherever the interpreter goes from a checked instruction.
    pub lands :
        (op : OpCode)
        → decode i ≡ some op
        → check_operands f pc i op ≡ passed tt
        → check_skip f pc op ≡ passed tt
        → switch f ps lastpc no_reg pc last i op ≡ passed r
        → (op ≡ OpCode.op_loadbool → getarg_c i ≤ 1)
        → IsAmong z (next_pcs f ps pc i op)
        → Lands f z
    unfolding next_pcs number opmodes check_operands
    lands OpCode.op_loadbool is_op ok skip sw plain among =
        Lands-loadbool is_op sw (plain refl) among
    lands OpCode.op_jmp is_op ok skip sw plain among =
        Lands-only f (jump_dest pc i) z (check_dest-Visited f _ (jump_operands f pc i ok)) among
    lands OpCode.op_forprep is_op ok skip sw plain among =
        Lands-only f (jump_dest pc i) z (check_dest-Visited f _ (jump_operands f pc i ok)) among
    lands OpCode.op_forloop is_op ok skip sw plain among =
        let short = short_of_decode i OpCode.op_forloop is_op (omega arith) in
        Lands-either f (pc + 1) (jump_dest pc i) z (Lands-next v at_pc is_op (λ e. cc) short)
          (check_dest-Visited f _ (jump_operands f pc i ok)) (unfold forloop_next in among)
    lands OpCode.op_setlist is_op ok skip sw plain among = Lands-setlist is_op sw among
    lands OpCode.op_closure is_op ok skip sw plain among = Lands-closure is_op sw among
    lands OpCode.op_return is_op ok skip sw plain among = absurd among
    lands OpCode.op_eq is_op ok skip sw plain among =
        Lands-skip OpCode.op_eq all v at_pc (short_of_decode i OpCode.op_eq is_op (omega arith))
          refl skip z among
    lands OpCode.op_lt is_op ok skip sw plain among =
        Lands-skip OpCode.op_lt all v at_pc (short_of_decode i OpCode.op_lt is_op (omega arith))
          refl skip z among
    lands OpCode.op_le is_op ok skip sw plain among =
        Lands-skip OpCode.op_le all v at_pc (short_of_decode i OpCode.op_le is_op (omega arith))
          refl skip z among
    lands OpCode.op_test is_op ok skip sw plain among =
        Lands-skip OpCode.op_test all v at_pc (short_of_decode i OpCode.op_test is_op (omega arith))
          refl skip z among
    lands OpCode.op_testset is_op ok skip sw plain among =
        Lands-skip OpCode.op_testset all v at_pc
          (short_of_decode i OpCode.op_testset is_op (omega arith)) refl skip z among
    lands OpCode.op_tforloop is_op ok skip sw plain among =
        Lands-skip OpCode.op_tforloop all v at_pc
          (short_of_decode i OpCode.op_tforloop is_op (omega arith)) refl skip z among
    lands OpCode.op_move is_op ok skip sw plain among =
        Lands-only f (pos (pc + 1)) z
          (Lands-next v at_pc is_op (λ e. cc)
            (short_of_decode i OpCode.op_move is_op (omega arith)))
          among
    lands op is_op ok skip sw plain among =
        Lands-only f (pos (pc + 1)) z
          (Lands-next v at_pc is_op (λ e. cc) (short_of_decode i op is_op (omega arith))) among
