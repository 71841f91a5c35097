-- ===== src/Symbexec/Operands.antt =====
-- The checks of one instruction in `symbexec` (src/ldebug.c) read no array out of range.
use luarc.Prelude.{
  ℕ, zero, suc, ◌+◌, ◌-◌, ◌/◌, ◌%◌, ◌^◌, ◌≤◌, ◌<◌, ◌≡◌, ◌≢◌, refl, some, List, [], ◌∷◌, length,
  get_elem?, ◌==◌, Bool-cases, inl, inr, arith, lt_of_get_elem?, ==_iff, Option-cases,
}
use luarc.Prelude.Int.{ℤ, pos, negsuc}
use luarc.Chunk.{Code, proto, Protos, length_protos, end, cons}
use luarc.Opcodes.{
  Instruction, get_opcode, getarg_a, getarg_b, getarg_c, getarg_bx, OpCode, number, decode, opmodes,
}
use luarc.Checker.{
  passed, fault, read, read_nups, precheck, jump_dest, check_operands, check_dest, check_skip,
  check_upvalues, setlists_before,
}
use luarc.Symbexec.{trace_jump, check_open, check_call, switch}

pub read-ne-fault : {A : Type 0} (xs : List A) (i : ℕ) → i < length xs → read xs i ≢ fault
read-ne-fault [] i h = absurd (omega arith)
read-ne-fault (x ∷ xs) zero h = λ e. cc
read-ne-fault (x ∷ xs) (suc i) h = read-ne-fault xs i (omega arith)

read_nups-ne-fault : (ps : Protos) (i : ℕ) → i < length_protos ps → read_nups ps i ≢ fault
read_nups-ne-fault end i h = absurd (omega arith)
read_nups-ne-fault (cons (proto f fs) ps) zero h = λ e. cc
read_nups-ne-fault (cons (proto f fs) ps) (suc i) h = read_nups-ne-fault ps i (omega arith)

setlists_before-ne-fault :
    (code : List Instruction) (d : ℕ) → d ≤ length code → setlists_before code d ≢ fault
unfolding setlists_before
setlists_before-ne-fault code zero h = λ e. cc
setlists_before-ne-fault code (suc d) h =
    ground (arith, read-ne-fault code d, setlists_before-ne-fault code d)

check_upvalues-ne-fault :
    (code : List Instruction) (pc nup : ℕ)
    → pc + nup < length code
    → check_upvalues code pc nup ≢ fault
unfolding check_upvalues
check_upvalues-ne-fault code pc zero h = λ e. cc
check_upvalues-ne-fault code pc (suc nup) h =
    ground (arith, read-ne-fault code (pc + 1), check_upvalues-ne-fault code (suc pc) nup)

check_dest-ne-fault : (f : Code) (d : ℤ) → check_dest f d ≢ fault
unfolding check_dest
check_dest-ne-fault f (negsuc n) = λ e. cc
check_dest-ne-fault f (pos d) = ground (arith, setlists_before-ne-fault f.code d)

pub check_operands-ne-fault :
    (f : Code) (pc : ℕ) (i : Instruction) (op : OpCode) → check_operands f pc i op ≢ fault
unfolding check_operands
check_operands-ne-fault f pc i op = ground (arith, check_dest-ne-fault f (jump_dest pc i))

pub check_skip-ne-fault : (f : Code) (pc : ℕ) (op : OpCode) → check_skip f pc op ≢ fault
unfolding check_skip
check_skip-ne-fault f pc op = ground (arith, read-ne-fault f.code (pc + 1))

trace_jump-ne-fault : (lastpc reg pc last : ℕ) (d : ℤ) → trace_jump lastpc reg pc last d ≢ fault
unfolding trace_jump
trace_jump-ne-fault lastpc reg pc last (negsuc n) = λ e. cc
trace_jump-ne-fault lastpc reg pc last (pos d) = ground arith

check_call-ne-fault :
    (f : Code) (pc a b c : ℕ) → pc + 1 < length f.code → check_call f pc a b c ≢ fault
unfolding check_call check_open
check_call-ne-fault f pc a b c h = ground (arith, read-ne-fault f.code (pc + 1))

-- A constant that a checked operand names is there.
constant_in_range :
    (f : Code) (pc : ℕ) (i : Instruction) (op : OpCode)
    → opmodes op % 4 ≡ 1
    → opmodes op / 2 ^ 4 % 4 ≡ 3
    → check_operands f pc i op ≡ passed tt
    → getarg_bx i < length f.k
unfolding check_operands
constant_in_range f pc i op h1 h2 h = ground arith

-- An instruction other than the final RETURN has one after it.
module _ (f : Code) (ps : Protos) (lastpc reg pc last : ℕ) (i : Instruction)
    (inside : pc < length f.code) where
  pub switch-ne-fault :
      (op : OpCode)
      → check_operands f pc i op ≡ passed tt
      → (op ≢ OpCode.op_return → pc + 1 < length f.code)
      → switch f ps lastpc reg pc last i op ≢ fault
  unfolding switch opmodes
  switch-ne-fault OpCode.op_loadbool ok follows = ground (arith, read-ne-fault f.code (pc + 1))
  switch-ne-fault OpCode.op_getglobal ok follows =
      let h = constant_in_range f pc i OpCode.op_getglobal (refl) (refl) ok in
      ground (arith, read-ne-fault f.k (getarg_bx i))
  switch-ne-fault OpCode.op_setglobal ok follows =
      let h = constant_in_range f pc i OpCode.op_setglobal (refl) (refl) ok in
      ground (arith, read-ne-fault f.k (getarg_bx i))
  switch-ne-fault OpCode.op_jmp ok follows = trace_jump-ne-fault lastpc reg pc last (jump_dest pc i)
  switch-ne-fault OpCode.op_forloop ok follows =
      ground (arith, trace_jump-ne-fault lastpc reg pc last (jump_dest pc i))
  switch-ne-fault OpCode.op_forprep ok follows =
      ground (arith, trace_jump-ne-fault lastpc reg pc last (jump_dest pc i))
  switch-ne-fault OpCode.op_call ok follows =
      let h = follows (λ e. cc) in
      ground (arith, check_call-ne-fault f pc (getarg_a i) (getarg_b i) (getarg_c i))
  switch-ne-fault OpCode.op_tailcall ok follows =
      let h = follows (λ e. cc) in
      ground (arith, check_call-ne-fault f pc (getarg_a i) (getarg_b i) (getarg_c i))
  switch-ne-fault OpCode.op_vararg ok follows =
      let h = follows (λ e. cc) in
      unfold check_open in ground (arith, read-ne-fault f.code (pc + 1))
  switch-ne-fault OpCode.op_closure ok follows =
      grind (arith, read_nups-ne-fault ps (getarg_bx i), check_upvalues-ne-fault)
  switch-ne-fault OpCode.op_move ok follows = ground arith
  switch-ne-fault _ ok follows = ground arith

  trace_jump_progress :
      (d : ℤ) {r : ℕ × ℕ}
      → trace_jump lastpc reg pc last d ≡ passed r
      → last < length f.code
      → (pc ≤ r.0) × (r.1 < length f.code)
  unfolding trace_jump
  trace_jump_progress (negsuc n) e h = ground arith
  trace_jump_progress (pos d) e h = ground arith

  pub switch_progress :
      (op : OpCode) {r : ℕ × ℕ}
      → switch f ps lastpc reg pc last i op ≡ passed r
      → last < length f.code
      → (pc ≤ r.0) × (r.1 < length f.code)
  unfolding switch
  switch_progress OpCode.op_jmp e h = trace_jump_progress (jump_dest pc i) e h
  switch_progress OpCode.op_forloop e h = ground (arith, trace_jump_progress (jump_dest pc i))
  switch_progress OpCode.op_forprep e h = ground (arith, trace_jump_progress (jump_dest pc i))
  switch_progress OpCode.op_move e h = ground arith
  switch_progress _ e h = ground arith

-- The last instruction is a RETURN.
abbrev pub EndsInReturn : Code → Type 0
EndsInReturn f =
    (i : Instruction) × (get_elem? f.code (length f.code - 1) ≡ some i) × (get_opcode i ≡ 30)

pub precheck-EndsInReturn : (f : Code) → precheck f ≡ passed tt → EndsInReturn f
unfolding precheck
precheck-EndsInReturn f h = elim (Option-cases (get_elem? f.code (length f.code - 1))) [
  | inl out ↦ absurd (unfold number in ground arith)
  | inr (i, here) ↦ (i, here, unfold number in ground arith)
]

pub precheck-ne-fault : (f : Code) → precheck f ≢ fault
unfolding precheck
precheck-ne-fault f = ground (arith, read-ne-fault f.code (length f.code - 1))

decode_return : (i : Instruction) → get_opcode i ≡ 30 → decode i ≡ some OpCode.op_return
unfolding decode
decode_return i h = rw h

-- Only a RETURN stands at the end.
pub has_successor :
    (f : Code) (pc : ℕ) (i : Instruction) (op : OpCode)
    → EndsInReturn f
    → get_elem? f.code pc ≡ some i
    → decode i ≡ some op
    → op ≢ OpCode.op_return
    → pc + 1 < length f.code
has_successor f pc i op (last, here, ret) at_pc is_op other =
    elim (Bool-cases (pc == length f.code - 1)) [
      | inl at_end ↦
          (let same = (==_iff pc (length f.code - 1)).0 at_end in
            absurd (other (cc (decode_return last ret))))
      | inr inside ↦ ground (arith, lt_of_get_elem? f.code pc i at_pc)
    ]
