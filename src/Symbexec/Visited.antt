-- ===== src/Symbexec/Visited.antt =====
-- The instructions that the checking run of `symbexec` (src/ldebug.c) comes to, and what it has checked
-- of each.
use mathlib.Core.Path.{subst}
use luarc.Prelude.{
  ==_iff, Bool-cases, ℕ, zero, suc, ◌-◌, ◌%◌, ◌^◌, ◌≤◌, ◌<◌, ◌≡◌, ◌⊎◌, refl, sym, Bool, true, false,
  ◌&&◌, Option, none, some, List, length, get_elem?, ltb, ◌==◌, if◌then◌else◌, Option-cases, inl,
  inr, arith, lt→ltb,
}
use luarc.Prelude.Int.{ℤ, pos, negsuc}
use luarc.Chunk.{proto, Code, Protos}
use luarc.Opcodes.{
  Instruction, get_opcode, getarg_a, no_reg, OpCode, opcodes, number, decode, opmodes, test_a_mode,
}
use luarc.Checker.{
  Check, passed, failed, fault, ◌>>=◌, read, long_setlist, jump_dest, check_operands, check_skip,
  precheck,
}
use luarc.Symbexec.{accepts, checkcode, trace_jump, switch, round, scan, symbexec}

-- The positions that the run comes to from `start`: it passes over the count of a long SETLIST.
pub data Visited (code : List Instruction) (start : ℕ) : ℕ → Type 0 where
  here : Visited code start start
  next :
      {pc : ℕ} {i : Instruction}
      → Visited code start pc
      → get_elem? code pc ≡ some i
      → long_setlist i ≡ false
      → Visited code start (suc pc)
  over :
      {pc : ℕ} {i : Instruction}
      → Visited code start pc
      → get_elem? code pc ≡ some i
      → long_setlist i ≡ true
      → Visited code start (suc (suc pc))

-- What has been checked of the instruction at `pc`.
pub record Checked (f : Code) (ps : Protos) (lastpc pc : ℕ) : Type 0 where
  pub instr : Instruction
  pub op : OpCode
  pub last : ℕ
  pub result : ℕ × ℕ
  pub at_pc : get_elem? f.code pc ≡ some instr
  pub decodes : decode instr ≡ some op
  pub register : ltb (getarg_a instr) f.maxstacksize ≡ true
  pub operands : check_operands f pc instr op ≡ passed tt
  pub skip : check_skip f pc op ≡ passed tt
  pub switched : switch f ps lastpc no_reg pc last instr op ≡ passed result

pub Visited-le : {code : List Instruction} {s q : ℕ} → Visited code s q → s ≤ q
Visited-le here = omega arith
Visited-le (next v e l) = omega (arith, Visited-le v)
Visited-le (over v e l) = omega (arith, Visited-le v)

abbrev after : Instruction → ℕ → ℕ
after i s = if long_setlist i then suc (suc s) else suc s

moved-after :
    (code : List Instruction) {s pc : ℕ} (i : Instruction) {j : Instruction}
    → get_elem? code s ≡ some i
    → get_elem? code pc ≡ some j
    → pc ≡ s
    → long_setlist j ≡ false
    → after i s ≡ suc pc
moved-after code i h e same l = ground arith

moved_over-after :
    (code : List Instruction) {s pc : ℕ} (i : Instruction) {j : Instruction}
    → get_elem? code s ≡ some i
    → get_elem? code pc ≡ some j
    → pc ≡ s
    → long_setlist j ≡ true
    → after i s ≡ suc (suc pc)
moved_over-after code i h e same l = ground arith

-- The run goes on from the instruction after its first.
Visited-uncons :
    {code : List Instruction} {s q : ℕ} (i : Instruction)
    → get_elem? code s ≡ some i
    → Visited code s q
    → (q ≡ s) ⊎ Visited code (after i s) q
Visited-uncons i h here = inl refl
Visited-uncons {code} {s} i h (next v e l) = elim (Visited-uncons i h v) [
  | inl same ↦ inr (subst (Visited code (after i s)) (moved-after code i h (e) same l) here)
  | inr w ↦ inr (next w e l)
]
Visited-uncons {code} {s} i h (over v e l) = elim (Visited-uncons i h v) [
  | inl same ↦ inr (subst (Visited code (after i s)) (moved_over-after code i h e same l) here)
  | inr w ↦ inr (over w e l)
]

-- A test of every number under a bound.
unfoldable pub holds_under : (ℕ → Bool) → (bound : ℕ) → Bool
holds_under test zero = true
holds_under test (suc bound) = holds_under test bound && test bound

pub holds_under_lem :
    (test : ℕ → Bool) (bound k : ℕ) → holds_under test bound ≡ true → k < bound → test k ≡ true
unfolding holds_under
holds_under_lem test zero k all under = absurd (omega arith)
holds_under_lem test (suc bound) k all under = elim (Bool-cases (k == bound)) [
  | inl top ↦ let same = (==_iff k bound).0 top in ground arith
  | inr lower ↦ holds_under_lem test bound k (ground arith) (ground arith)
]

abbrev numbered : ℕ → Option OpCode → Bool
numbered n none = true
numbered n (some op) = number op == n

numbered_table : holds_under (λ n. numbered n (get_elem? opcodes n)) 64 ≡ true
unfolding holds_under number
numbered_table = refl

get_elem?-numbered : (n : ℕ) → n < 64 → numbered n (get_elem? opcodes n) ≡ true
get_elem?-numbered n h =
    holds_under_lem (λ n. numbered n (get_elem? opcodes n)) 64 n numbered_table h

-- An instruction has the number of the opcode that it decodes to.
pub decode-number : (i : Instruction) (op : OpCode) → decode i ≡ some op → get_opcode i ≡ number op
unfolding decode get_opcode
decode-number i op d = ground (arith, get_elem?-numbered (i % 2 ^ 6))

trace_jump-no_reg :
    (lastpc pc last : ℕ) (d : ℤ) → trace_jump lastpc no_reg pc last d ≡ passed (pc, last)
unfolding trace_jump
trace_jump-no_reg lastpc pc last (pos d) = refl
trace_jump-no_reg lastpc pc last (negsuc n) = refl

-- A checking run moves on by one, or past the count of a long SETLIST.
switch_next :
    (f : Code) (ps : Protos) (lastpc pc last : ℕ) (i : Instruction) (op : OpCode) {r : ℕ × ℕ}
    → decode i ≡ some op
    → switch f ps lastpc no_reg pc last i op ≡ passed r
    → suc r.0 ≡ after i pc
unfolding switch number
switch_next f ps lastpc pc last i OpCode.op_setlist d e =
    let n = decode-number i OpCode.op_setlist d in ground arith
switch_next f ps lastpc pc last i OpCode.op_jmp d e =
    let n = decode-number i OpCode.op_jmp d in
    ground (arith, trace_jump-no_reg lastpc pc last (jump_dest pc i))
switch_next f ps lastpc pc last i OpCode.op_forloop d e =
    let n = decode-number i OpCode.op_forloop d in
    ground (arith, trace_jump-no_reg lastpc pc last (jump_dest pc i))
switch_next f ps lastpc pc last i OpCode.op_forprep d e =
    let n = decode-number i OpCode.op_forprep d in
    ground (arith, trace_jump-no_reg lastpc pc last (jump_dest pc i))
switch_next f ps lastpc pc last i OpCode.op_move d e =
    let n = decode-number i OpCode.op_move d in ground arith
switch_next f ps lastpc pc last i op d e = let n = decode-number i op d in ground arith

>>=-passed :
    {A B : Type 0} (m : Check A) (f : A → Check B) {b : B}
    → (m >>= f) ≡ passed b
    → (a : A) × (m ≡ passed a) × (f a ≡ passed b)
>>=-passed (passed a) f h = (a, refl, h)
>>=-passed failed f h = cc
>>=-passed fault f h = cc

round-Checked :
    (f : Code) (ps : Protos) (lastpc pc last : ℕ) {r : ℕ × ℕ}
    → round f ps lastpc no_reg pc last ≡ passed r
    → (c : Checked f ps lastpc pc) × (suc r.0 ≡ after c.instr pc)
unfolding round
round-Checked f ps lastpc pc last {r} h = elim (Option-cases (get_elem? f.code pc)) [
  | inl out ↦ absurd (ground arith)
  | inr (i, at_pc) ↦ elim (Option-cases (decode i)) [
    | inl bad ↦ absurd (ground arith)
    | inr (op, is_op) ↦
        let last' = if test_a_mode (opmodes op) && (getarg_a i == no_reg) then pc else last in
        let switched : switch f ps lastpc no_reg pc last' i op ≡ passed r = ground arith in
        (
          record {
            instr = i;
            op = op;
            last = last';
            result = r;
            at_pc = at_pc;
            decodes = is_op;
            register = ground arith;
            operands = ground arith;
            skip = ground arith;
            switched = switched;
          },
          switch_next f ps lastpc pc last' i op is_op switched,
        )
  ]
]

scan-Checked :
    (f : Code) (ps : Protos) (lastpc fuel pc last : ℕ) {l q : ℕ}
    → scan f ps lastpc no_reg fuel pc last ≡ passed l
    → Visited f.code pc q
    → q < lastpc
    → Checked f ps lastpc q
unfolding scan
scan-Checked f ps lastpc zero pc last h v lt = absurd (cc)
scan-Checked f ps lastpc (suc fuel) pc last {l} {q} h v lt =
    let more = lt→ltb pc lastpc (omega (arith, Visited-le v)) in
    let run : (round f ps lastpc no_reg pc last >>= λ r. scan f ps lastpc no_reg fuel (suc r.0) r.1)
        ≡ passed l =
      rw more at h in
    let (r, first, rest) =
      >>=-passed (round f ps lastpc no_reg pc last)
        (λ r. scan f ps lastpc no_reg fuel (suc r.0) r.1) run in
    let (c, moved) = round-Checked f ps lastpc pc last first in
    elim (Visited-uncons c.instr c.at_pc v) [
      | inl same ↦ subst (Checked f ps lastpc) (sym same) c
      | inr w ↦
          scan-Checked f ps lastpc fuel (suc r.0) r.1 rest
            (subst (λ n. Visited f.code n q) (sym moved) w) lt
    ]

accepts_inv : (c : Check Instruction) → accepts c ≡ true → (i : Instruction) × (c ≡ passed i)
accepts_inv (passed i) h = (i, refl)
accepts_inv failed h = cc
accepts_inv fault h = cc

-- What `luaG_checkcode` has checked of every instruction that its run comes to, and that its
-- first checks have passed.
pub checkcode-Checked :
    (f : Code) (ps : Protos)
    → checkcode (proto f ps) ≡ true
    → (precheck f ≡ passed tt)
      × ((q : ℕ) → Visited f.code 0 q → q < length f.code → Checked f ps (length f.code) q)
unfolding checkcode symbexec
checkcode-Checked f ps h =
    let (i, ran) = accepts_inv (symbexec f ps (length f.code) no_reg) h in
    let tail =
      scan f ps (length f.code) no_reg (suc (length f.code)) 0 (length f.code - 1) >>= λ last.
      read f.code last in
    let (ok, pre, rest) = >>=-passed (precheck f) (λ _. tail) ran in
    let (l, scanned, _) =
      >>=-passed (scan f ps (length f.code) no_reg (suc (length f.code)) 0 (length f.code - 1))
        (λ last. read f.code last) rest in
    (
      pre,
      λ q v lt.
          scan-Checked f ps (length f.code) (suc (length f.code)) 0 (length f.code - 1) scanned v
            lt,
    )
