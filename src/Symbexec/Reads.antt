-- ===== src/Symbexec/Reads.antt =====
-- `symbexec` (src/ldebug.c) reads no array out of range, and its loop ends.
use luarc.Prelude.{
  ℕ, zero, suc, ◌+◌, ◌-◌, ◌≤◌, ◌<◌, ◌≡◌, ◌≢◌, refl, ◌&&◌, length, get_elem?, ltb, ◌==◌,
  if◌then◌else◌, Bool-cases, inl, inr, arith, lt_of_get_elem?, ltb→lt, Option-cases,
}
use luarc.Chunk.{Code, Protos}
use luarc.Opcodes.{Instruction, getarg_a, decode, opmodes, test_a_mode}
use luarc.Checker.{Check, passed, failed, fault, ◌>>=◌, ◌>>◌, read, precheck}
use luarc.Symbexec.{round, scan, symbexec}
use luarc.Symbexec.Operands.{
  EndsInReturn, precheck-EndsInReturn, has_successor, read-ne-fault, check_operands-ne-fault,
  check_skip-ne-fault, precheck-ne-fault, switch-ne-fault, switch_progress,
}

round-ne-fault :
    (f : Code) (ps : Protos) (lastpc reg pc last : ℕ)
    → EndsInReturn f
    → pc < length f.code
    → round f ps lastpc reg pc last ≢ fault
unfolding round
round-ne-fault f ps lastpc reg pc last ends inside = elim (Option-cases (get_elem? f.code pc)) [
  | inl out ↦ ground (arith, read-ne-fault f.code pc)
  | inr (i, at_pc) ↦ elim (Option-cases (decode i)) [
    | inl bad ↦ ground arith
    | inr (op, is_op) ↦ ground (
      arith,
      check_operands-ne-fault f pc i op,
      check_skip-ne-fault f pc op,
      switch-ne-fault f ps lastpc reg pc
          (if test_a_mode (opmodes op) && (getarg_a i == reg) then pc else last) i inside op,
      has_successor f pc i op ends at_pc is_op,
    )
  ]
]

round_progress :
    (f : Code) (ps : Protos) (lastpc reg pc last : ℕ) {r : ℕ × ℕ}
    → round f ps lastpc reg pc last ≡ passed r
    → pc < length f.code
    → last < length f.code
    → (pc ≤ r.0) × (r.1 < length f.code)
unfolding round
round_progress f ps lastpc reg pc last {r} e inside h = elim (Option-cases (get_elem? f.code pc)) [
  | inl out ↦ absurd (ground arith)
  | inr (i, at_pc) ↦ elim (Option-cases (decode i)) [
    | inl bad ↦ absurd (ground arith)
    | inr (op, is_op) ↦ ground (
      arith,
      switch_progress f ps lastpc reg pc
          (if test_a_mode (opmodes op) && (getarg_a i == reg) then pc else last) i inside op
          {r = r},
    )
  ]
]

-- What a run of the loop gives.
abbrev Ends : Code → Check ℕ → Type 0
Ends f (passed last) = last < length f.code
Ends f failed = Unit {0}
Ends f fault = ⊥

bind-Ends :
    (f : Code) (c : Check (ℕ × ℕ)) (k : ℕ × ℕ → Check ℕ)
    → c ≢ fault
    → ((r : ℕ × ℕ) → c ≡ passed r → Ends f (k r))
    → Ends f (c >>= k)
bind-Ends f (passed r) k no_fault h = h r refl
bind-Ends f failed k no_fault h = tt
bind-Ends f fault k no_fault h = no_fault refl

scan-Ends :
    (f : Code) (ps : Protos) (lastpc reg fuel pc last : ℕ)
    → EndsInReturn f
    → lastpc ≤ length f.code
    → last < length f.code
    → lastpc < fuel + pc
    → 0 < fuel
    → Ends f (scan f ps lastpc reg fuel pc last)
unfolding scan
scan-Ends f ps lastpc reg zero pc last ends le h lt some_fuel = absurd (omega arith)
scan-Ends f ps lastpc reg (suc fuel) pc last ends le h lt some_fuel =
    elim (Bool-cases (ltb pc lastpc)) [
      | inl more ↦ rw more (
          bind-Ends f (round f ps lastpc reg pc last) (λ r. scan f ps lastpc reg fuel (suc r.0) r.1)
            (round-ne-fault f ps lastpc reg pc last ends (omega (arith, ltb→lt pc lastpc more)))
            (λ r e.
              let inside : pc < length f.code = omega (arith, ltb→lt pc lastpc more) in
              let (on, inside') = round_progress f ps lastpc reg pc last e inside h in
              scan-Ends f ps lastpc reg fuel (suc r.0) r.1 ends le inside' (omega arith)
                (omega (arith, ltb→lt pc lastpc more))))
      | inr done ↦ rw done h
    ]

read-Ends : (f : Code) (c : Check ℕ) → Ends f c → (c >>= λ last. read f.code last) ≢ fault
read-Ends f (passed last) h = read-ne-fault f.code last h
read-Ends f failed h = λ e. cc
read-Ends f fault h = absurd h

after_check :
    (c : Check (Unit {0})) (m : Check Instruction)
    → c ≢ fault
    → (c ≡ passed tt → m ≢ fault)
    → (c >> m) ≢ fault
after_check (passed tt) m no_fault h = h refl
after_check failed m no_fault h = λ e. cc
after_check fault m no_fault h = absurd (no_fault refl)

-- `symbexec` of the instructions before `lastpc`, tracing a register or checking, reads nothing
-- outside the arrays of the function, and its loop ends: it does not fault.
pub symbexec-ne-fault :
    (f : Code) (ps : Protos) (lastpc reg : ℕ)
    → lastpc ≤ length f.code
    → symbexec f ps lastpc reg ≢ fault
unfolding symbexec
symbexec-ne-fault f ps lastpc reg le = after_check (precheck f) _ (precheck-ne-fault f) (λ ok.
    let ends = precheck-EndsInReturn f ok in
    let inside = lt_of_get_elem? f.code (length f.code - 1) ends.0 ends.1 in
    read-Ends f (scan f ps lastpc reg (suc lastpc) 0 (length f.code - 1)) (
      scan-Ends f ps lastpc reg (suc lastpc) 0 (length f.code - 1) ends le inside (omega arith)
        (omega arith)))
