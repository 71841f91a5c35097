-- ===== src/Undump/Heads.antt =====
-- `LoadFunction` and `LoadDebug` (src/lundump.c) read back what `DumpFunction` and `DumpDebug`
-- (src/ldump.c) wrote, the nested functions apart.
use mathlib.Core.List.{append_assoc}
use luarc.Prelude.{
  ℕ, ◌≡◌, refl, sym, ap, ◌∙◌, inl, inr, Bool, true, false, Option, none, some, List, [], ◌++◌,
  length, ◌||◌, if◌then◌else◌, Bool-cases,
}
use luarc.Chunk.{Str, str_eq, same_source, Code}
use luarc.Dump.{
  dump_string, dump_vector, dump_constant, dump_locvar, dump_upvalue, dump_debug, dump_head,
}
use luarc.Undump.{
  ok, load_string, load_vector, load_word, load_block, load_many, load_int, load_debug, load_head,
  source_of, with_debug,
}
use luarc.Undump.Fields.{
  IsStr, load_char-byte, load_int-bytes32, load_string-dump, load_string-null, load_vector-dump,
  load_many-dump_all, load_constant-dump, load_locvar-dump, load_upvalue-dump,
}
use luarc.Undump.Saved.{unknown_source, saved, IsCode, Inherits, str_eq_sound}

load_string-option :
    (s : Option Str) (r : List ℕ)
    → elim s as (λ _. Type 0) [ none ↦ Unit {0} | some x ↦ IsStr x ]
    → load_string (dump_string s ++ r) ≡ ok s r
load_string-option none r h = load_string-null r
load_string-option (some x) r h = load_string-dump x r h

pub headed : Bool → Code → Code
headed strip f = record f {
  source = (saved strip f).source;
  lineinfo = [];
  locvars = [];
  upvalues = [];
}

-- The source that `DumpFunction` writes, and what the loader makes of it.
written : Bool → Option Str → Code → Option Str
written strip parent f = if same_source f.source parent || strip then none else f.source

written-fits :
    (strip : Bool) (parent : Option Str) (f : Code)
    → IsCode f
    → elim (written strip parent f) as (λ _. Type 0) [ none ↦ Unit {0} | some x ↦ IsStr x ]
unfolding written
written-fits strip parent f is =
    elim (same_source f.source parent || strip)
      as (λ b. elim (if b then none else f.source) as (λ _. Type 0) [
        | none ↦ Unit {0}
        | some x ↦ IsStr x
      ]) [ true ↦ tt | false ↦ rw (is.has_name) is.name_fits ]

written-source :
    (strip : Bool) (parent : Option Str) (p : Str) (f : Code)
    → IsCode f
    → Inherits strip parent p
    → elim (written strip parent f) as (λ _. Option Str) [ none ↦ some p | some x ↦ some x ]
      ≡ (saved strip f).source
unfolding written
written-source true parent p f is inherits =
    elim (same_source f.source parent)
      as (λ b.
        elim (if b || true then none else f.source) as (λ _. Option Str) [
          | none ↦ some p
          | some x ↦ some x
        ]
        ≡ some unknown_source) [ true ↦ ap some inherits | false ↦ ap some inherits ]
written-source false none p f is inherits = rw (is.has_name) refl
written-source false (some q) p f is inherits =
    rw (is.has_name) (elim (Bool-cases (str_eq is.name q)) [
      | inl same ↦ rw (same) (elim inherits [
        | inl none_is ↦ absurd cc
        | inr is_p ↦ sym is_p ∙ ap some (sym (str_eq_sound is.name q same))
      ])
      | inr other ↦ rw (other) refl
    ])

pub load_head-dump :
    (strip : Bool) (parent : Option Str) (p : Str) (f : Code)
    → IsCode f
    → Inherits strip parent p
    → (r : List ℕ) → load_head p (dump_head strip parent f ++ r) ≡ ok (headed strip f) r
unfolding load_head dump_head headed written
load_head-dump strip parent p f is inherits r = simp append_assoc (
    rw (
      load_string-option (written strip parent f) _ (written-fits strip parent f is),
      load_int-bytes32 f.linedefined _ is.linedefined,
      load_int-bytes32 f.lastlinedefined _ is.lastlinedefined,
      load_char-byte f.nups _ is.nups,
      load_char-byte f.numparams _ is.numparams,
      load_char-byte f.is_vararg _ is.is_vararg,
      load_char-byte f.maxstacksize _ is.maxstacksize,
      load_vector-dump f.code _ is.code,
      load_int-bytes32 (length f.k) _ is.sizek,
      load_many-dump_all _ dump_constant load_constant-dump f.k _ is.k,
      written-source strip parent p f is inherits,
    ))

load_debug-stripped :
    (f : Code) (r : List ℕ) → load_debug (dump_debug true f ++ r) ≡ ok ([], [], []) r
unfolding load_debug dump_debug dump_vector load_vector load_int load_word load_block load_many
load_debug-stripped f r = refl

pub load_debug-dump :
    (strip : Bool) (f : Code) (r : List ℕ)
    → IsCode f
    → load_debug (dump_debug strip f ++ r)
      ≡ ok ((saved strip f).lineinfo, (saved strip f).locvars, (saved strip f).upvalues) r
unfolding load_debug dump_debug
load_debug-dump true f r is = load_debug-stripped f r
load_debug-dump false f r is = simp append_assoc (
    rw (
      load_vector-dump f.lineinfo _ is.lineinfo,
      load_int-bytes32 (length f.locvars) _ is.sizelocvars,
      load_many-dump_all _ dump_locvar load_locvar-dump f.locvars _ is.locvars,
      load_int-bytes32 (length f.upvalues) _ is.sizeupvalues,
      load_many-dump_all _ dump_upvalue load_upvalue-dump f.upvalues _ is.upvalues,
    ))

pub source_of-headed :
    (strip : Bool) (f : Code) (p : Str)
    → IsCode f
    → Inherits strip f.source (source_of (headed strip f) p)
unfolding headed
source_of-headed true f p is = refl
source_of-headed false f p is = rw (is.has_name) (inr refl)

pub with_debug-headed :
    (strip : Bool) (f : Code)
    → with_debug
        (headed strip f)
        ((saved strip f).lineinfo, (saved strip f).locvars, (saved strip f).upvalues)
      ≡ saved strip f
unfolding headed
with_debug-headed true f = refl
with_debug-headed false f = refl
