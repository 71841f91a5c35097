-- ===== src/Undump/RoundTrip.antt =====
-- `luaU_undump` (src/lundump.c) after `luaU_dump` (src/ldump.c) gives the function back, without its
-- debug information if that was stripped.
use mathlib.Core.List.{append_assoc}
use luarc.Prelude.{
  ℕ, zero, suc, ◌^◌, ◌<◌, ◌≡◌, refl, inl, Bool, true, false, Option, none, List, ◌++◌,
}
use luarc.Chunk.{Str, Proto, proto, Protos, end, cons, length_protos, header}
use luarc.Dump.{dump_function, dump_protos, dump}
use luarc.Undump.{ok, load_block, source_of, load_protos, load_function, load_header, undump}
use luarc.Undump.Fields.{load_int-bytes32}
use luarc.Undump.Heads.{
  source_of-headed, with_debug-headed, headed, load_head-dump, load_debug-dump,
}
use luarc.Undump.Saved.{unknown_source, saved_function, saved_protos, IsCode, Inherits}

-- The functions fit, nest at most `depth` deep, and pass `luaG_checkcode` once loaded.
unfoldable mutual
  pub Loads : (Proto → Bool) → Bool → ℕ → Proto → Type 0
  Loads check strip zero f = ⊥
  Loads check strip (suc depth) (proto f fs) =
      IsCode f
      × (length_protos fs < 2 ^ 31)
      × (check (saved_function strip (proto f fs)) ≡ true)
      × LoadsAll check strip depth fs

  pub LoadsAll : (Proto → Bool) → Bool → ℕ → Protos → Type 0
  LoadsAll check strip depth end = Unit {0}
  LoadsAll check strip depth (cons f fs) = Loads check strip depth f × LoadsAll check strip depth fs

root-Inherits : (strip : Bool) → Inherits strip none unknown_source
root-Inherits true = refl
root-Inherits false = inl refl

mutual
  unfolding load_function load_protos dump_function dump_protos saved_function saved_protos Loads
      LoadsAll

  load_function-dump :
      (check : Proto → Bool) (strip : Bool) (parent : Option Str) (p : Str) (depth : ℕ) (f : Proto)
      → Inherits strip parent p
      → Loads check strip depth f
      → (r : List ℕ)
      → load_function check depth p (dump_function strip parent f ++ r)
        ≡ ok (saved_function strip f) r
  load_function-dump check strip parent p zero f inherits h r = absurd h
  load_function-dump check strip parent p (suc depth) (proto f fs) inherits h r =
      simp append_assoc (
        rw
          (
            load_head-dump strip parent p f h.0 inherits _,
            load_int-bytes32 (length_protos fs) _ h.1,
            load_protos-dump check strip f.source (source_of (headed strip f) p) depth fs
                (source_of-headed strip f p h.0) h.3 _,
            load_debug-dump strip f r h.0,
          )
          (rw (with_debug-headed strip f, h.2)))

  load_protos-dump :
      (check : Proto → Bool) (strip : Bool) (parent : Option Str) (p : Str) (depth : ℕ)
      (fs : Protos)
      → Inherits strip parent p
      → LoadsAll check strip depth fs
      → (r : List ℕ)
      → load_protos
          (length_protos fs)
          (load_function check depth p)
          (dump_protos strip parent fs ++ r)
        ≡ ok (saved_protos strip fs) r
  load_protos-dump check strip parent p depth end inherits h r = refl
  load_protos-dump check strip parent p depth (cons f fs) inherits h r = rw (
    append_assoc (dump_function strip parent f) (dump_protos strip parent fs) r,
    load_function-dump check strip parent p depth f inherits h.0 _,
    load_protos-dump check strip parent p depth fs inherits h.1 r,
  )

-- Undumping a dumped function, whatever follows it in the stream, gives the function back and leaves
-- what follows: all fields of it and of its nested functions when debug information is kept, and the
-- same without line numbers, local and upvalue names, and with the source "=?" when it is stripped.
-- The condition is that sizes and numbers fit their C types, that functions nest no deeper than the
-- calls left, and that `luaG_checkcode` accepts every loaded function; a chunk that keeps its
-- sources is dumped with the source of its main function, which is not NULL.
pub undump-dump :
    (check : Proto → Bool) (strip : Bool) (depth : ℕ) (f : Proto)
    → Loads check strip depth f
    → (r : List ℕ) → undump check depth (dump strip f ++ r) ≡ ok (saved_function strip f) r
unfolding undump dump load_header load_block header
undump-dump check strip depth f h r =
    load_function-dump check strip none unknown_source depth f (root-Inherits strip) h r
