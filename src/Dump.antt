-- ===== src/Dump.antt =====
-- src/ldump.c: a function as the bytes that it hands to the writer, one `DumpBlock` after another.
-- The writer is taken to accept every block, so `status` stays 0.
use luarc.Prelude.{
  ℕ, ◌+◌, ◌%◌, Bool, Option, none, some, List, [], ◌∷◌, ◌++◌, length, if◌then◌else◌, ◌||◌,
}
use luarc.Chunk.{
  Str, same_source, Constant, nil, boolean, number, string, LocVar, Code, Proto, proto, Protos, end,
  cons, length_protos, bytes32, bytes64, header,
}

-- `DumpChar`, `DumpInt` and `DumpNumber`.
abbrev pub dump_char : ℕ → List ℕ
dump_char y = y % 256 ∷ []

abbrev pub dump_int : ℕ → List ℕ
dump_int = bytes32

abbrev pub dump_number : ℕ → List ℕ
dump_number = bytes64

-- A loop that dumps the items of an array.
abbrev pub dump_all : {A : Type 0} → (A → List ℕ) → List A → List ℕ
dump_all d [] = []
dump_all d (x ∷ xs) = d x ++ dump_all d xs

-- `DumpVector`.
unfoldable pub dump_vector : List ℕ → List ℕ
dump_vector xs = dump_int (length xs) ++ dump_all bytes32 xs

-- `DumpString`: the size counts the closing zero; NULL has size 0.
unfoldable pub dump_string : Option Str → List ℕ
dump_string none = bytes64 0
dump_string (some s) = bytes64 (length s + 1) ++ (s ++ 0 ∷ [])

unfoldable pub dump_constant : Constant → List ℕ
dump_constant nil = dump_char 0
dump_constant (boolean b) = dump_char 1 ++ dump_char (if b then 1 else 0)
dump_constant (number n) = dump_char 3 ++ dump_number n
dump_constant (string s) = dump_char 4 ++ dump_string (some s)

unfoldable pub dump_locvar : LocVar → List ℕ
dump_locvar v = dump_string (some v.varname) ++ (dump_int v.startpc ++ dump_int v.endpc)

unfoldable pub dump_upvalue : Str → List ℕ
dump_upvalue s = dump_string (some s)

-- `DumpDebug`, with the three arrays empty when stripping.
unfoldable pub dump_debug : Bool → Code → List ℕ
dump_debug strip f =
    let lines : List ℕ = if strip then [] else f.lineinfo in
    let locals : List LocVar = if strip then [] else f.locvars in
    let ups : List Str = if strip then [] else f.upvalues in
    dump_vector lines
    ++ (dump_int (length locals)
        ++ (dump_all dump_locvar locals ++ (dump_int (length ups) ++ dump_all dump_upvalue ups)))

-- `DumpFunction` up to the nested functions: `p` is the source of the enclosing one.
unfoldable pub dump_head : Bool → Option Str → Code → List ℕ
dump_head strip p f =
    dump_string (if same_source f.source p || strip then none else f.source)
    ++ (dump_int f.linedefined
        ++ (dump_int f.lastlinedefined
            ++ (dump_char f.nups
                ++ (dump_char f.numparams
                    ++ (dump_char f.is_vararg
                        ++ (dump_char f.maxstacksize
                            ++ (dump_vector f.code
                                ++ (dump_int (length f.k) ++ dump_all dump_constant f.k))))))))

unfoldable mutual
  -- `DumpFunction`.
  pub dump_function : Bool → Option Str → Proto → List ℕ
  dump_function strip p (proto f fs) =
      dump_head strip p f
      ++ (dump_int (length_protos fs) ++ (dump_protos strip f.source fs ++ dump_debug strip f))

  -- The loop over the nested functions at the end of `DumpConstants`.
  pub dump_protos : Bool → Option Str → Protos → List ℕ
  dump_protos strip p end = []
  dump_protos strip p (cons f fs) = dump_function strip p f ++ dump_protos strip p fs

-- `luaU_dump`.
unfoldable pub dump : Bool → Proto → List ℕ
dump strip f = header ++ dump_function strip none f
