-- ===== src/Undump/Saved.antt =====
-- What a dump (src/ldump.c) keeps of a function, and the functions whose fields fit the C types.
use luarc.Prelude.{
  ◌^◌, ◌<◌, ◌≡◌, refl, ◌⊎◌, Bool, true, false, Option, none, some, [], ◌∷◌, length, All, arith,
}
use luarc.Chunk.{Str, str_eq, Code, Proto, proto, Protos, end, cons}
use luarc.Undump.Fields.{IsStr, IsWords, IsConstant, IsLocVar}

abbrev pub unknown_source : Str
unknown_source = b'=' ∷ b'?' ∷ []

-- A function's fields after a dump: stripping drops the debug information.
abbrev pub saved : Bool → Code → Code
saved true f = record f { source = some unknown_source; lineinfo = []; locvars = []; upvalues = [] }
saved false f = f

unfoldable mutual
  pub saved_function : Bool → Proto → Proto
  saved_function strip (proto f fs) = proto (saved strip f) (saved_protos strip fs)

  pub saved_protos : Bool → Protos → Protos
  saved_protos strip end = end
  saved_protos strip (cons f fs) = cons (saved_function strip f) (saved_protos strip fs)

-- The fields fit the C types: a byte, a non-negative int, a 32-bit instruction, a 64-bit number, and
-- every function has a source.
pub record IsCode (f : Code) : Type 0 where
  pub name : Str
  pub has_name : f.source ≡ some name
  pub name_fits : IsStr name
  pub linedefined : f.linedefined < 2 ^ 31
  pub lastlinedefined : f.lastlinedefined < 2 ^ 31
  pub nups : f.nups < 256
  pub numparams : f.numparams < 256
  pub is_vararg : f.is_vararg < 256
  pub maxstacksize : f.maxstacksize < 256
  pub code : IsWords f.code
  pub sizek : length f.k < 2 ^ 31
  pub k : All IsConstant f.k
  pub lineinfo : IsWords f.lineinfo
  pub sizelocvars : length f.locvars < 2 ^ 31
  pub locvars : All IsLocVar f.locvars
  pub sizeupvalues : length f.upvalues < 2 ^ 31
  pub upvalues : All IsStr f.upvalues

-- What the loader takes for the source of a function that has none of its own.
abbrev pub Inherits : Bool → Option Str → Str → Type 0
Inherits true parent p = p ≡ unknown_source
Inherits false parent p = (parent ≡ none) ⊎ (parent ≡ some p)

pub str_eq_sound : (s t : Str) → str_eq s t ≡ true → s ≡ t
str_eq_sound [] [] h = refl
str_eq_sound [] (y ∷ t) h = absurd (cc)
str_eq_sound (x ∷ s) [] h = absurd (cc)
str_eq_sound (x ∷ s) (y ∷ t) h = ground (arith, str_eq_sound s t)
