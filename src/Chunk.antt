-- ===== src/Chunk.antt =====
-- Precompiled chunks: the parts of `Proto` (src/lobject.h) that are saved, the byte forms of the C
-- types on a little-endian machine with 4-byte int and Instruction and 8-byte size_t and
-- lua_Number, and `luaU_header` (src/lundump.c).
use luarc.Prelude.{
  ℕ, suc, ◌/◌, ◌%◌, ◌^◌, Bool, true, false, Option, none, some, List, [], ◌∷◌, ◌++◌, ◌==◌, ◌&&◌,
}

-- The bytes of a string, without the closing zero. Equal bytes are one interned string.
abbrev pub Str : Type 0
Str = List ℕ

abbrev pub str_eq : Str → Str → Bool
str_eq [] [] = true
str_eq (x ∷ xs) (y ∷ ys) = (x == y) && str_eq xs ys
str_eq _ _ = false

-- `a == b` of two string pointers, either of which may be NULL.
abbrev pub same_source : Option Str → Option Str → Bool
same_source none none = true
same_source (some a) (some b) = str_eq a b
same_source _ _ = false

pub data Constant : Type 0 where
  nil : Constant
  boolean : Bool → Constant
  number : ℕ → Constant
  string : Str → Constant

pub record LocVar : Type 0 where
  pub varname : Str
  pub startpc : ℕ
  pub endpc : ℕ

-- The fields of a function beside its nested functions.
pub record Code : Type 0 where
  pub source : Option Str
  pub linedefined : ℕ
  pub lastlinedefined : ℕ
  pub nups : ℕ
  pub numparams : ℕ
  pub is_vararg : ℕ
  pub maxstacksize : ℕ
  pub code : List ℕ
  pub k : List Constant
  pub lineinfo : List ℕ
  pub locvars : List LocVar
  pub upvalues : List Str

mutual
  pub data Proto : Type 0 where
    proto : Code → Protos → Proto

  pub data Protos : Type 0 where
    end : Protos
    cons : Proto → Protos → Protos

abbrev pub length_protos : Protos → ℕ
length_protos end = 0
length_protos (cons f fs) = suc (length_protos fs)

-- The bytes of an `int` or an `Instruction`, and of a `size_t` or a `lua_Number`.
abbrev pub bytes32 : ℕ → List ℕ
bytes32 x = x % 256 ∷ x / 256 % 256 ∷ x / 65536 % 256 ∷ x / 16777216 % 256 ∷ []

abbrev pub bytes64 : ℕ → List ℕ
bytes64 x = bytes32 (x % 2 ^ 32) ++ bytes32 (x / 2 ^ 32)

-- `luaU_header`: "\033Lua", version, format, endianness, sizes, and whether numbers are integral.
unfoldable pub header : List ℕ
header = 27 ∷ 76 ∷ 117 ∷ 97 ∷ 0x51 ∷ 0 ∷ 1 ∷ 4 ∷ 8 ∷ 4 ∷ 8 ∷ 0 ∷ []
