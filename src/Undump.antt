-- ===== src/Undump.antt =====
-- src/lundump.c: the loader of precompiled chunks, over the bytes that are still to be read.
-- `luaG_checkcode` (src/ldebug.c) enters as the argument `check`. The depth of nested functions that
-- `nCcalls` still admits is the fuel of `load_function`, so running out of it is the code's own
-- error. Allocation is taken to succeed.
pub mod Heads
pub mod Accepted
pub mod Saved
pub mod Examples
pub mod Fields
pub mod RoundTrip
use luarc.Prelude.{
  ℕ, zero, suc, ◌+◌, ◌*◌, ◌-◌, ◌^◌, Bool, true, false, not, Option, none, some, List, [], ◌∷◌, take,
  ◌==◌, ltb, leb, if◌then◌else◌,
}
use luarc.Chunk.{
  Str, str_eq, Constant, nil, boolean, number, string, LocVar, Code, Proto, proto, Protos, end,
  cons, header,
}

pub data Error : Type 0 where
  unexpected_end bad_integer bad_constant bad_header code_too_deep bad_code : Error

-- `fault` is the use of a NULL string.
pub data Result (A : Type 0) : Type 0 where
  ok : A → List ℕ → Result A
  err : Error → Result A
  fault : Result A

abbrev pub Load : Type 0 → Type 0
Load A = List ℕ → Result A

abbrev pub and_then : {A B : Type 0} → Result A → (A → Load B) → Result B
and_then (ok a r) f = f a r
and_then (err e) f = err e
and_then fault f = fault

infixl 5 ◌>>=◌ ◌>>◌
abbrev pub ◌>>=◌ : {A B : Type 0} → Load A → (A → Load B) → Load B
◌>>=◌ m f = λ z. and_then (m z) f

abbrev pub ◌>>◌ : {A B : Type 0} → Load A → Load B → Load B
m >> k = m >>= λ _. k

abbrev pub pure : {A : Type 0} → A → Load A
pure a z = ok a z

abbrev pub error : {A : Type 0} → Error → Load A
error e z = err e

-- `IF (c, s)`.
abbrev pub when : Bool → Error → Load (Unit {0})
when true e = error e
when false e = pure tt

-- `LoadBlock`: the next `n` bytes.
unfoldable pub load_block : ℕ → Load (List ℕ)
load_block zero z = ok [] z
load_block (suc n) [] = err Error.unexpected_end
load_block (suc n) (b ∷ z) = and_then (load_block n z) (λ bs. pure (b ∷ bs))

-- Bytes as a number, the lowest first.
abbrev pub little_endian : List ℕ → ℕ
little_endian [] = 0
little_endian (b ∷ bs) = b + 256 * little_endian bs

-- `LoadChar` and `LoadByte`: the byte, unsigned.
unfoldable pub load_char : Load ℕ
load_char = do bs ← load_block 1; pure (little_endian bs)

-- A variable of 4 bytes.
unfoldable pub load_word : Load ℕ
load_word = do bs ← load_block 4; pure (little_endian bs)

-- `LoadInt`: a negative int has its top bit set.
unfoldable pub load_int : Load ℕ
load_int = do x ← load_word; when (leb (2 ^ 31) x) Error.bad_integer; pure x

-- `LoadNumber`, and the size of `LoadString`.
unfoldable pub load_number : Load ℕ
load_number = do bs ← load_block 8; pure (little_endian bs)

-- `LoadString`.
unfoldable pub load_string : Load (Option Str)
load_string = do
  size ← load_number
  if size == 0 then pure none else do bs ← load_block size; pure (some (take (size - 1) bs))

-- A string whose reference count the caller raises: NULL is a fault.
abbrev pub counted : Option Str → Load Str
counted none z = fault
counted (some s) z = ok s z

-- `n` items, as the loops of the loader read them.
unfoldable pub load_many : {A : Type 0} → ℕ → Load A → Load (List A)
load_many zero m = pure []
load_many (suc n) m = do x ← m; xs ← load_many n m; pure (x ∷ xs)

-- `LoadCode`, and the line numbers of `LoadDebug`.
unfoldable pub load_vector : Load (List ℕ)
load_vector = do n ← load_int; load_many n load_word

unfoldable pub load_constant : Load Constant
load_constant = do
  t ← load_char
  if t == 0
      then pure nil
      else if t == 1
      then (do b ← load_char; pure (boolean (not (b == 0))))
      else if t == 3
      then (do n ← load_number; pure (number n))
      else if t == 4
      then (do s ← load_string; s' ← counted s; pure (string s'))
      else error Error.bad_constant

unfoldable pub load_locvar : Load LocVar
load_locvar = do
  s ← load_string
  name ← counted s
  startpc ← load_int
  endpc ← load_int
  pure (record { varname = name; startpc = startpc; endpc = endpc })

unfoldable pub load_upvalue : Load Str
load_upvalue = do s ← load_string; counted s

-- `LoadDebug`.
unfoldable pub load_debug : Load (List ℕ × List LocVar × List Str)
load_debug = do
  lineinfo ← load_vector
  n ← load_int
  locvars ← load_many n load_locvar
  m ← load_int
  upvalues ← load_many m load_upvalue
  pure (lineinfo, locvars, upvalues)

-- `LoadFunction` up to the nested functions. The debug fields are filled in later.
unfoldable pub load_head : Str → Load Code
load_head p = do
  s ← load_string
  linedefined ← load_int
  lastlinedefined ← load_int
  nups ← load_char
  numparams ← load_char
  is_vararg ← load_char
  maxstacksize ← load_char
  code ← load_vector
  n ← load_int
  k ← load_many n load_constant
  pure (record {
    source = elim s [ none ↦ some p | some x ↦ some x ];
    linedefined = linedefined;
    lastlinedefined = lastlinedefined;
    nups = nups;
    numparams = numparams;
    is_vararg = is_vararg;
    maxstacksize = maxstacksize;
    code = code;
    k = k;
    lineinfo = [];
    locvars = [];
    upvalues = [];
  })

abbrev pub source_of : Code → Str → Str
source_of f p = elim f.source [ none ↦ p | some s ↦ s ]

unfoldable pub load_protos : ℕ → Load Proto → Load Protos
load_protos zero m = pure end
load_protos (suc n) m = do f ← m; fs ← load_protos n m; pure (cons f fs)

abbrev pub with_debug : Code → List ℕ × List LocVar × List Str → Code
with_debug f (ls, vs, us) = record f { lineinfo = ls; locvars = vs; upvalues = us }

-- `LoadFunction`, with `depth` calls left before LUAI_MAXCCALLS.
unfoldable pub load_function : (Proto → Bool) → (depth : ℕ) → Str → Load Proto
load_function check zero p = error Error.code_too_deep
load_function check (suc depth) p = do
  f ← load_head p
  n ← load_int
  fs ← load_protos n (load_function check depth (source_of f p))
  d ← load_debug
  when (not (check (proto (with_debug f d) fs))) Error.bad_code
  pure (proto (with_debug f d) fs)

-- `LoadHeader`.
unfoldable pub load_header : Load (Unit {0})
load_header = do bs ← load_block 12; when (not (str_eq header bs)) Error.bad_header

-- `luaU_undump`, called with `depth` calls left: "=?" is the source of a chunk that has none.
unfoldable pub undump : (Proto → Bool) → (depth : ℕ) → Load Proto
undump check depth = load_header >> load_function check depth (b'=' ∷ b'?' ∷ [])
