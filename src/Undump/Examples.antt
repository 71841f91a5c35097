-- ===== src/Undump/Examples.antt =====
-- A chunk with a nested function through `luaU_dump` (src/ldump.c) and `luaU_undump`
-- (src/lundump.c).
use luarc.Prelude.{◌≡◌, refl, Bool, true, false, some, [], ◌∷◌, ◌++◌, arith}
use luarc.Chunk.{Str, nil, boolean, number, string, Code, Proto, proto, end, cons}
use luarc.Dump.{dump}
use luarc.Undump.{ok, undump}
use luarc.Undump.RoundTrip.{Loads, undump-dump}
use luarc.Undump.Saved.{IsCode, saved_function}

abbrev pub chunk_name : Str
chunk_name = b'@' ∷ b'a' ∷ []

-- `local x = 1.5; return function() return x end`, its instructions as words.
abbrev pub inner : Code
inner = record {
  source = some chunk_name;
  linedefined = 1;
  lastlinedefined = 1;
  nups = 1;
  numparams = 0;
  is_vararg = 0;
  maxstacksize = 2;
  code = 4 ∷ 16777246 ∷ 8388638 ∷ [];
  k = [];
  lineinfo = 1 ∷ 1 ∷ 1 ∷ [];
  locvars = [];
  upvalues = (b'x' ∷ []) ∷ [];
}

abbrev pub outer : Code
outer = record {
  source = some chunk_name;
  linedefined = 0;
  lastlinedefined = 0;
  nups = 0;
  numparams = 0;
  is_vararg = 2;
  maxstacksize = 2;
  code = 1 ∷ 100 ∷ 0 ∷ 16777310 ∷ 8388638 ∷ [];
  k = number 0x3ff8000000000000 ∷ string (b'x' ∷ []) ∷ boolean true ∷ nil ∷ [];
  lineinfo = 1 ∷ 1 ∷ 1 ∷ 1 ∷ 1 ∷ [];
  locvars = record { varname = b'x' ∷ []; startpc = 1; endpc = 4 } ∷ [];
  upvalues = [];
}

abbrev pub chunk : Proto
chunk = proto outer (cons (proto inner end) end)

abbrev accepts : Proto → Bool
accepts f = true

pub inner-IsCode : IsCode inner
inner-IsCode = record {
  name = chunk_name;
  has_name = refl;
  name_fits = omega arith;
  linedefined = omega arith;
  lastlinedefined = omega arith;
  nups = omega arith;
  numparams = omega arith;
  is_vararg = omega arith;
  maxstacksize = omega arith;
  code = (omega arith, (omega arith, (omega arith, (omega arith, tt))));
  sizek = omega arith;
  k = tt;
  lineinfo = (omega arith, (omega arith, (omega arith, (omega arith, tt))));
  sizelocvars = omega arith;
  locvars = tt;
  sizeupvalues = omega arith;
  upvalues = (omega arith, tt);
}

pub outer-IsCode : IsCode outer
outer-IsCode = record {
  name = chunk_name;
  has_name = refl;
  name_fits = omega arith;
  linedefined = omega arith;
  lastlinedefined = omega arith;
  nups = omega arith;
  numparams = omega arith;
  is_vararg = omega arith;
  maxstacksize = omega arith;
  code =
      (omega arith, (omega arith, (omega arith, (omega arith, (omega arith, (omega arith, tt))))));
  sizek = omega arith;
  k = (omega arith, (omega arith, (tt, (tt, tt))));
  lineinfo =
      (omega arith, (omega arith, (omega arith, (omega arith, (omega arith, (omega arith, tt))))));
  sizelocvars = omega arith;
  locvars = ((omega arith, omega arith, omega arith), tt);
  sizeupvalues = omega arith;
  upvalues = tt;
}

chunk-Loads : Loads accepts false 2 chunk
unfolding Loads
chunk-Loads = (outer-IsCode, omega arith, refl, ((inner-IsCode, omega arith, refl, tt), tt))

undump-dump_example :
    undump accepts 2 (dump false chunk ++ 7 ∷ []) ≡ ok (saved_function false chunk) (7 ∷ [])
undump-dump_example = undump-dump accepts false 2 chunk chunk-Loads (7 ∷ [])
