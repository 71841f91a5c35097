-- ===== src/Memory.antt =====
-- src/lmem.c and src/lmem.h: arrays that grow through the caller's allocator, which keeps data of its
-- own and gives NULL where it fails. Sizes are 64-bit.
pub mod Examples
pub mod Growth
use luarc.Prelude.{ℕ, ◌+◌, ◌-◌, ◌*◌, ◌/◌, ◌%◌, ◌^◌, ◌&&◌, ltb, leb, ◌==◌, if◌then◌else◌}
use luarc.Object.{Ptr, null}

abbrev pub Allocator : Type 0 → Type 0
Allocator D = D → (block : Ptr) → (osize nsize : ℕ) → Ptr × D

-- The allocator's data and `totalbytes`.
pub record Memory (D : Type 0) : Type 0 where
  pub ud : D
  pub totalbytes : ℕ

pub data Outcome (A : Type 0) : Type 0 where
  ok : A → Outcome A
  errmem : Outcome A
  toobig : Outcome A
  at_limit : Outcome A

abbrev pub max_sizet : ℕ
max_sizet = 2 ^ 64 - 3

-- `luaM_realloc_`.
unfoldable pub realloc :
    {D : Type 0} → Allocator D → Memory D → Ptr → (osize nsize : ℕ) → Outcome (Ptr × Memory D)
realloc frealloc g block osize nsize =
    let r = frealloc g.ud block osize nsize in
    if r.0 == null && ltb 0 nsize
    then errmem
    else ok
        (r.0, record { ud = r.1; totalbytes = (g.totalbytes + 2 ^ 64 - osize + nsize) % 2 ^ 64 })

-- `luaM_reallocv`, of elements of size `e`.
unfoldable pub reallocv :
    {D : Type 0} → Allocator D → Memory D → Ptr → (on n e : ℕ) → Outcome (Ptr × Memory D)
reallocv frealloc g block on n e =
    if leb (n + 1) (max_sizet / e) then realloc frealloc g block (on * e) (n * e) else toobig

-- The size that `luaM_growaux_` asks for below the limit.
unfoldable pub new_size : (size limit : ℕ) → ℕ
new_size size limit =
    if leb (limit / 2) size then limit else if ltb (size * 2) 4 then 4 else size * 2

abbrev pub with_size : {D : Type 0} → ℕ → Outcome (Ptr × Memory D) → Outcome (ℕ × Ptr × Memory D)
with_size n (ok (p, g)) = ok (n, p, g)
with_size n errmem = errmem
with_size n toobig = toobig
with_size n at_limit = at_limit

-- `luaM_growaux_`: the new size with the block.
unfoldable pub growaux :
    {D : Type 0} → Allocator D → Memory D → Ptr → (size e limit : ℕ) → Outcome (ℕ × Ptr × Memory D)
growaux frealloc g block size e limit =
    if leb limit size
    then at_limit
    else with_size (new_size size limit) (reallocv frealloc g block size (new_size size limit) e)
