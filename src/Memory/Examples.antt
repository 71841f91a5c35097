-- ===== src/Memory/Examples.antt =====
-- Growing an array of src/lmem.c.
use luarc.Prelude.{ℕ, ◌+◌, ◌≡◌, refl, arith}
use luarc.Memory.{Allocator, Memory, ok, realloc, reallocv, new_size, growaux}
use luarc.Memory.Growth.{Grows, growaux-Grows}

-- An allocator that counts its blocks.
abbrev bump : Allocator ℕ
bump next block osize nsize = (next, next + 1)

abbrev used : Memory ℕ
used = record { ud = 7; totalbytes = 1000 }

doubled_array : growaux bump used 3 8 16 100 ≡ ok (16, 7, record { ud = 8; totalbytes = 1128 })
unfolding growaux new_size reallocv realloc
doubled_array = refl

growaux-Grows_example : Grows bump used 3 8 16 100 (growaux bump used 3 8 16 100)
growaux-Grows_example = growaux-Grows bump used 3 8 16 100 (omega arith) (omega arith)
