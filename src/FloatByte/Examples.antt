-- ===== src/FloatByte/Examples.antt =====
-- Sizes of src/lobject.c at concrete numbers.
use luarc.Prelude.{ℕ, ◌+◌, ◌*◌, ◌^◌, ◌<◌, ◌≤◌, ◌≡◌, arith}
use luarc.Prelude.Int.{pos}
use luarc.FloatByte.{int2fb, fb2int, log2}
use luarc.FloatByte.Log.{log2_floor}
use luarc.FloatByte.Rounding.{fb2int-int2fb}

fb2int-int2fb_example : (1000 ≤ fb2int (int2fb 1000)) × (7 * fb2int (int2fb 1000) ≤ 8 * 1000)
fb2int-int2fb_example = fb2int-int2fb 1000 (omega arith)

log2_floor_example : (n : ℕ) × (log2 1000 ≡ pos n) × (2 ^ n ≤ 1000) × (1000 < 2 ^ (n + 1))
log2_floor_example = log2_floor 1000 (omega arith) (omega arith)
