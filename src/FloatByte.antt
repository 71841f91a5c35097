-- ===== src/FloatByte.antt =====
-- `luaO_int2fb`, `luaO_fb2int` and `luaO_log2` of src/lobject.c. The loops are on fuel; 32 turns are
-- enough for an unsigned int.
pub mod Examples
pub mod Log
pub mod Rounding
use luarc.Prelude.{
  ℕ, zero, suc, ◌+◌, ◌-◌, ◌*◌, ◌/◌, ◌%◌, ◌^◌, List, [], ◌∷◌, ◌++◌, replicate, get_or, leb, ltb,
  ◌==◌, if◌then◌else◌,
}
use luarc.Prelude.Int.{ℤ, sub_ℕ}

-- What `luaO_int2fb` returns once `x` is below 16.
abbrev pub float_byte : (x e : ℕ) → ℕ
float_byte x e = if ltb x 8 then x else (e + 1) * 8 + (x - 8)

-- The loop: `x + 1` is an unsigned sum.
unfoldable pub int2fb_loop : (fuel x e : ℕ) → ℕ
int2fb_loop zero x e = float_byte x e
int2fb_loop (suc fuel) x e =
    let rest = int2fb_loop fuel ((x + 1) % 2 ^ 32 / 2) (e + 1) in
    if leb 16 x then rest else float_byte x e

unfoldable pub int2fb : ℕ → ℕ
int2fb x = int2fb_loop 32 x 0

-- `luaO_fb2int`. The result is an int where the shift does not overflow.
unfoldable pub fb2int : ℕ → ℕ
fb2int x = let e = x / 8 % 32 in if e == 0 then x else (x % 8 + 8) * 2 ^ (e - 1)

-- The table `log_2`.
abbrev pub log_2 : List ℕ
log_2 =
    0 ∷ 1 ∷ replicate 2 2
    ++ (replicate 4 3
        ++ (replicate 8 4
            ++ (replicate 16 5 ++ (replicate 32 6 ++ (replicate 64 7 ++ replicate 128 8)))))

-- The loop of `luaO_log2`, with `l + 1` for `l`, which starts at -1.
unfoldable pub log2_loop : (fuel x l : ℕ) → ℕ
log2_loop zero x l = l + get_or log_2 x 0
log2_loop (suc fuel) x l =
    let rest = log2_loop fuel (x / 256) (l + 8) in if leb 256 x then rest else l + get_or log_2 x 0

unfoldable pub log2 : ℕ → ℤ
log2 x = sub_ℕ (log2_loop 4 x 0) 1
