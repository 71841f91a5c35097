-- ===== src/FloatByte/Log.antt =====
-- `luaO_log2` of src/lobject.c is the exponent of the highest power of two that a number reaches.
use luarc.Prelude.{
  ℕ, zero, suc, ◌+◌, ◌-◌, ◌*◌, ◌/◌, ◌^◌, ◌<◌, ◌≤◌, ◌≡◌, refl, ap, ◌∙◌, leb, ltb, ◌==◌, ◌&&◌, ◌||◌,
  get_or, Bool, true, Bool-cases, inl, inr, arith,
}
use luarc.Prelude.Int.{pos, sub_ℕ}
use luarc.Prelude.Powers.{pow_add}
use luarc.FloatByte.{log_2, log2_loop, log2}

-- `p` of every number below `n`.
every : ℕ → (ℕ → Bool) → Bool
every zero p = true
every (suc n) p = p n && every n p

every_at : (n : ℕ) (p : ℕ → Bool) (x : ℕ) → x < n → every n p ≡ true → p x ≡ true
unfolding every
every_at zero p x h all = absurd (omega arith)
every_at (suc n) p x h all = elim (Bool-cases (x == n)) [
  | inl at ↦ ground arith
  | inr ne ↦ every_at n p x (ground arith) (ground arith)
]

-- `l + 1` in place of `l`: the table's entry at `x` is the number of bits of `x`.
has_bits : ℕ → ℕ → Bool
has_bits x n = (x == 0) || (leb (2 ^ n) (2 * x) && ltb x (2 ^ n) && ltb 0 n)

bits_right : ℕ → Bool
bits_right x = has_bits x (get_or log_2 x 0)

table_right : every 256 bits_right ≡ true
unfolding every bits_right has_bits
table_right = refl

-- `b` is the number of bits of `x`.
abbrev HasBits : ℕ → ℕ → Type 0
HasBits x b = (2 ^ b ≤ 2 * x) × (x < 2 ^ b) × (0 < b)

bits_read : (x n : ℕ) → 0 < x → has_bits x n ≡ true → HasBits x n
unfolding has_bits
bits_read x n lo h = (ground arith, ground arith, ground arith)

table-HasBits : (x : ℕ) → 0 < x → x < 256 → HasBits x (get_or log_2 x 0)
table-HasBits x lo hi =
    bits_read x (get_or log_2 x 0) lo
      (unfold bits_right in every_at 256 bits_right x hi table_right)

shifted-HasBits : (x b : ℕ) → 256 ≤ x → HasBits (x / 256) b → HasBits x (b + 8)
shifted-HasBits x b lo h =
    let eight : 2 ^ (b + 8) ≡ 2 ^ b * 256 = pow_add b 8 in
    (omega (arith, eight, h.0), omega (arith, eight, h.1), omega arith)

log2_loop-HasBits :
    (fuel x l : ℕ)
    → 0 < x
    → x < 256 * 256 ^ fuel
    → (b : ℕ) × (log2_loop fuel x l ≡ l + b) × HasBits x b
unfolding log2_loop
log2_loop-HasBits zero x l lo hi = (get_or log_2 x 0, refl, table-HasBits x lo (omega arith))
log2_loop-HasBits (suc fuel) x l lo hi = elim (Bool-cases (leb 256 x)) [
  | inl go ↦
      let large : 256 ≤ x = ground arith in
      let (b, same, bits) = log2_loop-HasBits fuel (x / 256) (l + 8) (omega arith) (omega arith) in
      (b + 8, rw (go) (omega (arith, same)), shifted-HasBits x b large bits)
  | inr stop ↦ (get_or log_2 x 0, rw (stop) refl, table-HasBits x lo (ground arith))
]

less_one : (b r : ℕ) → r ≡ 0 + b → 0 < b → sub_ℕ r 1 ≡ pos (b - 1)
less_one b r e h = ground arith

-- `luaO_log2` of a positive unsigned int is the exponent of the highest power of two that is not
-- above it.
pub log2_floor :
    (x : ℕ) → 0 < x → x < 2 ^ 32 → (n : ℕ) × (log2 x ≡ pos n) × (2 ^ n ≤ x) × (x < 2 ^ (n + 1))
unfolding log2
log2_floor x lo hi =
    let (b, same, bits) = log2_loop-HasBits 4 x 0 lo (omega arith) in
    let next : 2 ^ b ≡ 2 ^ (b - 1) * 2 = ap (λ n. 2 ^ n) (omega arith) ∙ pow_add (b - 1) 1 in
    (
      b - 1,
      less_one b (log2_loop 4 x 0) same bits.2,
      omega (arith, next),
      omega (arith, next, pow_add (b - 1) 1),
    )
