-- ===== src/FloatByte/Rounding.antt =====
-- A "floating point byte" of src/lobject.c is its number rounded up.
use native.Mathlib.Nat.{mul-le-mul_right}
use luarc.Prelude.{
  ℕ, zero, suc, ◌+◌, ◌-◌, ◌*◌, ◌/◌, ◌%◌, ◌^◌, ◌<◌, ◌≤◌, ◌≡◌, refl, leb, ltb, ◌==◌, false,
  Bool-cases, inl, inr, arith,
}
use luarc.Prelude.Powers.{pow_add}
use luarc.FloatByte.{float_byte, int2fb_loop, int2fb, fb2int}

fb2int-large : (y e : ℕ) → 8 ≤ y → y < 16 → e < 31 → fb2int (float_byte y e) ≡ y * 2 ^ e
unfolding fb2int
fb2int-large y e lo hi he =
    let byte : float_byte y e ≡ (e + 1) * 8 + (y - 8) = ground arith in
    let exponent : ((e + 1) * 8 + (y - 8)) / 8 % 32 ≡ suc e = omega arith in
    let mantissa : ((e + 1) * 8 + (y - 8)) % 8 + 8 ≡ y = omega arith in
    let positive : (suc e == 0) ≡ false = ground arith in
    let back : suc e - 1 ≡ e = omega arith in rw (byte, exponent, mantissa, positive, back)

fb2int-small : (y : ℕ) → y < 8 → fb2int (float_byte y 0) ≡ y
unfolding fb2int
fb2int-small y hi =
    let byte : float_byte y 0 ≡ y = ground arith in
    let exponent : y / 8 % 32 ≡ 0 = omega arith in rw (byte, exponent) refl

-- `F` is `y * 2 ^ k`, at least `x * 2 ^ e`, and the lowest such multiple of `2 ^ k`.
record Rounded (x e F : ℕ) : Type 0 where
  y : ℕ
  k : ℕ
  value : F ≡ y * 2 ^ k
  normal : 8 ≤ y
  above : x * 2 ^ e ≤ F
  below : F + 2 ^ e ≤ x * 2 ^ e + 2 ^ k

Rounded-here : (x e : ℕ) → 8 ≤ x → x < 16 → e < 31 → Rounded x e (fb2int (float_byte x e))
Rounded-here x e lo hi he =
    let same = fb2int-large x e lo hi he in
    record {
      y = x;
      k = e;
      value = same;
      normal = lo;
      above = omega (arith, same);
      below = omega (arith, same);
    }

halved_units :
    (x q t : ℕ) → x ≤ 2 * q → 2 * q ≤ x + 1 → (x * t ≤ q * (t * 2)) × (q * (t * 2) ≤ x * t + t)
halved_units x q t lo hi =
    let a : x * t ≤ 2 * q * t = mul-le-mul_right t lo in
    let b : 2 * q * t ≤ (x + 1) * t = mul-le-mul_right t hi in
    let c : 2 * q * t ≡ q * (t * 2) = omega arith in
    let d : (x + 1) * t ≡ x * t + t = omega arith in (omega arith, omega arith)

Rounded-step : (x e F : ℕ) → Rounded ((x + 1) / 2) (e + 1) F → Rounded x e F
Rounded-step x e F r =
    let units = halved_units x ((x + 1) / 2) (2 ^ e) (omega arith) (omega arith) in
    let double : 2 ^ (e + 1) ≡ 2 ^ e * 2 = pow_add e 1 in
    let above : (x + 1) / 2 * (2 ^ e * 2) ≤ F = rw (← double) r.above in
    let below : F + 2 ^ e * 2 ≤ (x + 1) / 2 * (2 ^ e * 2) + 2 ^ r.k = rw (← double) r.below in
    record {
      y = r.y;
      k = r.k;
      value = r.value;
      normal = r.normal;
      above = omega (arith, units, above);
      below = omega (arith, units, below);
    }

int2fb_loop-Rounded :
    (n fuel x e : ℕ)
    → n ≤ fuel
    → 8 ≤ x
    → x ≤ 15 * 2 ^ n
    → x < 2 ^ 31
    → e + n < 31
    → Rounded x e (fb2int (int2fb_loop fuel x e))
unfolding int2fb_loop
int2fb_loop-Rounded zero zero x e f lo hi small he = Rounded-here x e lo (omega arith) (omega arith)
int2fb_loop-Rounded zero (suc fuel) x e f lo hi small he =
    let stop : leb 16 x ≡ false = ground arith in
    rw (stop) (Rounded-here x e lo (omega arith) (omega arith))
int2fb_loop-Rounded (suc n) zero x e f lo hi small he = absurd (omega arith)
int2fb_loop-Rounded (suc n) (suc fuel) x e f lo hi small he = elim (Bool-cases (leb 16 x)) [
  | inl go ↦
      let wrap : (x + 1) % 2 ^ 32 / 2 ≡ (x + 1) / 2 = omega arith in
      let large : 16 ≤ x = ground arith in
      rw (go, wrap)
        (Rounded-step x e _ (
          int2fb_loop-Rounded n fuel ((x + 1) / 2) (e + 1) (omega arith) (omega arith) (omega arith)
            (omega arith) (omega arith)))
  | inr stop ↦ rw (stop) (Rounded-here x e lo (ground arith) (omega arith))
]

-- The size that a "floating point byte" stands for is at least the number that it was made from, and
-- exceeds it by a seventh of it at most, for every number below 15 * 2 ^ 27.
pub fb2int-int2fb :
    (x : ℕ) → x < 15 * 2 ^ 27 → (x ≤ fb2int (int2fb x)) × (7 * fb2int (int2fb x) ≤ 8 * x)
unfolding int2fb
fb2int-int2fb x h = elim (Bool-cases (ltb x 8)) [
  | inl small ↦
      let lt : x < 8 = ground arith in
      let stop : leb 16 x ≡ false = ground arith in
      let same : fb2int (int2fb_loop 32 x 0) ≡ x =
        unfold int2fb_loop in (rw (stop) (fb2int-small x lt)) in
      (omega (arith, same), omega (arith, same))
  | inr large ↦
      let r =
        int2fb_loop-Rounded 27 32 x 0 (omega arith) (ground arith) (omega arith) (omega arith)
          (omega arith) in
      let unit : 8 * 2 ^ r.k ≤ r.y * 2 ^ r.k = mul-le-mul_right (2 ^ r.k) r.normal in
      (omega (arith, r.above), omega (arith, r.below, r.value, unit))
]
