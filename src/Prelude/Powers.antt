-- ===== src/Prelude/Powers.antt =====
-- Powers of two over the native numbers.
use native.Mathlib.Nat.{pow-suc, mul_assoc}
use Prim.Native.Nat.{ℕ, zero, suc, ◌+◌, ◌*◌, ◌^◌}
use mathlib.Core.Path.{◌≡◌, ap, ◌∙◌}
use native.Mathlib.Omega.{arith}

pub pow_add : (e k : ℕ) → 2 ^ (e + k) ≡ 2 ^ e * 2 ^ k
pow_add e zero = let same : e + 0 ≡ e = omega arith in ap (λ n. 2 ^ n) same ∙ omega arith
pow_add e (suc k) =
    let next : e + suc k ≡ suc (e + k) = omega arith in
    ap (λ n. 2 ^ n) next
    ∙ (rw (pow-suc 2 (e + k), pow-suc 2 k, pow_add e k) (mul_assoc (2 ^ e) (2 ^ k) 2))
