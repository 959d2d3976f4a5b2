-- ===== src/Common/Bits.antt =====
-- Clearing low bits: the mask `2 ^ n - 2 ^ k` keeps the bits of an `n`-bit word from bit `k` on.
use Prim.Native.Nat.{
  ℕ, zero, suc, ◌-◌, ◌*◌, ◌/◌, ◌^◌, ◌≤◌, ◌<◌, min, bit_and, digits, bit_and-bitwise,
}
use mathlib.Core.Path.{◌≡◌, ◌∙◌}
use native.Mathlib.Nat.{zero-div, pow-succ', div-div-eq-div-mul, one-le-pow, pow-le-pow_right}
use native.Mathlib.Omega.{arith}

pub pow-pos : (k : ℕ) → 1 ≤ 2 ^ k
pow-pos k = one-le-pow k 2 (omega arith)

pub pow_mono : {j k : ℕ} → j ≤ k → 2 ^ j ≤ 2 ^ k
pow_mono h = pow-le-pow_right (omega arith) h

pub pow-double : (k : ℕ) → 2 ^ suc k ≡ 2 * 2 ^ k
pow-double = pow-succ' 2

-- The conjunction, with a bound on the number of digits.
abbrev conj : ℕ → ℕ → ℕ → ℕ
conj fuel x b = digits (λ _. zero) min fuel x b

-- Half of the mask is the mask of a word that is one bit shorter.
half_mask : (n k : ℕ) → (2 ^ suc n - 2 ^ suc k) / 2 ≡ 2 ^ n - 2 ^ k
half_mask n k = omega (arith, pow-double n, pow-double k)

half_ones : (n : ℕ) → (2 ^ suc n - 2 ^ 0) / 2 ≡ 2 ^ n - 2 ^ 0
half_ones n = omega (arith, pow-double n, pow-pos n)

conj-mask :
    (fuel n k x : ℕ)
    → x ≤ fuel
    → x < 2 ^ n
    → k ≤ n
    → conj fuel x (2 ^ n - 2 ^ k) ≡ x / 2 ^ k * 2 ^ k
conj-mask zero n k zero f h l = rw (zero-div (2 ^ k)) (omega arith)
conj-mask (suc fuel) n k zero f h l = rw (zero-div (2 ^ k)) (omega arith)
conj-mask zero n k (suc x) f h l = absurd (omega arith)
conj-mask (suc fuel) zero k (suc x) f h l = absurd (omega arith)
conj-mask (suc fuel) (suc n) zero (suc x) f h l = rw (half_ones n) (
    omega (
      arith,
      conj-mask fuel n 0 (suc x / 2) (omega arith) (omega (arith, pow-double n)) (omega arith),
      pow-double n,
      pow-pos n,
    ))
conj-mask (suc fuel) (suc n) (suc k) (suc x) f h l =
    rw (half_mask n k, pow-double k, ← div-div-eq-div-mul (suc x) 2 (2 ^ k))
      (omega (
        arith,
        conj-mask fuel n k (suc x / 2) (omega arith) (omega (arith, pow-double n)) (omega arith),
        pow-double n,
        pow-double k,
      ))

pub bit_and-mask : (n k x : ℕ) → x < 2 ^ n → k ≤ n → bit_and x (2 ^ n - 2 ^ k) ≡ x / 2 ^ k * 2 ^ k
bit_and-mask n k x h l = bit_and-bitwise x (2 ^ n - 2 ^ k) ∙ conj-mask x n k x (omega arith) h l
