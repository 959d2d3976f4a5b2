-- ===== src/Common/Words.antt =====
-- `usize` on a 64-bit target: complement, rounding down by a mask, and the checked operations.
use Prim.Native.Nat.{ℕ, zero, suc, ◌+◌, ◌-◌, ◌*◌, ◌/◌, ◌%◌, ◌^◌, ◌≤◌, ◌<◌, bit_and}
use mathlib.Core.Path.{◌≡◌, ap}
use mathlib.Core.Bool.{Bool, true, false}
use mathlib.Core.Option.{Option, none, some}
use native.Mathlib.Nat.{mul-mod_left, div-mul-le_self, lt-div-mul-add}
use native.Mathlib.Omega.{arith}
use native.Mathlib.Decide.{dec_lt}
use mathlib.Core.Logic.{inl, inr}
use unico.Common.Tests.{ltb, leb, ◌==◌, if◌then◌else◌, Bool-cases}
use unico.Common.Bits.{bit_and-mask, pow-pos, pow_mono}

abbrev pub usize_mod : ℕ
usize_mod = 2 ^ 64

abbrev pub isize_max : ℕ
isize_max = 2 ^ 63 - 1

-- `!x`
unfoldable pub usize_not : ℕ → ℕ
usize_not x = usize_mod - 1 - x

-- `x & !(a - 1)`
unfoldable pub align_down : ℕ → ℕ → ℕ
unfolding usize_not
align_down x a = bit_and x (usize_not (a - 1))

unfoldable pub checked_add : ℕ → ℕ → Option ℕ
checked_add a b = if ltb (a + b) usize_mod then some (a + b) else none

unfoldable pub checked_sub : ℕ → ℕ → Option ℕ
checked_sub a b = if leb b a then some (a - b) else none

-- `2 ^ k == a` for some `k` below the bound: `usize::is_power_of_two` at 64.
pow2_below : ℕ → ℕ → Bool
pow2_below zero a = false
pow2_below (suc k) a = if 2 ^ k == a then true else pow2_below k a

unfoldable pub is_power_of_two : ℕ → Bool
unfolding pow2_below
is_power_of_two a = pow2_below 64 a

-- A power of two that a `usize` holds.
abbrev pub IsAlign : ℕ → Type 0
IsAlign a = (k : ℕ) × (k < 64) × (a ≡ 2 ^ k)

pow2_below_sound : (n a : ℕ) → pow2_below n a ≡ true → (k : ℕ) × (k < n) × (a ≡ 2 ^ k)
unfolding pow2_below
pow2_below_sound zero a h = cc
pow2_below_sound (suc n) a h = elim (Bool-cases (2 ^ n == a)) [
  | inl e ↦ (n, omega arith, ground arith)
  | inr e ↦ let (k, b, q) = pow2_below_sound n a (ground arith) in (k, omega arith, q)
]

pub is_power_of_two_sound : (a : ℕ) → is_power_of_two a ≡ true → IsAlign a
unfolding is_power_of_two
is_power_of_two_sound a h = pow2_below_sound 64 a h

pow2_below_complete : (n k : ℕ) → k < n → pow2_below n (2 ^ k) ≡ true
unfolding pow2_below
pow2_below_complete zero k h = absurd (omega arith)
pow2_below_complete (suc n) k h = elim (Bool-cases (2 ^ n == 2 ^ k)) [
  | inl e ↦ rw e
  | inr e ↦ rw e (pow2_below_complete n k (ne_below e))
]
  where
    ne_below : (2 ^ n == 2 ^ k) ≡ false → k < n
    ne_below e = elim (dec_lt k n) [
      | yes l ↦ l
      | no l ↦ let q : k ≡ n = omega arith in absurd (grind (arith, ap (λ (j : ℕ). 2 ^ j) q))
    ]

pub is_power_of_two_complete : (a : ℕ) → IsAlign a → is_power_of_two a ≡ true
unfolding is_power_of_two
is_power_of_two_complete a (k, b, e) = rw e (pow2_below_complete 64 k b)

pub IsAlign-pos : {a : ℕ} → IsAlign a → 0 < a
IsAlign-pos (k, b, e) = omega (arith, pow-pos k)

pub IsAlign-le : (a : ℕ) → IsAlign a → a ≤ 2 ^ 63
IsAlign-le a (k, b, e) = omega (arith, pow_mono {j = k} {k = 63} (omega arith))

pub align_down-eq : (x a : ℕ) → x < usize_mod → IsAlign a → align_down x a ≡ x / a * a
unfolding align_down
align_down-eq x a h (k, b, e) = rw (e, ones) (bit_and-mask 64 k x h (omega arith))
  where
    ones : usize_mod - 1 - (2 ^ k - 1) ≡ 2 ^ 64 - 2 ^ k
    ones = omega (arith, pow-pos k, pow_mono {j = k} {k = 64} (omega arith))

pub align_down-le : (x a : ℕ) → x < usize_mod → IsAlign a → align_down x a ≤ x
align_down-le x a h p = omega (arith, align_down-eq x a h p, div-mul-le_self x a)

pub lt-align_down-add : (x a : ℕ) → x < usize_mod → IsAlign a → x < align_down x a + a
lt-align_down-add x a h p =
    omega (arith, align_down-eq x a h p, lt-div-mul-add {a = x} (IsAlign-pos p))

pub align_down-mod : (x a : ℕ) → x < usize_mod → IsAlign a → align_down x a % a ≡ 0
align_down-mod x a h p = rw (align_down-eq x a h p) (mul-mod_left (x / a) a)

-- Rounding down does not cross a multiple of the alignment.
pub le-align_down : (m x a : ℕ) → x < usize_mod → IsAlign a → m % a ≡ 0 → m ≤ x → m ≤ align_down x a
le-align_down m x a h p e q = rw (align_down-eq x a h p) (grind arith)
