-- ===== src/Layout/Bounds.antt =====
-- Bounds of the layout arithmetic: rounding up, padding, and the checked constructor.
use unico.Common.{
  none, subst, max, ap, ℕ, zero, suc, ◌+◌, ◌-◌, ◌*◌, ◌/◌, ◌%◌, ◌^◌, ◌≤◌, ◌<◌, ◌≡◌, refl, some,
  arith,
}
use native.Mathlib.Nat.{mul-mod_right, mul-mod_left, div-add-mod, mul-le-mul_left}
use unico.Common.Bits.{pow-double, pow-pos, pow_mono}
use native.Mathlib.Decide.{dec_lt}
use unico.Common.Words.{
  usize_mod, IsAlign, is_power_of_two_sound, is_power_of_two_complete, IsAlign-pos, IsAlign-le,
  align_down-le, lt-align_down-add, align_down-mod,
}
use unico.Layout.{Layout, IsValid, from_size_align, round_up, padding_needed_for, pad_to_align}

pub pow-split : (n k : ℕ) → k ≤ n → (m : ℕ) × (2 ^ n ≡ m * 2 ^ k)
pow-split zero k h = let e : k ≡ 0 = omega arith in (1, rw e refl)
pow-split (suc n) k h = elim (dec_lt n k) [
  | yes l ↦ let e : k ≡ suc n = omega arith in (1, rw e (omega arith))
  | no l ↦
      let (m, e) = pow-split n k (omega arith) in
      (2 * m, omega (arith, pow-double n, ap (λ (t : ℕ). 2 * t) e))
]

-- A power of two divides every larger one.
pub pow-mod-align : (a n : ℕ) → IsAlign a → a ≤ 2 ^ n → 2 ^ n % a ≡ 0
pow-mod-align a n (k, b, e) h =
    let (m, q) = pow-split n k (exponent_le (omega arith)) in rw (e, q) (mul-mod_left m (2 ^ k))
  where
    exponent_le : 2 ^ k ≤ 2 ^ n → k ≤ n
    exponent_le g = elim (dec_lt n k) [
      | yes l ↦
          absurd
            (omega (arith, pow-double n, pow-pos n, pow_mono {j = suc n} {k = k} (omega arith)))
      | no l ↦ omega arith
    ]

-- Distinct multiples are at least the alignment apart.
pub multiple_gap : (r m a : ℕ) → r % a ≡ 0 → m % a ≡ 0 → r < m → r + a ≤ m
multiple_gap r m a p q h = elim (dec_lt (r / a) (m / a)) [
  | yes l ↦ omega (
    arith,
    div-add-mod r a,
    div-add-mod m a,
    mul-le-mul_left {m = r / a + 1} {n = m / a} a (omega arith),
  )
  | no l ↦ absurd (
      omega (
        arith,
        div-add-mod r a,
        div-add-mod m a,
        mul-le-mul_left {m = m / a} {n = r / a} a (omega arith),
      ))
]

-- The next multiple of a power of two.
pub record Rounds (size align r : ℕ) : Type 0 where
  pub above : size ≤ r
  pub near : r < size + align
  pub multiple : r % align ≡ 0

pub round_up-Rounds :
    (size align : ℕ)
    → IsAlign align
    → size + align ≤ 2 ^ 64
    → Rounds size align (round_up size align)
unfolding round_up
round_up-Rounds size align p h = record {
  above = omega (arith, sum, lt-align_down-add _ align small p);
  near = omega (arith, sum, align_down-le _ align small p, IsAlign-pos p);
  multiple = align_down-mod _ align small p;
}
  where
    small : (size + align + usize_mod - 1) % usize_mod < usize_mod
    small = omega arith

    sum : (size + align + usize_mod - 1) % usize_mod ≡ size + align - 1
    sum = omega (arith, IsAlign-pos p)

pub padding_needed_for-eq :
    (l : Layout) (align : ℕ)
    → IsAlign align
    → l.size + align ≤ 2 ^ 64
    → l.size + padding_needed_for l align ≡ round_up l.size align
unfolding padding_needed_for
padding_needed_for-eq l align p h =
    let r : Rounds l.size align (round_up l.size align) = round_up-Rounds l.size align p h in
    omega arith

pub from_size_align-IsValid :
    (size align : ℕ) {l : Layout}
    → from_size_align size align ≡ some l
    → IsValid l × (l.size ≡ size) × (l.align ≡ align)
unfolding from_size_align
from_size_align-IsValid size align {l} h =
    ground (arith, is_power_of_two_sound align, IsAlign-le align)

pub from_size_align-some :
    (size align : ℕ)
    → IsAlign align
    → size + align ≤ 2 ^ 63
    → from_size_align size align ≡ some (record { size = size; align = align })
unfolding from_size_align
from_size_align-some size align p h = ground (arith, is_power_of_two_complete align p)

pub from_size_align-none :
    (size align : ℕ) → IsAlign align → 2 ^ 63 < size + align → from_size_align size align ≡ none
unfolding from_size_align
from_size_align-none size align p h =
    ground (arith, is_power_of_two_complete align p, IsAlign-le align p)

-- Padding a layout to its own alignment keeps it valid.
pub pad_to_align-IsValid : (l : Layout) → IsValid l → IsValid (pad_to_align l)
unfolding pad_to_align
pad_to_align-IsValid l v =
    let r : Rounds l.size l.align (round_up l.size l.align) =
      round_up-Rounds l.size l.align v.aligned (omega arith) in
    record {
      aligned = v.aligned;
      fits = omega (
        arith,
        padding_needed_for-eq l l.align v.aligned (omega arith),
        multiple_gap (round_up l.size l.align) (2 ^ 63) l.align r.multiple
            (pow-mod-align l.align 63 v.aligned (omega arith)) (omega arith),
      );
    }

pub align-pad_to_align : (l : Layout) → (pad_to_align l).align ≡ l.align
unfolding pad_to_align
align-pad_to_align l = refl

-- The padded size is the size rounded up to the alignment.
pub size-pad_to_align : (l : Layout) → IsValid l → Rounds l.size l.align (pad_to_align l).size
unfolding pad_to_align
size-pad_to_align l v =
    rw (padding_needed_for-eq l l.align v.aligned (omega arith))
      (round_up-Rounds l.size l.align v.aligned (omega arith))

-- A multiple of a power of two is a multiple of every smaller one.
pub mod_of_align_le : (m a b : ℕ) → IsAlign a → IsAlign b → a ≤ b → m % b ≡ 0 → m % a ≡ 0
mod_of_align_le m a b p (k, l, e) h q =
    subst (λ (t : ℕ). t % a ≡ 0) product (mul-mod_right a (b / a * (m / b)))
  where
    pow_multiple : b % a ≡ 0
    pow_multiple = rw e (pow-mod-align a k p (omega arith))

    quotients : a * (b / a) * (m / b) ≡ b * (m / b)
    quotients = ap (λ (t : ℕ). t * (m / b)) (omega (arith, div-add-mod b a, pow_multiple))

    product : a * (b / a * (m / b)) ≡ m
    product = omega (arith, quotients, div-add-mod m b)

pub max-IsAlign : (a b : ℕ) → IsAlign a → IsAlign b → IsAlign (max a b)
max-IsAlign a b p q = elim (dec_lt a b) [
  | yes l ↦ let e : max a b ≡ b = omega arith in rw e q
  | no l ↦ let e : max a b ≡ a = omega arith in rw e p
]
