-- ===== src/Prelude/Xor.antt =====
-- Exclusive or, and the tests that two numbers are the same or both zero.
use Prim.Native.Nat.{
  ℕ, zero, suc, ◌+◌, ◌*◌, ◌/◌, ◌%◌, ◌≤◌, ◌<◌, max, bit_and, bit_or, bit_xor, differ,
  bit_xor-bitwise,
}
use mathlib.Core.Path.{◌≡◌, refl}
use native.Mathlib.Omega.{arith}
use slipper_kernel.Prelude.Bits.{digits_enough, bit_or_low, bit_and_low, bit_and-zero}

bit_xor_low : (a b : ℕ) → bit_xor a b ≡ bit_xor (a / 2) (b / 2) * 2 + differ (a % 2) (b % 2)
bit_xor_low zero b = simp bit_xor-bitwise (omega (arith, differ-zero (b % 2)))
  where
    differ-zero : (y : ℕ) → differ 0 y ≡ y
    differ-zero y = refl
bit_xor_low (suc a) b = simp bit_xor-bitwise (
    omega (
      arith,
      digits_enough (λ y. y) differ a (suc a / 2) (suc a / 2) (b / 2) (omega arith) (omega arith),
    ))

differ-same : (x : ℕ) → differ x x ≡ 0
differ-same zero = refl
differ-same (suc x) = differ-same x

differ-zero : (x y : ℕ) → x < 2 → y < 2 → differ x y ≡ 0 → x ≡ y
differ-zero zero zero p q h = refl
differ-zero zero (suc y) p q h = absurd (omega arith)
differ-zero (suc x) zero p q h = absurd (omega arith)
differ-zero (suc x) (suc y) p q h = omega arith

bit_xor-same_within : (n a : ℕ) → a ≤ n → bit_xor a a ≡ 0
bit_xor-same_within zero zero h = refl
bit_xor-same_within zero (suc a) h = absurd (omega arith)
bit_xor-same_within (suc n) a h =
    omega (arith, bit_xor_low a a, differ-same (a % 2), bit_xor-same_within n (a / 2) (omega arith))

pub bit_xor-same : (a : ℕ) → bit_xor a a ≡ 0
bit_xor-same a = bit_xor-same_within a a (omega arith)

bit_xor-zero_within : (n a b : ℕ) → a ≤ n → b ≤ n → bit_xor a b ≡ 0 → a ≡ b
bit_xor-zero_within zero a b p q h = omega arith
bit_xor-zero_within (suc n) a b p q h =
    let halves : a / 2 ≡ b / 2 =
      bit_xor-zero_within n (a / 2) (b / 2) (omega arith) (omega arith)
        (omega (arith, bit_xor_low a b)) in
    let last : a % 2 ≡ b % 2 =
      differ-zero (a % 2) (b % 2) (omega arith) (omega arith) (omega (arith, bit_xor_low a b)) in
    omega arith

pub bit_xor-zero : (a b : ℕ) → bit_xor a b ≡ 0 → a ≡ b
bit_xor-zero a b h = bit_xor-zero_within (max a b) a b (omega arith) (omega arith) h

bit_or-zero_within : (n a b : ℕ) → a ≤ n → b ≤ n → bit_or a b ≡ 0 → (a ≡ 0) × (b ≡ 0)
bit_or-zero_within zero a b p q h = (omega arith, omega arith)
bit_or-zero_within (suc n) a b p q h =
    let (left, right) =
      bit_or-zero_within n (a / 2) (b / 2) (omega arith) (omega arith)
        (omega (arith, bit_or_low a b)) in
    (omega (arith, bit_or_low a b), omega (arith, bit_or_low a b))

pub bit_or-zero : (a b : ℕ) → bit_or a b ≡ 0 → (a ≡ 0) × (b ≡ 0)
bit_or-zero a b h = bit_or-zero_within (max a b) a b (omega arith) (omega arith) h

-- `x & 0xF`
pub bit_and-nibble : (x : ℕ) → bit_and x 15 ≡ x % 16
bit_and-nibble x = omega (
  arith,
  bit_and_low x 15,
  bit_and_low (x / 2) 7,
  bit_and_low (x / 2 / 2) 3,
  bit_and_low (x / 2 / 2 / 2) 1,
  bit_and-zero (x / 2 / 2 / 2 / 2) (x / 2 / 2 / 2 / 2) (omega arith),
)
