-- ===== src/Prelude/Bits.antt =====
-- One bit of a machine word: `w & (1 << k) != 0`, `w | (1 << k)`, `w & !(1 << k)` at variable
-- words, by the digit recursion that the native operations stand for.
use Prim.Native.Nat.{
  ℕ, zero, suc, ◌+◌, ◌-◌, ◌*◌, ◌/◌, ◌%◌, ◌^◌, ◌≤◌, ◌<◌, min, max, bit_and, bit_or, digits,
  bit_and-bitwise, bit_or-bitwise,
}
use mathlib.Core.Path.{◌≡◌, refl, ◌∙◌, ap, sym}
use mathlib.Core.Bool.{Bool, true, false, not}
use native.Mathlib.Nat.{pow-suc, one-le-pow}
use native.Mathlib.Omega.{arith}
use native.Mathlib.Decide.{dec_lt}
use slipper_kernel.Prelude.Tests.{◌==◌, if◌then◌else◌}

-- More fuel than the first number changes nothing.
pub digits_enough :
    (z : ℕ → ℕ) (f : ℕ → ℕ → ℕ) (n m a b : ℕ) → a ≤ n → a ≤ m → digits z f n a b ≡ digits z f m a b
digits_enough z f n m zero b p q = first n m
  where
    zeros : (k : ℕ) → digits z f k 0 b ≡ z b
    zeros zero = refl
    zeros (suc k) = refl

    first : (i j : ℕ) → digits z f i 0 b ≡ digits z f j 0 b
    first i j = zeros i ∙ sym (zeros j)
digits_enough z f zero m (suc a) b p q = absurd (omega arith)
digits_enough z f (suc n) zero (suc a) b p q = absurd (omega arith)
digits_enough z f (suc n) (suc m) (suc a) b p q =
    ap (λ t. t * 2 + f (suc a % 2) (b % 2))
      (digits_enough z f n m (suc a / 2) (b / 2) (omega arith) (omega arith))

pub bit_or_low : (a b : ℕ) → bit_or a b ≡ bit_or (a / 2) (b / 2) * 2 + max (a % 2) (b % 2)
bit_or_low zero b = simp bit_or-bitwise (omega arith)
bit_or_low (suc a) b = simp bit_or-bitwise (
    omega (
      arith,
      digits_enough (λ y. y) max a (suc a / 2) (suc a / 2) (b / 2) (omega arith) (omega arith),
    ))

pub bit_and_low : (a b : ℕ) → bit_and a b ≡ bit_and (a / 2) (b / 2) * 2 + min (a % 2) (b % 2)
bit_and_low zero b = simp bit_and-bitwise (omega arith)
bit_and_low (suc a) b = simp bit_and-bitwise (
    omega (
      arith,
      digits_enough (λ y. 0) min a (suc a / 2) (suc a / 2) (b / 2) (omega arith) (omega arith),
    ))

-- `w >> k & 1`
pub bit : ℕ → ℕ → ℕ
bit w zero = w % 2
bit w (suc k) = bit (w / 2) k

pub bit-zero : (k : ℕ) → bit 0 k ≡ 0
unfolding bit
bit-zero zero = refl
bit-zero (suc k) = bit-zero k

-- A word with a bit set is not 0.
pub bit-nonzero : (w k : ℕ) → bit w k ≡ 1 → (w == 0) ≡ false
bit-nonzero zero k h = absurd (omega (arith, bit-zero k))
bit-nonzero (suc w) k h = ground arith

pub bit-lt : (w k : ℕ) → bit w k < 2
unfolding bit
bit-lt w zero = omega arith
bit-lt w (suc k) = bit-lt (w / 2) k

pub bit-bit_or : (a b k : ℕ) → bit (bit_or a b) k ≡ max (bit a k) (bit b k)
unfolding bit
bit-bit_or a b zero = omega (arith, bit_or_low a b)
bit-bit_or a b (suc k) =
    ap (λ t. bit t k) (omega (arith, bit_or_low a b)) ∙ bit-bit_or (a / 2) (b / 2) k

pub bit-bit_and : (a b k : ℕ) → bit (bit_and a b) k ≡ min (bit a k) (bit b k)
unfolding bit
bit-bit_and a b zero = omega (arith, bit_and_low a b)
bit-bit_and a b (suc k) =
    ap (λ t. bit t k) (omega (arith, bit_and_low a b)) ∙ bit-bit_and (a / 2) (b / 2) k

-- `1 << j` has the bit `j` and no other.
pub bit-pow : (j k : ℕ) → bit (2 ^ j) k ≡ (if j == k then 1 else 0)
unfolding bit
bit-pow zero zero = refl
bit-pow zero (suc k) = ground (arith, bit-zero k)
bit-pow (suc j) zero = ground (arith, pow-suc 2 j)
bit-pow (suc j) (suc k) =
    ap (λ t. bit t k) (omega (arith, pow-suc 2 j)) ∙ bit-pow j k ∙ ground arith

-- `!w` on `n` bits
pub bit_not : ℕ → ℕ → ℕ
bit_not n w = 2 ^ n - 1 - w

pub bit-bit_not : (n w k : ℕ) → w < 2 ^ n → k < n → bit (bit_not n w) k ≡ 1 - bit w k
unfolding bit bit_not
bit-bit_not zero w k h p = absurd (omega arith)
bit-bit_not (suc n) w zero h p = omega (arith, pow-suc 2 n, one-le-pow n 2)
bit-bit_not (suc n) w (suc k) h p =
    ap (λ t. bit t k) (omega (arith, pow-suc 2 n, one-le-pow n 2))
    ∙ bit-bit_not n (w / 2) k (omega (arith, pow-suc 2 n)) (omega arith)

pub bit_and-zero : (n w : ℕ) → w ≤ n → bit_and w 0 ≡ 0
bit_and-zero zero w h = let e : w ≡ 0 = omega arith in rw e
bit_and-zero (suc n) w h = omega (arith, bit_and_low w 0, bit_and-zero n (w / 2) (omega arith))

-- `w & (1 << k)` is the bit at its place.
pub bit_and-pow : (w k : ℕ) → bit_and w (2 ^ k) ≡ bit w k * 2 ^ k
unfolding bit
bit_and-pow w zero = omega (arith, bit_and_low w 1, bit_and-zero (w / 2) (w / 2) (omega arith))
bit_and-pow w (suc k) =
    let half : 2 ^ suc k / 2 ≡ 2 ^ k = omega (arith, pow-suc 2 k) in
    let even : 2 ^ suc k % 2 ≡ 0 = omega (arith, pow-suc 2 k) in
    let low = bit_and_low w (2 ^ suc k) in
    let ih = bit_and-pow (w / 2) k in low ∙ rw (half, even, ih, pow-suc) (grind arith)

pub bit_or-lt : (n a b : ℕ) → a < 2 ^ n → b < 2 ^ n → bit_or a b < 2 ^ n
bit_or-lt zero a b p q =
    let e : a ≡ 0 = omega arith in let e' : b ≡ 0 = omega arith in rw (e, e') (omega arith)
bit_or-lt (suc n) a b p q = omega (
  arith,
  bit_or_low a b,
  pow-suc 2 n,
  bit_or-lt n (a / 2) (b / 2) (omega (arith, pow-suc 2 n)) (omega (arith, pow-suc 2 n)),
)

bit_and-le_fuel : (n a b : ℕ) → a ≤ n → bit_and a b ≤ a
bit_and-le_fuel zero a b h =
    let e : a ≡ 0 = omega arith in rw e (omega (arith, bit_and-bitwise 0 b))
bit_and-le_fuel (suc n) zero b h = omega (arith, bit_and-bitwise 0 b)
bit_and-le_fuel (suc n) (suc a) b h =
    omega (arith, bit_and_low (suc a) b, bit_and-le_fuel n (suc a / 2) (b / 2) (omega arith))

pub bit_and-le : (a b : ℕ) → bit_and a b ≤ a
bit_and-le a b = bit_and-le_fuel a a b (omega arith)

-- `w & (1 << k) != 0`
abbrev pub test_bit : ℕ → ℕ → Bool
test_bit w k = not (bit_and w (2 ^ k) == 0)

-- `w | (1 << k)`
abbrev pub set_bit : ℕ → ℕ → ℕ
set_bit w k = bit_or w (2 ^ k)

-- `w & !(1 << k)` on `n` bits
abbrev pub clear_bit : ℕ → ℕ → ℕ → ℕ
clear_bit n w k = bit_and w (bit_not n (2 ^ k))

pub pow_mono : (k n : ℕ) → k < n → 2 ^ k < 2 ^ n
pow_mono k zero h = absurd (omega arith)
pow_mono zero (suc n) h = omega (arith, pow-suc 2 n, one-le-pow n 2)
pow_mono (suc k) (suc n) h = omega (arith, pow-suc 2 n, pow-suc 2 k, pow_mono k n (omega arith))

pub test_bit_lem : (w k : ℕ) → test_bit w k ≡ (bit w k == 1)
test_bit_lem w k = elim (dec_lt (bit w k) 1) [
  | yes low ↦ ground (arith, bit_and-pow w k)
  | no high ↦ ground (arith, bit_and-pow w k, bit-lt w k, one-le-pow k 2)
]

pub bit-set_bit : (w j k : ℕ) → bit (set_bit w j) k ≡ (if j == k then 1 else bit w k)
bit-set_bit w j k = ground (arith, bit-bit_or w (2 ^ j) k, bit-pow j k, bit-lt w k)

pub bit-clear_bit :
    (n w j k : ℕ) → j < n → k < n → bit (clear_bit n w j) k ≡ (if j == k then 0 else bit w k)
bit-clear_bit n w j k hj hk = ground (
  arith,
  bit-bit_and w (bit_not n (2 ^ j)) k,
  bit-bit_not n (2 ^ j) k (pow_mono j n hj) hk,
  bit-pow j k,
  bit-lt w k,
)

pub test_bit-set_bit :
    (w j k : ℕ) → test_bit (set_bit w j) k ≡ (if j == k then true else test_bit w k)
test_bit-set_bit w j k =
    ground (arith, test_bit_lem (set_bit w j) k, test_bit_lem w k, bit-set_bit w j k)

pub test_bit-clear_bit :
    (n w j k : ℕ)
    → j < n
    → k < n
    → test_bit (clear_bit n w j) k ≡ (if j == k then false else test_bit w k)
test_bit-clear_bit n w j k hj hk =
    ground (arith, test_bit_lem (clear_bit n w j) k, test_bit_lem w k, bit-clear_bit n w j k hj hk)

pub set_bit-lt : (n w k : ℕ) → w < 2 ^ n → k < n → set_bit w k < 2 ^ n
set_bit-lt n w k h p = bit_or-lt n w (2 ^ k) h (pow_mono k n p)

bit_or_zero_fuel : (n a : ℕ) → a ≤ n → bit_or a 0 ≡ a
bit_or_zero_fuel zero a h = let e : a ≡ 0 = omega arith in rw e (omega (arith, bit_or-bitwise 0 0))
bit_or_zero_fuel (suc n) zero h = omega (arith, bit_or-bitwise 0 0)
bit_or_zero_fuel (suc n) (suc a) h =
    bit_or_low (suc a) 0 ∙ rw (bit_or_zero_fuel n (suc a / 2) (omega arith)) (omega arith)

-- `(a << k) | b`, for `b` of `k` bits
pub bit_or-shift : (k a b : ℕ) → b < 2 ^ k → bit_or (a * 2 ^ k) b ≡ a * 2 ^ k + b
bit_or-shift zero a b h =
    let e : b ≡ 0 = omega arith in
    let one : a * 2 ^ 0 ≡ a = omega arith in
    rw (e, one) (omega (arith, bit_or_zero_fuel a a (omega arith)))
bit_or-shift (suc k) a b h =
    let twice : a * 2 ^ suc k ≡ a * 2 ^ k * 2 = rw (pow-suc) (grind arith) in
    let half : a * 2 ^ suc k / 2 ≡ a * 2 ^ k = omega (arith, twice) in
    let even : a * 2 ^ suc k % 2 ≡ 0 = omega (arith, twice) in
    let ih = bit_or-shift k a (b / 2) (omega (arith, pow-suc 2 k)) in
    bit_or_low (a * 2 ^ suc k) b ∙ rw (half, even, ih) (omega (arith, twice))
