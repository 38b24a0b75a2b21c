-- ===== src/Prelude/Masks.antt =====
-- Masks of bits that stand together: `w & ((1 << n) - 1)`, and the same shifted.
use Prim.Native.Nat.{ℕ, zero, suc, ◌+◌, ◌-◌, ◌*◌, ◌/◌, ◌%◌, ◌^◌, ◌≤◌, ◌<◌, max, bit_and, bit_or}
use mathlib.Core.Path.{◌≡◌, refl, ◌∙◌}
use native.Mathlib.Nat.{pow-suc, one-le-pow}
use native.Mathlib.Omega.{arith}
use slipper_kernel.Prelude.Bits.{bit_and_low, bit_or_low, bit_and-zero}

pub bit_and-ones : (n w : ℕ) → w < 2 ^ n → bit_and w (2 ^ n - 1) ≡ w
bit_and-ones zero w h = bit_and-zero w w (omega arith) ∙ omega arith
bit_and-ones (suc n) w h =
    let half : (2 ^ suc n - 1) / 2 ≡ 2 ^ n - 1 = omega (arith, pow-suc 2 n, one-le-pow n 2) in
    let odd : (2 ^ suc n - 1) % 2 ≡ 1 = omega (arith, pow-suc 2 n, one-le-pow n 2) in
    bit_and_low w (2 ^ suc n - 1)
    ∙ rw (half, odd, bit_and-ones n (w / 2) (omega (arith, pow-suc 2 n))) (omega arith)

pub bit_and-shift :
    (k a b m : ℕ) → b < 2 ^ k → bit_and (a * 2 ^ k + b) (m * 2 ^ k) ≡ bit_and a m * 2 ^ k
bit_and-shift zero a b m h =
    let left : a * 2 ^ 0 + b ≡ a = omega arith in
    let right : m * 2 ^ 0 ≡ m = omega arith in rw (left, right) (omega arith)
bit_and-shift (suc k) a b m h =
    let twice : a * 2 ^ suc k ≡ a * 2 ^ k * 2 = rw (pow-suc) (grind arith) in
    let twice' : m * 2 ^ suc k ≡ m * 2 ^ k * 2 = rw (pow-suc) (grind arith) in
    let half : (a * 2 ^ suc k + b) / 2 ≡ a * 2 ^ k + b / 2 = omega (arith, twice) in
    let half' : m * 2 ^ suc k / 2 ≡ m * 2 ^ k = omega (arith, twice') in
    let even : m * 2 ^ suc k % 2 ≡ 0 = omega (arith, twice') in
    let thrice : bit_and a m * 2 ^ suc k ≡ bit_and a m * 2 ^ k * 2 = rw (pow-suc) (grind arith) in
    bit_and_low (a * 2 ^ suc k + b) (m * 2 ^ suc k)
    ∙ rw (half, half', even, bit_and-shift k a (b / 2) m (omega (arith, pow-suc 2 k)), thrice)
        (omega arith)

bit_or_comm_within : (n a b : ℕ) → a ≤ n → b ≤ n → bit_or a b ≡ bit_or b a
bit_or_comm_within zero a b p q =
    let e : a ≡ 0 = omega arith in let e' : b ≡ 0 = omega arith in rw (e, e') refl
bit_or_comm_within (suc n) a b p q = omega (
  arith,
  bit_or_low a b,
  bit_or_low b a,
  bit_or_comm_within n (a / 2) (b / 2) (omega arith) (omega arith),
)

pub bit_or_comm : (a b : ℕ) → bit_or a b ≡ bit_or b a
bit_or_comm a b = bit_or_comm_within (max a b) a b (omega arith) (omega arith)
