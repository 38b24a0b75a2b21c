-- ===== src/Init/Auth/Hex/Laws.antt =====
-- init/src/auth.rs: the hexadecimal digits read back, and what the comparison decides.
use Prim.Native.Nat.{bit_xor}
use slipper_kernel.Prelude.{
  ℕ, zero, suc, ◌+◌, ◌*◌, ◌-◌, ◌/◌, ◌%◌, ◌≤◌, ◌<◌, ◌^◌, min, List, [], ◌∷◌, ◌++◌, get_or, length,
  replicate, take, bit_or, bit_and, ◌==◌, true, ◌≡◌, ◌↔◌, Bool-cases, inl, inr, refl, ap, ap₂, ◌∙◌,
  sym, arith, All, bit_or-shift, bit_xor-same, bit_xor-zero, bit_or-zero, bit_and-nibble,
  take-append, take_all, append-nil,
}
use slipper_kernel.Init.Auth.Hex.{
  hex_chars, hex_digits, bytes_to_hex, hex_val, decode, hex_decode_8, differences, const_time_eq,
}

-- Each digit from `i` on reads back, and lies from the character 0 on.
DigitsFrom : ℕ → ℕ → Type 0
DigitsFrom i zero = Unit {0}
DigitsFrom i (suc n) =
    ((hex_val (get_or hex_chars i 0) ≡ i) × (48 ≤ get_or hex_chars i 0)) × DigitsFrom (suc i) n

all_digits : DigitsFrom 0 16
unfolding DigitsFrom hex_val
all_digits = (
  (refl, omega arith),
  (
    (refl, omega arith),
    (
      (refl, omega arith),
      (
        (refl, omega arith),
        (
          (refl, omega arith),
          (
            (refl, omega arith),
            (
              (refl, omega arith),
              (
                (refl, omega arith),
                (
                  (refl, omega arith),
                  (
                    (refl, omega arith),
                    (
                      (refl, omega arith),
                      (
                        (refl, omega arith),
                        (
                          (refl, omega arith),
                          ((refl, omega arith), ((refl, omega arith), ((refl, omega arith), tt))),
                        ),
                      ),
                    ),
                  ),
                ),
              ),
            ),
          ),
        ),
      ),
    ),
  ),
)

one_digit :
    (n i x : ℕ)
    → DigitsFrom i n
    → i ≤ x
    → x < i + n
    → (hex_val (get_or hex_chars x 0) ≡ x) × (48 ≤ get_or hex_chars x 0)
unfolding DigitsFrom
one_digit zero i x h low high = absurd (omega arith)
one_digit (suc n) i x (here, rest) low high = elim (Bool-cases (x == i)) [
  | inl same ↦ let e : x ≡ i = ground arith in rw e here
  | inr later ↦ one_digit n (suc i) x rest (ground arith) (omega arith)
]

hex_val-hex_chars : (x : ℕ) → x < 16 → hex_val (get_or hex_chars x 0) ≡ x
hex_val-hex_chars x h = (one_digit 16 0 x all_digits (omega arith) (omega arith)).0

-- The digits are characters from 0 on.
pub hex_digits-low :
    (bytes : List ℕ) → All (λ x. x < 256) bytes → All (λ x. 48 ≤ x) (hex_digits bytes)
unfolding hex_digits
hex_digits-low [] h = tt
hex_digits-low (x ∷ bytes) (small, rest) = (
  (one_digit 16 0 (x / 2 ^ 4) all_digits (omega arith) (omega arith)).1,
  (
    (one_digit 16 0 (bit_and x 15) all_digits (omega arith) (omega (arith, bit_and-nibble x))).1,
    hex_digits-low bytes rest,
  ),
)

pub length-hex_digits : (bytes : List ℕ) → length (hex_digits bytes) ≡ 2 * length bytes
unfolding hex_digits
length-hex_digits [] = refl
length-hex_digits (x ∷ bytes) = omega (arith, length-hex_digits bytes)

pub decode-hex_digits :
    (bytes : List ℕ) → All (λ x. x < 256) bytes → decode (length bytes) (hex_digits bytes) ≡ bytes
unfolding decode hex_digits
decode-hex_digits [] h = refl
decode-hex_digits (x ∷ bytes) (small, rest) =
    ap₂ (λ (y : ℕ) (ys : List ℕ). y ∷ ys) byte (decode-hex_digits bytes rest)
  where
    high : hex_val (get_or hex_chars (x / 2 ^ 4) 0) ≡ x / 16
    high = hex_val-hex_chars (x / 16) (omega arith)

    low : hex_val (get_or hex_chars (bit_and x 15) 0) ≡ x % 16
    low = rw (bit_and-nibble x) (hex_val-hex_chars (x % 16) (omega arith))

    shift : x / 16 * 2 ^ 4 % 2 ^ 8 ≡ x / 16 * 2 ^ 4
    shift = omega arith

    byte :
        bit_or
          (hex_val (get_or hex_chars (x / 2 ^ 4) 0) * 2 ^ 4 % 2 ^ 8)
          (hex_val (get_or hex_chars (bit_and x 15) 0))
        ≡ x
    byte = rw (high, low, shift) (bit_or-shift 4 (x / 16) (x % 16) (omega arith) ∙ omega arith)

pub take-bytes_to_hex :
    (bytes : List ℕ) (n : ℕ)
    → n ≡ 2 * length bytes
    → length bytes ≤ 32
    → take n (bytes_to_hex bytes) ≡ hex_digits bytes
unfolding bytes_to_hex
take-bytes_to_hex bytes n e h =
    ap (λ (xs : List ℕ). take n (hex_digits xs ++ replicate (64 - 2 * min (length bytes) 32) 0))
      (take_all 32 bytes h)
    ∙ take-append (hex_digits bytes) (replicate (64 - 2 * min (length bytes) 32) 0) n
        (omega (arith, length-hex_digits bytes))

pub hex_decode_8-hex_digits :
    (salt : List ℕ)
    → length salt ≡ 8
    → All (λ x. x < 256) salt
    → hex_decode_8 (hex_digits salt) ≡ salt
unfolding hex_decode_8
hex_decode_8-hex_digits salt size small =
    let n : min (length (hex_digits salt) / 2) 8 ≡ length salt =
      omega (arith, length-hex_digits salt) in
    let none_left : 8 - length salt ≡ 0 = omega arith in
    rw (n, decode-hex_digits salt small, none_left) (append-nil salt)

-- The 16 digits that are kept of a salt of 8 bytes are decoded to the salt.
pub hex_decode_8-bytes_to_hex :
    (salt : List ℕ)
    → length salt ≡ 8
    → All (λ x. x < 256) salt
    → hex_decode_8 (take 16 (bytes_to_hex salt)) ≡ salt
hex_decode_8-bytes_to_hex salt size small =
    rw (take-bytes_to_hex salt 16 (omega arith) (omega arith))
      (hex_decode_8-hex_digits salt size small)

differences-zero :
    (a b : List ℕ) (r : ℕ) → length a ≡ length b → differences r a b ≡ 0 → (r ≡ 0) × (a ≡ b)
unfolding differences
differences-zero [] [] r size h = (h, refl)
differences-zero [] (y ∷ b) r size h = absurd (omega arith)
differences-zero (x ∷ a) [] r size h = absurd (omega arith)
differences-zero (x ∷ a) (y ∷ b) r size h =
    let (seen, rest) = differences-zero a b (bit_or r (bit_xor x y)) (omega arith) h in
    let (start, head) = bit_or-zero r (bit_xor x y) seen in
    (start, ap₂ (λ (z : ℕ) (zs : List ℕ). z ∷ zs) (bit_xor-zero x y head) rest)

differences-same : (a : List ℕ) → differences 0 a a ≡ 0
unfolding differences
differences-same [] = refl
differences-same (x ∷ a) = rw (bit_xor-same x) (differences-same a)

-- const_time_eq is true of two byte strings exactly when they are equal.
pub const_time_eq_lem : (a b : List ℕ) → (const_time_eq a b ≡ true) ↔ (a ≡ b)
unfolding const_time_eq
const_time_eq_lem a b = (forth, back)
  where
    forth : const_time_eq a b ≡ true → a ≡ b
    forth h = elim (Bool-cases (length a == length b)) [
      | inl same ↦
          let none_differ : differences 0 a b ≡ 0 = ground arith in
          (differences-zero a b 0 (ground arith) none_differ).1
      | inr other ↦ ground arith
    ]

    back : a ≡ b → const_time_eq a b ≡ true
    back e = rw (sym e) (
        let size : (length a == length a) ≡ true = ground arith in
        rw (size, differences-same a) refl)
