-- ===== src/Init/Auth/Hex.antt =====
-- init/src/auth.rs: the hexadecimal digits of salts and hashes, and the comparison of hashes.
pub mod Laws
use Prim.Native.Nat.{bit_xor}
use slipper_kernel.Prelude.{
  ℕ, zero, suc, ◌+◌, ◌*◌, ◌-◌, ◌/◌, ◌%◌, ◌≤◌, ◌<◌, ◌^◌, min, max, List, [], ◌∷◌, ◌++◌, get_or,
  length, replicate, take, bit_or, bit_and, ltb, leb, ◌==◌, if◌then◌else◌, ◌&&◌, Bool, true, false,
  ◌≡◌, ◌≢◌, ◌↔◌, refl, ap, ap₂, ◌∙◌, sym, arith, All, not, bit_or-shift, bit_or_low,
}

abbrev pub hex_chars : List ℕ
hex_chars =
    b'0' ∷ b'1' ∷ b'2' ∷ b'3' ∷ b'4' ∷ b'5' ∷ b'6' ∷ b'7' ∷ b'8' ∷ b'9' ∷ b'a' ∷ b'b' ∷ b'c' ∷ b'd'
    ∷ b'e' ∷ b'f' ∷ []

-- the digits of the bytes
unfoldable pub hex_digits : List ℕ → List ℕ
hex_digits [] = []
hex_digits (x ∷ bytes) =
    get_or hex_chars (x / 2 ^ 4) 0 ∷ get_or hex_chars (bit_and x 0xF) 0 ∷ hex_digits bytes

-- The digits of at most 32 bytes, in an array of 64 zeros.
unfoldable pub bytes_to_hex : List ℕ → List ℕ
unfolding hex_digits
bytes_to_hex bytes = hex_digits (take 32 bytes) ++ replicate (64 - 2 * min (length bytes) 32) 0

unfoldable pub hex_val : ℕ → ℕ
hex_val c =
    if leb b'0' c && leb c b'9'
    then c - b'0'
    else if leb b'a' c && leb c b'f'
    then c - b'a' + 10
    else if leb b'A' c && leb c b'F'
    then c - b'A' + 10
    else 0

-- `for i in 0..n`
unfoldable pub decode : ℕ → List ℕ → List ℕ
unfolding hex_val
decode (suc n) (c ∷ d ∷ hex) = bit_or (hex_val c * 2 ^ 4 % 2 ^ 8) (hex_val d) ∷ decode n hex
decode n hex = []

unfoldable pub hex_decode_8 : List ℕ → List ℕ
unfolding decode
hex_decode_8 hex = let n = min (length hex / 2) 8 in decode n hex ++ replicate (8 - n) 0

-- `r |= a[i] ^ b[i]` for the bytes of `a` and `b` in turn
unfoldable pub differences : ℕ → List ℕ → List ℕ → ℕ
differences r (x ∷ a) (y ∷ b) = differences (bit_or r (bit_xor x y)) a b
differences r a b = r

unfoldable pub const_time_eq : List ℕ → List ℕ → Bool
unfolding differences
const_time_eq a b = if not (length a == length b) then false else differences 0 a b == 0
