-- ===== src/Core/Fmt.antt =====
-- core/src/fmt/format_num.rs: numbers as text.
-- What is written to `out` is the list of the characters, in order. The buffer has 20 places, and
-- the loops get fuel 20: a 64-bit number has at most 20 digits.
use slipper_kernel.Prelude.{
  ℕ, zero, suc, ◌+◌, ◌-◌, ◌*◌, ◌/◌, ◌%◌, List, [], ◌∷◌, ◌++◌, length, replicate, Bool, true, false,
  ◌&&◌, ltb, leb, ◌==◌, if◌then◌else◌,
}

pub record FmtSpec : Type 0 where
  pub width : ℕ
  pub zero_pad : Bool

abbrev pub base : Bool → ℕ
base true = 16
base false = 10

-- `HEX[d]`, and `b'0' + d`
pub digit_char : ℕ → ℕ
digit_char d = if ltb d 10 then 48 + d else 87 + d

-- the loops that fill `buf`, the last digit first
pub digits_loop : ℕ → Bool → ℕ → List ℕ
unfolding digit_char
digits_loop zero hex n = []
digits_loop (suc fuel) hex n =
    let rest = digits_loop fuel hex (n / base hex) in
    if n == 0 then [] else digit_char (n % base hex) ∷ rest

pub fill_buf : Bool → ℕ → List ℕ
unfolding digits_loop
fill_buf hex n = if n == 0 then 48 ∷ [] else digits_loop 20 hex n

-- `for k in (0..len).rev() { out.write_char(buf[k]) }`, before what follows
pub write_rev : List ℕ → List ℕ → List ℕ
write_rev [] after = after
write_rev (c ∷ buf) after = write_rev buf (c ∷ after)

pub write_hex_or_dec : ℕ → FmtSpec → Bool → List ℕ
unfolding fill_buf write_rev
write_hex_or_dec v spec hex =
    let buf = fill_buf hex v in
    replicate (spec.width - length buf) (if spec.zero_pad then 48 else 32) ++ write_rev buf []

-- `v` is negative when `neg`, and `digits` is its absolute value.
pub write_dec : Bool → ℕ → FmtSpec → List ℕ
unfolding fill_buf write_rev
write_dec neg digits spec =
    let buf = fill_buf false digits in
    let pad = spec.width - (length buf + (if neg then 1 else 0)) in
    let minus = if neg then 45 ∷ [] else [] in
    (if spec.zero_pad then minus ++ replicate pad 48 else replicate pad 32 ++ minus)
    ++ write_rev buf []

-- the value of a digit; a space counts as 0
unfoldable pub digit_value : ℕ → ℕ
digit_value c = if leb 48 c && leb c 57 then c - 48 else if leb 97 c && leb c 102 then c - 87 else 0

-- the number that a text stands for, read from the left
unfoldable pub read_number : Bool → ℕ → List ℕ → ℕ
unfolding digit_value
read_number hex acc [] = acc
read_number hex acc (c ∷ rest) = read_number hex (acc * base hex + digit_value c) rest
