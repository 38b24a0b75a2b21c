-- ===== src/Core/Parser.antt =====
-- core/src/parser.rs, and the slices and integer conversions that the formats use.
-- A byte slice is a list of numbers; an index or a slice out of range, where Rust panics, reads 0
-- or is cut short here: the callers test the length first.
pub mod Values
use slipper_kernel.Prelude.{
  ℕ, ◌+◌, ◌-◌, ◌*◌, ◌/◌, ◌%◌, ◌^◌, ◌<◌, List, [], ◌∷◌, ◌++◌, get_or, take, drop, length, ◌≡◌, arith,
  take-append_add, drop-append_add, append_assoc,
}

abbrev pub byte_at : List ℕ → ℕ → ℕ
byte_at p i = get_or p i 0

-- `&buf[from..to]`
abbrev pub slice : List ℕ → ℕ → ℕ → List ℕ
slice buf from to = take (to - from) (drop from buf)

-- `b[off..off + bytes.len()].copy_from_slice(bytes)`
abbrev pub copy_at : ℕ → List ℕ → List ℕ → List ℕ
copy_at off bytes b = take off b ++ (bytes ++ drop (off + length bytes) b)

unfoldable pub be32 : List ℕ → ℕ
be32 p = ((byte_at p 0 * 2 ^ 8 + byte_at p 1) * 2 ^ 8 + byte_at p 2) * 2 ^ 8 + byte_at p 3

unfoldable pub be64 : List ℕ → ℕ
unfolding be32
be64 p = be32 p * 2 ^ 32 + be32 (drop 4 p)

unfoldable pub le32 : List ℕ → ℕ
le32 p = byte_at p 0 + 2 ^ 8 * (byte_at p 1 + 2 ^ 8 * (byte_at p 2 + 2 ^ 8 * byte_at p 3))

unfoldable pub le64 : List ℕ → ℕ
unfolding le32
le64 p = le32 p + 2 ^ 32 * le32 (drop 4 p)

-- `u32::to_le_bytes`
unfoldable pub to_le32 : ℕ → List ℕ
to_le32 x = x % 2 ^ 8 ∷ x / 2 ^ 8 % 2 ^ 8 ∷ x / 2 ^ 16 % 2 ^ 8 ∷ x / 2 ^ 24 % 2 ^ 8 ∷ []

-- `u64::to_le_bytes`
unfoldable pub to_le64 : ℕ → List ℕ
unfolding to_le32
to_le64 x = to_le32 x ++ to_le32 (x / 2 ^ 32)

pub le32-to_le32 : (x : ℕ) → x < 2 ^ 32 → le32 (to_le32 x) ≡ x
unfolding le32 to_le32
le32-to_le32 x h = omega arith

pub le64-to_le64 : (x : ℕ) → x < 2 ^ 64 → le64 (to_le64 x) ≡ x
unfolding le64 to_le64
le64-to_le64 x h = omega arith

-- A copy behind a known front.
pub copy_at-append_add :
    (xs ys bytes : List ℕ) (n k : ℕ)
    → n ≡ length xs + k
    → copy_at n bytes (xs ++ ys) ≡ xs ++ copy_at k bytes ys
copy_at-append_add xs ys bytes n k e =
    rw
      (
        take-append_add xs ys n k e,
        drop-append_add xs ys (n + length bytes) (k + length bytes) (omega arith),
      )
      (append_assoc xs (take k ys) (bytes ++ drop (k + length bytes) ys))

pub slice-append_add :
    (xs ys : List ℕ) (from to k l : ℕ)
    → from ≡ length xs + k
    → to ≡ length xs + l
    → slice (xs ++ ys) from to ≡ slice ys k l
slice-append_add xs ys from to k l e e' =
    let width : to - from ≡ l - k = omega arith in rw (drop-append_add xs ys from k e, width)
