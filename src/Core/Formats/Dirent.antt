-- ===== src/Core/Formats/Dirent.antt =====
-- core/src/formats/onyxfs_fmt/dirent.rs
use slipper_kernel.Prelude.{
  ℕ, zero, suc, ◌+◌, ◌-◌, ◌≤◌, ◌<◌, ◌^◌, List, [], ◌∷◌, ◌++◌, Option, none, some, ◌&&◌, ◌≡◌, refl,
  ap, All, false, ◌⊎◌, ltb, leb, ◌==◌, if◌then◌else◌, length, replicate, take, drop, set, arith,
  take-append, set-append_add, get_or-append_add, length-append,
}
use slipper_kernel.Core.Parser.{
  byte_at, slice, copy_at, le32, to_le32, le32-to_le32, copy_at-append_add, slice-append_add,
}

abbrev pub onyfs_name_max : ℕ
onyfs_name_max = 32

pub record OnyfsDirent : Type 0 where
  pub name : List ℕ
  pub inode : ℕ
  pub dtype : ℕ
  pub name_len : ℕ
  pub reserved : List ℕ

abbrev pub dirent_size : ℕ
dirent_size = 40

pub dirent_from_bytes : List ℕ → Option OnyfsDirent
dirent_from_bytes buf =
    if ltb (length buf) dirent_size
    then none
    else some (record {
      name = slice buf 0 onyfs_name_max;
      inode = le32 (slice buf 32 36);
      dtype = byte_at buf 36;
      name_len = byte_at buf 37;
      reserved = byte_at buf 38 ∷ byte_at buf 39 ∷ [];
    })

pub dirent_to_bytes : OnyfsDirent → List ℕ
dirent_to_bytes s =
    let b = replicate dirent_size 0 in
    let b = copy_at 0 s.name b in
    let b = copy_at 32 (to_le32 s.inode) b in
    let b = set b 36 s.dtype in
    let b = set b 37 s.name_len in
    let b = set b 38 (byte_at s.reserved 0) in set b 39 (byte_at s.reserved 1)

-- `iter().position(|&b| b == 0).unwrap_or(none)`, from index `i` on
pub position_zero : List ℕ → ℕ → ℕ → ℕ
position_zero [] i otherwise = otherwise
position_zero (b ∷ rest) i otherwise = if b == 0 then i else position_zero rest (i + 1) otherwise

pub name_str : OnyfsDirent → List ℕ
unfolding position_zero
name_str s =
    let n =
      if ltb 0 s.name_len && leb s.name_len onyfs_name_max
      then s.name_len
      else position_zero s.name 0 onyfs_name_max in
    take n s.name

-- The fields fit their machine types.
pub record IsDirent (s : OnyfsDirent) : Type 0 where
  pub name : length s.name ≡ onyfs_name_max
  pub inode : s.inode < 2 ^ 32
  pub reserved : length s.reserved ≡ 2

abbrev tail_bytes : OnyfsDirent → List ℕ
tail_bytes s =
    to_le32 s.inode ++ s.dtype ∷ s.name_len ∷ byte_at s.reserved 0 ∷ byte_at s.reserved 1 ∷ []

dirent_to_bytes_layout :
    (s : OnyfsDirent) → length s.name ≡ 32 → dirent_to_bytes s ≡ s.name ++ tail_bytes s
unfolding dirent_to_bytes to_le32
dirent_to_bytes_layout s wide =
    let at : (k : ℕ) → 32 + k ≡ length s.name + k = λ k. omega arith in
    let name : copy_at 0 s.name (replicate 40 0) ≡ s.name ++ replicate 8 0 =
      let e : 0 + length s.name ≡ 32 = omega arith in
      ap (λ n. s.name ++ drop n (replicate 40 0)) e in
    rw (
      name,
      copy_at-append_add s.name (replicate 8 0) (to_le32 s.inode) 32 0 (at 0),
      set-append_add s.name _ 36 4 s.dtype (at 4),
      set-append_add s.name _ 37 5 s.name_len (at 5),
      set-append_add s.name _ 38 6 (byte_at s.reserved 0) (at 6),
      set-append_add s.name _ 39 7 (byte_at s.reserved 1) (at 7),
    )

pair_again : (xs : List ℕ) → length xs ≡ 2 → byte_at xs 0 ∷ byte_at xs 1 ∷ [] ≡ xs
pair_again (a ∷ b ∷ []) h = refl
pair_again xs h = absurd (omega arith)

-- A directory entry reads back as it was written.
pub dirent_from_bytes-dirent_to_bytes :
    (s : OnyfsDirent) → IsDirent s → dirent_from_bytes (dirent_to_bytes s) ≡ some s
unfolding dirent_from_bytes to_le32
dirent_from_bytes-dirent_to_bytes s h =
    let wide = h.name in
    let at : (k : ℕ) → 32 + k ≡ length s.name + k = λ k. omega arith in
    let size = length-append s.name (tail_bytes s) in
    let long : ltb (length (s.name ++ tail_bytes s)) 40 ≡ false = ground arith in
    rw (
      dirent_to_bytes_layout s h.name,
      long,
      take-append s.name (tail_bytes s) 32 (omega arith),
      slice-append_add s.name (tail_bytes s) 32 36 0 4 (at 0) (at 4),
      get_or-append_add s.name (tail_bytes s) 36 4 0 (at 4),
      get_or-append_add s.name (tail_bytes s) 37 5 0 (at 5),
      get_or-append_add s.name (tail_bytes s) 38 6 0 (at 6),
      get_or-append_add s.name (tail_bytes s) 39 7 0 (at 7),
      le32-to_le32 s.inode h.inode,
      pair_again s.reserved h.reserved,
    )

position_zero-append :
    (path : List ℕ) (i k : ℕ) (otherwise : ℕ)
    → All (λ b. 0 < b) path
    → (k ≡ 0 → otherwise ≡ i + length path)
    → position_zero (path ++ replicate k 0) i otherwise ≡ i + length path
unfolding position_zero
position_zero-append [] i zero otherwise nonzero h = h refl
position_zero-append [] i (suc k) otherwise nonzero h = omega arith
position_zero-append (b ∷ rest) i k otherwise nonzero h =
    ground
      (arith, position_zero-append rest (i + 1) k otherwise nonzero.1 (λ e. omega (arith, h e)))

-- A name without NUL bytes, stored with its length, or with length 0 as in version 1, and padded
-- with zeros, is what `name_str` returns.
pub name_str_lem :
    (s : OnyfsDirent) (path : List ℕ)
    → All (λ b. 0 < b) path
    → length path ≤ onyfs_name_max
    → s.name ≡ path ++ replicate (onyfs_name_max - length path) 0
    → (s.name_len ≡ length path) ⊎ (s.name_len ≡ 0)
    → name_str s ≡ path
unfolding name_str
name_str_lem s path nonzero short stored len =
    let pad = onyfs_name_max - length path in
    let found : position_zero s.name 0 32 ≡ length path =
      rw (stored, position_zero-append path 0 pad 32 nonzero (λ e. omega arith)) (omega arith) in
    let count : (if ltb 0 s.name_len && leb s.name_len 32
          then s.name_len
          else position_zero s.name 0 32)
        ≡ length path =
      ground arith in
    rw (count, stored) (take-append path (replicate pad 0) (length path) refl)
