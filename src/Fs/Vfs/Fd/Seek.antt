-- ===== src/Fs/Vfs/Fd/Seek.antt =====
-- kernel/src/fs/vfs/seek.rs: the position that `lseek` sets.
use slipper_kernel.Prelude.{
  ℕ, zero, suc, ◌+◌, ◌%◌, ◌^◌, ◌≤◌, ◌<◌, ◌≡◌, refl, ap, ◌∙◌, arith, List, get_elem?, none, some,
  ltb, Bool-cases, inl, inr,
}
use slipper_kernel.Core.Errno.{KResult, ok, err, inval, range}
use slipper_kernel.Fs.Vfs.Fd.{
  VfsFd, Vfs, ℤ, pos, negsuc, table, update_fd, fd_get, fd_check_perm, fd_update_pos, new_position,
  add_i64, seek_to, lseek, perm_seek,
}
use slipper_kernel.Fs.Vfs.Fd.Table.{get_elem?-update_fd, table-with_table}
use slipper_kernel.Fs.Vfs.Fd.Check.{fd_get_lem}

-- The number is the sum of a position and a signed offset.
unfoldable pub IsSum : ℕ → ℤ → ℕ → Type 0
IsSum base (pos d) n = n ≡ base + d
IsSum base (negsuc d) n = n + (d + 1) ≡ base

-- What `lseek` may give for entry `idx`, `off` bytes from `base`: the sum lies in the file, is
-- returned and is the entry's position; or no sum lies in the file, and nothing changes.
unfoldable pub SeekOutcome : ℕ → VfsFd → Vfs → ℕ → ℤ → KResult ℕ × Vfs → Type 0
SeekOutcome idx fd v base off (ok n, v') =
    IsSum base off n × (n ≤ fd.size) × (fd_get idx v' ≡ record fd { pos = n })
SeekOutcome idx fd v base off (err e, v') =
    (e ≡ range) × (v' ≡ v) × ((n : ℕ) → n ≤ fd.size → ¬ (IsSum base off n))

-- `whence` 0 counts from the start, 1 from the entry's position, 2 from the file's size.
unfoldable pub WhenceOutcome : ℕ → ℕ → VfsFd → Vfs → ℤ → KResult ℕ × Vfs → Type 0
WhenceOutcome zero idx fd v off out = SeekOutcome idx fd v 0 off out
WhenceOutcome (suc zero) idx fd v off out = SeekOutcome idx fd v fd.pos off out
WhenceOutcome (suc (suc zero)) idx fd v off out = SeekOutcome idx fd v fd.size off out
WhenceOutcome (suc (suc (suc other))) idx fd v off out = out ≡ (err inval, v)

moved :
    (idx n : ℕ) (fd : VfsFd) (v : Vfs)
    → get_elem? (table v) idx ≡ some fd
    → fd_get idx (fd_update_pos idx n v) ≡ record fd { pos = n }
unfolding fd_update_pos
moved idx n fd v here =
    let put = λ (f : VfsFd). record f { pos = n } in
    fd_get_lem idx (fd_update_pos idx n v) (put fd) (
      ap (λ (t : List VfsFd). get_elem? t idx) (table-with_table (update_fd idx put (table v)) v)
      ∙ get_elem?-update_fd (table v) idx put fd here)

-- The integer is the sum of a position and an offset where that fits an i64, and it is beyond the
-- file where it wraps.
SumOf : ℕ → ℤ → ℤ → Type 0
SumOf base off (pos n) = IsSum base off n
SumOf base off (negsuc n) = (m : ℕ) → m < 2 ^ 32 → ¬ (IsSum base off m)

add_i64-SumOf : (base : ℕ) (off : ℤ) → SumOf base off (add_i64 base off)
unfolding SumOf add_i64 IsSum
add_i64-SumOf base (pos b) = elim (Bool-cases (ltb (base + b) (2 ^ 63))) [
  | inl fits ↦ rw fits refl
  | inr wraps ↦ rw wraps (λ m small e. ground arith)
]
add_i64-SumOf base (negsuc b) = elim (Bool-cases (ltb b base)) [
  | inl above ↦ rw above (ground arith)
  | inr below ↦ rw below (λ m small e. ground arith)
]

from_start-SumOf : (off : ℤ) → SumOf 0 off off
unfolding SumOf IsSum
from_start-SumOf (pos n) = omega arith
from_start-SumOf (negsuc n) = λ m small e. omega arith

one_sum : (base a b : ℕ) (off : ℤ) → IsSum base off a → IsSum base off b → a ≡ b
unfolding IsSum
one_sum base a b (pos d) h k = omega arith
one_sum base a b (negsuc d) h k = omega arith

seek_to_lem :
    (idx base : ℕ) (off target : ℤ) (fd : VfsFd) (v : Vfs)
    → SumOf base off target
    → get_elem? (table v) idx ≡ some fd
    → fd.size < 2 ^ 32
    → SeekOutcome idx fd v base off (seek_to idx fd v (some target))
unfolding seek_to SeekOutcome SumOf
seek_to_lem idx base off (negsuc n) fd v sum here small =
    (refl, refl, λ m inside. sum m (omega arith))
seek_to_lem idx base off (pos n) fd v sum here small = elim (Bool-cases (ltb fd.size n)) [
  | inl beyond ↦
      let out : fd.size < n = ground arith in
      rw beyond (
        refl,
        refl,
        λ m inside other. let e = one_sum base n m off sum other in absurd (omega arith),
      )
  | inr inside ↦
      let le : n ≤ fd.size = ground arith in
      let same : n % 2 ^ 32 ≡ n = omega arith in rw (inside, same) (sum, le, moved idx n fd v here)
]

seek_by_whence :
    (whence idx : ℕ) (off : ℤ) (v : Vfs) (fd : VfsFd)
    → get_elem? (table v) idx ≡ some fd
    → fd.size < 2 ^ 32
    → WhenceOutcome whence idx fd v off (seek_to idx fd v (new_position fd off whence))
unfolding WhenceOutcome new_position
seek_by_whence zero idx off v fd here small =
    seek_to_lem idx 0 off off fd v (from_start-SumOf off) here small
seek_by_whence (suc zero) idx off v fd here small =
    seek_to_lem idx fd.pos off (add_i64 fd.pos off) fd v (add_i64-SumOf fd.pos off) here small
seek_by_whence (suc (suc zero)) idx off v fd here small =
    seek_to_lem idx fd.size off (add_i64 fd.size off) fd v (add_i64-SumOf fd.size off) here small
seek_by_whence (suc (suc (suc other))) idx off v fd here small =
    let unknown : new_position fd off (suc (suc (suc other))) ≡ none = ground arith in
    ap (seek_to idx fd v) unknown ∙ (unfold seek_to in refl)

-- For a token of an open descriptor that may seek, `lseek` adds the signed offset to 0, to the
-- descriptor's position or to the file's size, for a `whence` of 0, 1 and 2. When the sum lies
-- between 0 and the size, it is returned and becomes the descriptor's position; when not, the result
-- is `Range`, and nothing changes. For any other `whence` the result is `Inval`, and nothing changes.
pub lseek_lem :
    (token idx whence : ℕ) (off : ℤ) (v : Vfs) (fd : VfsFd)
    → fd_check_perm token perm_seek v ≡ ok idx
    → get_elem? (table v) idx ≡ some fd
    → fd.size < 2 ^ 32
    → WhenceOutcome whence idx fd v off (lseek token off whence v)
unfolding lseek
lseek_lem token idx whence off v fd checked here small =
    let entry = fd_get_lem idx v fd here in
    rw (lseek, checked, entry) (seek_by_whence whence idx off v fd here small)
