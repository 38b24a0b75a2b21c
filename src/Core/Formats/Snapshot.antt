-- ===== src/Core/Formats/Snapshot.antt =====
-- core/src/formats/snapshot.rs
use slipper_kernel.Prelude.{
  ℕ, ◌+◌, ◌<◌, ◌^◌, List, ◌++◌, Option, none, some, false, ◌≡◌, sym, ap, ◌∙◌, ltb, if◌then◌else◌,
  length, replicate, drop, arith, take-append, length-append,
}
use slipper_kernel.Core.Parser.{
  slice, copy_at, le32, le64, to_le32, to_le64, le32-to_le32, le64-to_le64, copy_at-append_add,
  slice-append_add,
}

pub record SnapshotMeta : Type 0 where
  pub id : ℕ
  pub timestamp : ℕ
  pub root_inode_snapshot : ℕ
  pub block_count : ℕ
  pub name : List ℕ
  pub parent_id : ℕ
  pub flags : ℕ
  pub reserved : List ℕ

abbrev pub snapshot_meta_size : ℕ
snapshot_meta_size = 64

pub snapshot_from_bytes : List ℕ → Option SnapshotMeta
snapshot_from_bytes buf =
    if ltb (length buf) snapshot_meta_size
    then none
    else some (record {
      id = le32 (slice buf 0 4);
      timestamp = le64 (slice buf 4 12);
      root_inode_snapshot = le32 (slice buf 12 16);
      block_count = le32 (slice buf 48 52);
      name = slice buf 16 48;
      parent_id = le32 (slice buf 52 56);
      flags = le32 (slice buf 56 60);
      reserved = replicate 4 0;
    })

pub snapshot_to_bytes : SnapshotMeta → List ℕ
snapshot_to_bytes s =
    let b = replicate snapshot_meta_size 0 in
    let b = copy_at 0 (to_le32 s.id) b in
    let b = copy_at 4 (to_le64 s.timestamp) b in
    let b = copy_at 12 (to_le32 s.root_inode_snapshot) b in
    let b = copy_at 16 s.name b in
    let b = copy_at 48 (to_le32 s.block_count) b in
    let b = copy_at 52 (to_le32 s.parent_id) b in copy_at 56 (to_le32 s.flags) b

-- The fields fit their machine types.
pub record IsSnapshot (s : SnapshotMeta) : Type 0 where
  pub id : s.id < 2 ^ 32
  pub timestamp : s.timestamp < 2 ^ 64
  pub root_inode_snapshot : s.root_inode_snapshot < 2 ^ 32
  pub block_count : s.block_count < 2 ^ 32
  pub name : length s.name ≡ 32
  pub parent_id : s.parent_id < 2 ^ 32
  pub flags : s.flags < 2 ^ 32
  pub reserved : s.reserved ≡ replicate 4 0

abbrev before : SnapshotMeta → List ℕ
before s = to_le32 s.id ++ (to_le64 s.timestamp ++ to_le32 s.root_inode_snapshot)

abbrev behind : SnapshotMeta → List ℕ
behind s = to_le32 s.block_count ++ (to_le32 s.parent_id ++ (to_le32 s.flags ++ replicate 4 0))

-- the front is 48 bytes: 16 and the name
abbrev front : SnapshotMeta → List ℕ
front s = before s ++ s.name

length-front : (s : SnapshotMeta) → length s.name ≡ 32 → 48 ≡ length (front s)
unfolding to_le32 to_le64
length-front s h = omega arith

snapshot_to_bytes_layout :
    (s : SnapshotMeta) → length s.name ≡ 32 → snapshot_to_bytes s ≡ front s ++ behind s
unfolding snapshot_to_bytes to_le32 to_le64
snapshot_to_bytes_layout s wide =
    let size = length-front s wide in
    let at : (k : ℕ) → 48 + k ≡ length (front s) + k = λ k. omega arith in
    let tail_at : 16 + length s.name ≡ 48 = omega arith in
    let count = to_le32 s.block_count in
    let parent = to_le32 s.parent_id in
    let flags = to_le32 s.flags in
    let first = copy_at 0 count (replicate 16 0) in
    let second = copy_at 4 parent first in
    ap
      (λ n. copy_at 56 flags (
        copy_at 52 parent
          (copy_at 48 count (before s ++ (s.name ++ drop n (before s ++ replicate 48 0))))))
      tail_at
    ∙ ap (λ b. copy_at 56 flags (copy_at 52 parent b))
        (copy_at-append_add (front s) (replicate 16 0) count 48 0 (at 0))
    ∙ ap (copy_at 56 flags) (copy_at-append_add (front s) first parent 52 4 (at 4))
    ∙ copy_at-append_add (front s) second flags 56 8 (at 8)

-- A snapshot record reads back as it was written, for fields that fit their types, a name of 32
-- bytes and zeros in the reserved words.
pub snapshot_from_bytes-snapshot_to_bytes :
    (s : SnapshotMeta) → IsSnapshot s → snapshot_from_bytes (snapshot_to_bytes s) ≡ some s
unfolding snapshot_from_bytes to_le32 to_le64
snapshot_from_bytes-snapshot_to_bytes s h =
    let size = length-front s h.name in
    let at : (k : ℕ) → 48 + k ≡ length (front s) + k = λ k. omega arith in
    let whole = length-append (front s) (behind s) in
    let long : ltb (length (front s ++ behind s)) 64 ≡ false = ground arith in
    rw
      (
        snapshot_to_bytes_layout s h.name,
        long,
        slice-append_add (front s) (behind s) 48 52 0 4 (at 0) (at 4),
        slice-append_add (front s) (behind s) 52 56 4 8 (at 4) (at 8),
        slice-append_add (front s) (behind s) 56 60 8 12 (at 8) (at 12),
        le32-to_le32 s.id h.id,
        le64-to_le64 s.timestamp h.timestamp,
        le32-to_le32 s.root_inode_snapshot h.root_inode_snapshot,
        le32-to_le32 s.block_count h.block_count,
        le32-to_le32 s.parent_id h.parent_id,
        le32-to_le32 s.flags h.flags,
        take-append s.name (behind s) 32 (sym h.name),
      )
      (ap (λ r. some (record s { reserved = r })) (sym h.reserved))
