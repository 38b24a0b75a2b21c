-- ===== src/Core/Formats/Superblock.antt =====
-- core/src/formats/onyxfs_fmt/superblock.rs
use slipper_kernel.Prelude.{
  ℕ, ◌<◌, ◌^◌, List, Option, none, some, ◌≡◌, ◌&&◌, ◌⊎◌, not, ltb, ◌==◌, if◌then◌else◌, length,
  replicate, arith, ap, sym, false,
}
use slipper_kernel.Core.Parser.{
  slice, copy_at, le32, le64, to_le32, to_le64, le32-to_le32, le64-to_le64,
}

abbrev pub onyfs_magic : ℕ
onyfs_magic = 0x32594E4F

abbrev pub onyfs_magic_v1 : ℕ
onyfs_magic_v1 = 0x31594E4F

pub record OnyfsSuper : Type 0 where
  pub magic : ℕ
  pub version : ℕ
  pub block_size : ℕ
  pub total_blocks : ℕ
  pub inode_count : ℕ
  pub inode_table_start : ℕ
  pub data_bitmap_start : ℕ
  pub data_blocks_start : ℕ
  pub root_inode : ℕ
  pub snapshot_area_start : ℕ
  pub snapshot_count : ℕ
  pub journal_start : ℕ
  pub journal_size : ℕ
  pub feature_flags : ℕ
  pub creation_time : ℕ
  pub last_mount_time : ℕ
  pub reserved : List ℕ

abbrev pub super_size : ℕ
super_size = 128

pub super_from_bytes : List ℕ → Option OnyfsSuper
super_from_bytes buf =
    let magic = le32 (slice buf 0 4) in
    if ltb (length buf) super_size
    then none
    else if not (magic == onyfs_magic) && not (magic == onyfs_magic_v1)
    then none
    else some (record {
      magic = magic;
      version = le32 (slice buf 4 8);
      block_size = le32 (slice buf 8 12);
      total_blocks = le32 (slice buf 12 16);
      inode_count = le32 (slice buf 16 20);
      inode_table_start = le32 (slice buf 20 24);
      data_bitmap_start = le32 (slice buf 24 28);
      data_blocks_start = le32 (slice buf 28 32);
      root_inode = le32 (slice buf 32 36);
      snapshot_area_start = le32 (slice buf 36 40);
      snapshot_count = le32 (slice buf 40 44);
      journal_start = le32 (slice buf 44 48);
      journal_size = le32 (slice buf 48 52);
      feature_flags = le32 (slice buf 52 56);
      creation_time = le64 (slice buf 56 64);
      last_mount_time = le64 (slice buf 64 72);
      reserved = replicate 10 0;
    })

pub super_to_bytes : OnyfsSuper → List ℕ
super_to_bytes s =
    let b = replicate super_size 0 in
    let b = copy_at 0 (to_le32 s.magic) b in
    let b = copy_at 4 (to_le32 s.version) b in
    let b = copy_at 8 (to_le32 s.block_size) b in
    let b = copy_at 12 (to_le32 s.total_blocks) b in
    let b = copy_at 16 (to_le32 s.inode_count) b in
    let b = copy_at 20 (to_le32 s.inode_table_start) b in
    let b = copy_at 24 (to_le32 s.data_bitmap_start) b in
    let b = copy_at 28 (to_le32 s.data_blocks_start) b in
    let b = copy_at 32 (to_le32 s.root_inode) b in
    let b = copy_at 36 (to_le32 s.snapshot_area_start) b in
    let b = copy_at 40 (to_le32 s.snapshot_count) b in
    let b = copy_at 44 (to_le32 s.journal_start) b in
    let b = copy_at 48 (to_le32 s.journal_size) b in
    let b = copy_at 52 (to_le32 s.feature_flags) b in
    let b = copy_at 56 (to_le64 s.creation_time) b in
    let b = copy_at 64 (to_le64 s.last_mount_time) b in b

-- The fields fit their machine types, and the magic number is one that the reader accepts.
pub record IsSuper (s : OnyfsSuper) : Type 0 where
  pub known : (s.magic ≡ onyfs_magic) ⊎ (s.magic ≡ onyfs_magic_v1)
  pub version : s.version < 2 ^ 32
  pub block_size : s.block_size < 2 ^ 32
  pub total_blocks : s.total_blocks < 2 ^ 32
  pub inode_count : s.inode_count < 2 ^ 32
  pub inode_table_start : s.inode_table_start < 2 ^ 32
  pub data_bitmap_start : s.data_bitmap_start < 2 ^ 32
  pub data_blocks_start : s.data_blocks_start < 2 ^ 32
  pub root_inode : s.root_inode < 2 ^ 32
  pub snapshot_area_start : s.snapshot_area_start < 2 ^ 32
  pub snapshot_count : s.snapshot_count < 2 ^ 32
  pub journal_start : s.journal_start < 2 ^ 32
  pub journal_size : s.journal_size < 2 ^ 32
  pub feature_flags : s.feature_flags < 2 ^ 32
  pub creation_time : s.creation_time < 2 ^ 64
  pub last_mount_time : s.last_mount_time < 2 ^ 64
  pub reserved : s.reserved ≡ replicate 10 0

magic_fits : (s : OnyfsSuper) → IsSuper s → s.magic < 2 ^ 32
magic_fits s h = omega (arith, h.known)

magic_accepted :
    (s : OnyfsSuper)
    → IsSuper s
    → (not (s.magic == onyfs_magic) && not (s.magic == onyfs_magic_v1)) ≡ false
magic_accepted s h = ground (arith, h.known)

-- What `to_bytes` writes, `from_bytes` reads back, with every field, for a superblock with either
-- magic number, fields that fit their types, and zeros in the reserved words.
pub super_from_bytes-super_to_bytes :
    (s : OnyfsSuper) → IsSuper s → super_from_bytes (super_to_bytes s) ≡ some s
unfolding super_from_bytes super_to_bytes to_le32 to_le64
super_from_bytes-super_to_bytes s h =
    rw
      (
        le32-to_le32 s.magic (magic_fits s h),
        le32-to_le32 s.version h.version,
        le32-to_le32 s.block_size h.block_size,
        le32-to_le32 s.total_blocks h.total_blocks,
        le32-to_le32 s.inode_count h.inode_count,
        le32-to_le32 s.inode_table_start h.inode_table_start,
        le32-to_le32 s.data_bitmap_start h.data_bitmap_start,
        le32-to_le32 s.data_blocks_start h.data_blocks_start,
        le32-to_le32 s.root_inode h.root_inode,
        le32-to_le32 s.snapshot_area_start h.snapshot_area_start,
        le32-to_le32 s.snapshot_count h.snapshot_count,
        le32-to_le32 s.journal_start h.journal_start,
        le32-to_le32 s.journal_size h.journal_size,
        le32-to_le32 s.feature_flags h.feature_flags,
        le64-to_le64 s.creation_time h.creation_time,
        le64-to_le64 s.last_mount_time h.last_mount_time,
        magic_accepted s h,
      )
      (ap (λ r. some (record s { reserved = r })) (sym h.reserved))
