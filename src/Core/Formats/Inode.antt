-- ===== src/Core/Formats/Inode.antt =====
-- core/src/formats/onyxfs_fmt/inode.rs
use slipper_kernel.Prelude.{
  ℕ, zero, suc, ◌+◌, ◌*◌, ◌<◌, ◌^◌, List, [], ◌∷◌, Option, none, some, ◌≡◌, ltb, if◌then◌else◌,
  length, replicate, arith, All,
}
use slipper_kernel.Core.Parser.{
  slice, copy_at, le32, le64, to_le32, to_le64, le32-to_le32, le64-to_le64,
}

abbrev pub onyfs_direct_blks : ℕ
onyfs_direct_blks = 10

pub record OnyfsInode : Type 0 where
  pub mode : ℕ
  pub size : ℕ
  pub uid : ℕ
  pub gid : ℕ
  pub nlink : ℕ
  pub blocks : List ℕ
  pub indirect : ℕ
  pub double_indirect : ℕ
  pub crtime : ℕ
  pub mtime : ℕ
  pub atime : ℕ
  pub ctime : ℕ
  pub flags : ℕ
  pub reserved : ℕ

abbrev pub inode_size : ℕ
inode_size = 128

-- `for (i, b) in blocks.iter_mut().enumerate()`, from index `i` on
pub read_blocks : List ℕ → ℕ → ℕ → List ℕ
read_blocks buf i zero = []
read_blocks buf i (suc left) =
    le32 (slice buf (16 + i * 4) (16 + (i + 1) * 4)) ∷ read_blocks buf (i + 1) left

pub inode_from_bytes : List ℕ → Option OnyfsInode
unfolding read_blocks
inode_from_bytes buf =
    if ltb (length buf) inode_size
    then none
    else some (record {
      mode = le32 (slice buf 0 4);
      size = le64 (slice buf 8 16);
      uid = le32 (slice buf 56 60);
      gid = le32 (slice buf 60 64);
      nlink = le32 (slice buf 64 68);
      blocks = read_blocks buf 0 onyfs_direct_blks;
      indirect = le32 (slice buf 96 100);
      double_indirect = le32 (slice buf 100 104);
      crtime = le64 (slice buf 104 112);
      mtime = le64 (slice buf 112 120);
      atime = le64 (slice buf 120 128);
      ctime = 0;
      flags = le32 (slice buf 68 72);
      reserved = le32 (slice buf 72 76);
    })

-- `for (i, &bl) in self.blocks.iter().enumerate()`, from index `i` on
pub write_blocks : List ℕ → ℕ → List ℕ → List ℕ
write_blocks [] i b = b
write_blocks (bl ∷ rest) i b = write_blocks rest (i + 1) (copy_at (16 + i * 4) (to_le32 bl) b)

pub inode_to_bytes : OnyfsInode → List ℕ
unfolding write_blocks
inode_to_bytes s =
    let b = replicate inode_size 0 in
    let b = copy_at 0 (to_le32 s.mode) b in
    let b = copy_at 4 (to_le32 0) b in
    let b = copy_at 8 (to_le64 s.size) b in
    let b = write_blocks s.blocks 0 b in
    let b = copy_at 56 (to_le32 s.uid) b in
    let b = copy_at 60 (to_le32 s.gid) b in
    let b = copy_at 64 (to_le32 s.nlink) b in
    let b = copy_at 68 (to_le32 s.flags) b in
    let b = copy_at 72 (to_le32 s.reserved) b in
    let b = copy_at 96 (to_le32 s.indirect) b in
    let b = copy_at 100 (to_le32 s.double_indirect) b in
    let b = copy_at 104 (to_le64 s.crtime) b in
    let b = copy_at 112 (to_le64 s.mtime) b in let b = copy_at 120 (to_le64 s.atime) b in b

-- The fields fit their machine types.
pub record IsInode (s : OnyfsInode) : Type 0 where
  pub mode : s.mode < 2 ^ 32
  pub size : s.size < 2 ^ 64
  pub direct : length s.blocks ≡ onyfs_direct_blks
  pub blocks : All (λ b. b < 2 ^ 32) s.blocks
  pub uid : s.uid < 2 ^ 32
  pub gid : s.gid < 2 ^ 32
  pub nlink : s.nlink < 2 ^ 32
  pub flags : s.flags < 2 ^ 32
  pub reserved : s.reserved < 2 ^ 32
  pub indirect : s.indirect < 2 ^ 32
  pub double_indirect : s.double_indirect < 2 ^ 32
  pub crtime : s.crtime < 2 ^ 64
  pub mtime : s.mtime < 2 ^ 64
  pub atime : s.atime < 2 ^ 64

round_trip_at :
    (s : OnyfsInode) (bs : List ℕ)
    → IsInode s
    → length bs ≡ onyfs_direct_blks
    → All (λ b. b < 2 ^ 32) bs
    → inode_from_bytes (inode_to_bytes (record s { blocks = bs }))
      ≡ some (record s { blocks = bs; ctime = 0 })
unfolding inode_from_bytes inode_to_bytes to_le32 to_le64
round_trip_at s (b0 ∷ b1 ∷ b2 ∷ b3 ∷ b4 ∷ b5 ∷ b6 ∷ b7 ∷ b8 ∷ b9 ∷ []) h direct bounds = rw (
  le32-to_le32 s.mode h.mode,
  le64-to_le64 s.size h.size,
  le32-to_le32 b0 bounds.0,
  le32-to_le32 b1 bounds.1.0,
  le32-to_le32 b2 bounds.1.1.0,
  le32-to_le32 b3 bounds.1.1.1.0,
  le32-to_le32 b4 bounds.1.1.1.1.0,
  le32-to_le32 b5 bounds.1.1.1.1.1.0,
  le32-to_le32 b6 bounds.1.1.1.1.1.1.0,
  le32-to_le32 b7 bounds.1.1.1.1.1.1.1.0,
  le32-to_le32 b8 bounds.1.1.1.1.1.1.1.1.0,
  le32-to_le32 b9 bounds.1.1.1.1.1.1.1.1.1.0,
  le32-to_le32 s.uid h.uid,
  le32-to_le32 s.gid h.gid,
  le32-to_le32 s.nlink h.nlink,
  le32-to_le32 s.flags h.flags,
  le32-to_le32 s.reserved h.reserved,
  le32-to_le32 s.indirect h.indirect,
  le32-to_le32 s.double_indirect h.double_indirect,
  le64-to_le64 s.crtime h.crtime,
  le64-to_le64 s.mtime h.mtime,
  le64-to_le64 s.atime h.atime,
)
round_trip_at s bs h direct bounds = absurd (omega arith)

-- `from_bytes` reads back all that `to_bytes` writes of an inode whose fields fit their types:
-- every field but `ctime`, which comes back as 0.
pub inode_from_bytes-inode_to_bytes :
    (s : OnyfsInode)
    → IsInode s
    → inode_from_bytes (inode_to_bytes s) ≡ some (record s { ctime = 0 })
inode_from_bytes-inode_to_bytes s h = round_trip_at s s.blocks h h.direct h.blocks
