-- ===== src/Tests/Formats.antt =====
-- core/src on concrete inputs.
use slipper_kernel.Prelude.{◌≡◌, refl, arith, [], ◌∷◌, ◌++◌, replicate, some, inl}
use slipper_kernel.Core.Cursor.{
  Cursor, IsCursor, ReadOutcome, read_u8, read_le32, read_le64, read_be32, read_be64, read_bytes,
  reads_lem,
}
use slipper_kernel.Core.Parser.Values.{le_value, be_value}
use slipper_kernel.Core.Formats.Superblock.{OnyfsSuper, IsSuper, onyfs_magic}
use slipper_kernel.Core.Formats.Segment.{OnxSegment, IsSegment}
use slipper_kernel.Core.Formats.Inode.{
  OnyfsInode, IsInode, inode_from_bytes, inode_to_bytes, inode_from_bytes-inode_to_bytes,
}
use slipper_kernel.Core.Formats.Dirent.{OnyfsDirent, IsDirent}
use slipper_kernel.Prelude.{ℕ, List}
use slipper_kernel.Core.Formats.Snapshot.{SnapshotMeta, IsSnapshot}
use slipper_kernel.Core.Formats.Header.{OnxHeader, onx_magic, header_from_bytes, header_to_bytes_v2}
use slipper_kernel.Core.Formats.Header.RoundTrip.{IsHeader, header_from_bytes-header_to_bytes_v2}

abbrev cursor : Cursor
cursor = record { buf = 1 ∷ 2 ∷ 3 ∷ 4 ∷ 5 ∷ 6 ∷ 7 ∷ []; pos = 2 }

reads_lem_example :
    ReadOutcome 1 cursor 3 (read_u8 cursor)
    × ReadOutcome 4 cursor 0x06050403 (read_le32 cursor)
    × ReadOutcome 8 cursor 0x0706050403 (read_le64 cursor)
    × ReadOutcome 4 cursor 0x03040506 (read_be32 cursor)
    × ReadOutcome 8 cursor 0x0304050607 (read_be64 cursor)
    × ReadOutcome 3 cursor (3 ∷ 4 ∷ 5 ∷ []) (read_bytes 3 cursor)
unfolding IsCursor le_value be_value
reads_lem_example = reads_lem 3 cursor (omega arith, omega arith) (omega arith)

abbrev super : OnyfsSuper
super = record {
  magic = onyfs_magic;
  version = 2;
  block_size = 4096;
  total_blocks = 1000;
  inode_count = 64;
  inode_table_start = 1;
  data_bitmap_start = 5;
  data_blocks_start = 6;
  root_inode = 1;
  snapshot_area_start = 900;
  snapshot_count = 2;
  journal_start = 950;
  journal_size = 16;
  feature_flags = 3;
  creation_time = 1700000000;
  last_mount_time = 1700000001;
  reserved = replicate 10 0;
}

super-IsSuper : IsSuper super
super-IsSuper = record {
  known = inl refl;
  version = omega arith;
  block_size = omega arith;
  total_blocks = omega arith;
  inode_count = omega arith;
  inode_table_start = omega arith;
  data_bitmap_start = omega arith;
  data_blocks_start = omega arith;
  root_inode = omega arith;
  snapshot_area_start = omega arith;
  snapshot_count = omega arith;
  journal_start = omega arith;
  journal_size = omega arith;
  feature_flags = omega arith;
  creation_time = omega arith;
  last_mount_time = omega arith;
  reserved = refl;
}

abbrev segment : OnxSegment
segment = record {
  vaddr = 65536;
  filesz = 100;
  memsz = 200;
  offset = 80;
  flags = 5;
  align = 4096;
  reserved = 0;
  compressed_size = 60;
}

segment-IsSegment : IsSegment segment
segment-IsSegment = record {
  vaddr = omega arith;
  filesz = omega arith;
  memsz = omega arith;
  offset = omega arith;
  flags = omega arith;
  align = omega arith;
  reserved = omega arith;
  compressed_size = omega arith;
}

abbrev header : OnxHeader
header = record {
  magic = onx_magic;
  version = 2;
  entry = 65536;
  nsegs = 1;
  flags = 0;
  segs = segment ∷ [];
}

header-IsHeader : IsHeader 8 header
header-IsHeader = record {
  magic = refl;
  entry = omega arith;
  flags = omega arith;
  counted = refl;
  few = omega arith;
  segs = (segment-IsSegment, tt);
}

wide-IsHeader : IsHeader 256 header
wide-IsHeader = record {
  magic = refl;
  entry = omega arith;
  flags = omega arith;
  counted = refl;
  few = omega arith;
  segs = (segment-IsSegment, tt);
}

header_from_bytes-header_to_bytes_v2_example :
    header_from_bytes (header_to_bytes_v2 header) ≡ some (record header { version = 2 })
header_from_bytes-header_to_bytes_v2_example =
    header_from_bytes-header_to_bytes_v2 header wide-IsHeader

abbrev inode : OnyfsInode
inode = record {
  mode = 1;
  size = 5000;
  uid = 0;
  gid = 0;
  nlink = 1;
  blocks = 6 ∷ 7 ∷ replicate 8 0;
  indirect = 0;
  double_indirect = 0;
  crtime = 10;
  mtime = 20;
  atime = 30;
  ctime = 40;
  flags = 0;
  reserved = 0;
}

inode-IsInode : IsInode inode
inode-IsInode = record {
  mode = omega arith;
  size = omega arith;
  direct = refl;
  blocks = omega arith;
  uid = omega arith;
  gid = omega arith;
  nlink = omega arith;
  flags = omega arith;
  reserved = omega arith;
  indirect = omega arith;
  double_indirect = omega arith;
  crtime = omega arith;
  mtime = omega arith;
  atime = omega arith;
}

inode_from_bytes-inode_to_bytes_example :
    inode_from_bytes (inode_to_bytes inode) ≡ some (record inode { ctime = 0 })
inode_from_bytes-inode_to_bytes_example = inode_from_bytes-inode_to_bytes inode inode-IsInode

abbrev dirent : OnyfsDirent
dirent = record {
  name = (105 ∷ 110 ∷ 105 ∷ 116 ∷ []) ++ replicate 28 0;
  inode = 12;
  dtype = 1;
  name_len = 4;
  reserved = 0 ∷ 0 ∷ [];
}

dirent-IsDirent : IsDirent dirent
dirent-IsDirent = record { name = refl; inode = omega arith; reserved = refl }

abbrev snapshot : SnapshotMeta
snapshot = record {
  id = 1;
  timestamp = 1700000000;
  root_inode_snapshot = 1;
  block_count = 17;
  name = replicate 32 65;
  parent_id = 0;
  flags = 1;
  reserved = replicate 4 0;
}

snapshot-IsSnapshot : IsSnapshot snapshot
snapshot-IsSnapshot = record {
  id = omega arith;
  timestamp = omega arith;
  root_inode_snapshot = omega arith;
  block_count = omega arith;
  name = refl;
  parent_id = omega arith;
  flags = omega arith;
  reserved = refl;
}

abbrev padded : List ℕ
padded = (65 ∷ replicate 7 32) ++ (66 ∷ 32 ∷ 32 ∷ [])
