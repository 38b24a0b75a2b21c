-- ===== src/Core/Formats.antt =====
-- The on-disk structures, core/src/formats.
pub mod Misc
pub mod Segment
pub mod Header
pub mod Superblock
pub mod Inode
pub mod Dirent
pub mod Snapshot
