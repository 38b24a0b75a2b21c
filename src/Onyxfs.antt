-- ===== src/Onyxfs.antt =====
-- OnyxFS, kernel/src/fs/onyxfs.
pub mod Compress
pub mod Journal
