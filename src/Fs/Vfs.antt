-- ===== src/Fs/Vfs.antt =====
-- The virtual file system, kernel/src/fs/vfs.
pub mod Fd
pub mod Mount
pub mod File
