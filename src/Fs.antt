-- ===== src/Fs.antt =====
-- File systems, kernel/src/fs.
pub mod Vfs
