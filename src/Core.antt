-- ===== src/Core.antt =====
-- The crate `onyx_core`, core/src.
pub mod Errno
pub mod Parser
pub mod Cursor
pub mod Fmt
pub mod Formats
pub mod Memory
