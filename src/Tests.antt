-- ===== src/Tests.antt =====
-- Runs of the theorems on concrete inputs.
pub mod Formats
pub mod Kernel
pub mod Files
pub mod Storage
pub mod Users
pub mod Signals
pub mod Paging
pub mod Memory
