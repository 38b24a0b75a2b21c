-- ===== src/Ipc.antt =====
-- IPC channels, kernel/src/ipc/channel.
pub mod Channel
pub mod Ring
