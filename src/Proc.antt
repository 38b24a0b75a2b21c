-- ===== src/Proc.antt =====
-- Processes, kernel/src/proc.
pub mod Frame
pub mod Runqueue
pub mod Signals
