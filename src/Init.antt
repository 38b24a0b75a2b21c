-- ===== src/Init.antt =====
-- The user-space init, init/src.
pub mod Auth
