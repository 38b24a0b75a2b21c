-- ===== src/Init/Auth.antt =====
-- init/src/auth.rs: the hash, the encodings, the comparison and the files of the users.
pub mod Sha256
pub mod Hex
pub mod Lines
pub mod Shadow
pub mod Passwd
