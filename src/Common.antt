-- ===== src/Common.antt =====
-- internal/common: what the client and the server share.
pub mod Sha256
pub mod CompilerKilled
pub mod FileSystem
