-- ===== src/Crypto.antt =====
-- internal/crypto/crypto.go: the channel security.
pub mod Replay
pub mod Seal
pub mod Kdf
mod Tests
