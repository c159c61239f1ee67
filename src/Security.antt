-- ===== src/Security.antt =====
-- `SecurityUtil` of src/security.rs: the master key file, key derivation, AES-GCM with stored salts,
-- and the PostgreSQL wire protocol with SCRAM-SHA-256.
pub mod MasterKey
pub mod Kdf
pub mod Gcm
pub mod Wire
pub mod Handshake
pub mod Password
pub mod Untouched
pub mod Blind
pub mod Closed
pub mod Evolves
pub mod Fresh
pub mod Locks
