-- ===== src/Client.antt =====
-- The pgmoneta client of src/client.rs and src/client/info.rs.
pub mod Modes
pub mod Frame
pub mod Response
pub mod Request
pub mod Closed
pub mod Sealing
