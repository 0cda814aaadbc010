-- ===== src/Sha.antt =====
-- SHA-256: helpers/sha256.hpp.
pub mod Words
pub mod Standard
pub mod Schedule
pub mod Stream
pub mod Padding
pub mod Blocks
mod Tests
