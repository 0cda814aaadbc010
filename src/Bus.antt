-- ===== src/Bus.antt =====
-- The databus transports: de_databus/chunk_protocol.hpp, udpClient.cpp and unixDgramClient.cpp.
pub mod Chunk
pub mod Link
pub mod Udp
pub mod Unix
pub mod Delivery
pub mod Sources
pub mod Session
pub mod Overflow
pub mod Lifecycle
pub mod SignedChar
mod Tests
