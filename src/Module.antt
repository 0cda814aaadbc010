-- ===== src/Module.antt =====
-- `CModule` and what stands on it: de_databus/de_module.cpp, de_facade_base.cpp and
-- de_message_parser_base.cpp.
pub mod Message
pub mod State
pub mod Capabilities
pub mod Receive
pub mod Adverts
pub mod Sent
pub mod Counts
pub mod Unmoved
pub mod Announced
pub mod Delivery
pub mod Report
pub mod Reported
pub mod Facade
pub mod Heartbeat
pub mod Init
pub mod Started
mod Tests
