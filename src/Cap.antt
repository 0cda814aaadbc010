-- ===== src/Cap.antt =====
-- Capability adverts: de_databus/cap_schema.cpp.
pub mod Outcome
pub mod Schema
pub mod Check
pub mod Validate
pub mod Advert
pub mod Accepted
pub mod Limits
pub mod Hash
pub mod Action
pub mod Names
mod Tests
