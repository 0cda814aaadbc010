-- ===== src/Invoke.antt =====
-- Capability invokes of `CModule`: de_databus/de_module.cpp.
pub mod Handle
pub mod Cache
pub mod Once
pub mod Race
pub mod Recent
mod Tests
