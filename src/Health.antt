-- ===== src/Health.antt =====
-- The memory health of a process: de_databus/de_module_health.cpp.
pub mod Monitor
pub mod Window
mod Tests
