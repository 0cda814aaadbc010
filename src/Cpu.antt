-- ===== src/Cpu.antt =====
-- The CPU load of a board and of the unit: de_databus/de_cpu_monitor.cpp and
-- de_databus/de_cpu_aggregator.cpp.
pub mod Config
pub mod Monitor
pub mod Hysteresis
pub mod Aggregator
pub mod Describe
pub mod Board
pub mod Unit
pub mod Naming
mod Tests
