-- ===== src/Config.antt =====
-- The configuration files of a module: de_databus/configFile.cpp and localConfigFile.cpp.
pub mod File
pub mod Changes
pub mod Layers
pub mod Local
pub mod Merge
pub mod Restart
mod Tests
