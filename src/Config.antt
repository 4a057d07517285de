-- ===== src/Config.antt =====
-- nnysl/config.h, nnysl/config.cpp: configuration variables, their registry, and the loader.
pub mod Var
pub mod Registry
pub mod Load
pub mod Members
pub mod Changes
pub mod Listeners
pub mod Lookups
pub mod Pointers
pub mod Loads
pub mod Loading
