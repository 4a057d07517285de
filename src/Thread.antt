-- ===== src/Thread.antt =====
-- nnysl/thread.h and nnysl/thread.cpp: scoped locks, the spin lock, the semaphore and threads.
pub mod Scoped
pub mod Guards
pub mod Spin
pub mod Exclusion
pub mod Start
pub mod Names
pub mod Handle
pub mod Released
pub mod Waiting
pub mod Starting
pub mod Started
