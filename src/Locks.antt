-- ===== src/Locks.antt =====
-- The locks of nnysl/thread.h and the operations that take them, run by any number of threads.
pub mod Code
pub mod Safe
pub mod Modes
pub mod Running
pub mod Turns
pub mod Progress
pub mod Store
pub mod Access
pub mod Appenders
pub mod Loggers
pub mod Managers
pub mod Safety
pub mod Program
pub mod Alone
pub mod Together
pub mod Single
pub mod Variables
pub mod Ends
