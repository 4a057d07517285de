-- ===== src/Logging.antt =====
-- nnysl/log.h, nnysl/log.cpp: appenders, loggers and their manager, over a store of the objects
-- that the program shares by pointer.
pub mod Sink
pub mod World
pub mod Logger
pub mod Log
pub mod Manager
pub mod Invariant
pub mod Preserve
pub mod Managing
pub mod Gate
pub mod Files
pub mod Output
pub mod Reach
