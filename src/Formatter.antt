-- ===== src/Formatter.antt =====
-- nnysl/log.h, nnysl/log.cpp: `LogEvent`, the format items and `LogFormatter`.
pub mod Event
pub mod Item
pub mod Scan
pub mod Grammar
mod Inner
mod Steps
pub mod Reading
pub mod Total
pub mod Meaning
pub mod Errors
