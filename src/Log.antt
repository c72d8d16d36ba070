-- ===== src/Log.antt =====
-- The logging library of log_system/logs_code.
pub mod Buffer
pub mod Worker
pub mod Pool
pub mod Settings
pub mod Sink
pub mod Logger
pub mod Manager
pub mod FileFlush
