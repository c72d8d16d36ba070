-- ===== src/Backup.antt =====
-- The backup of the log over the network, log_system/logs_code/backlog.
pub mod Writer
pub mod Server
pub mod Client
