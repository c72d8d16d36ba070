-- ===== src/Examples.antt =====
-- The theorems at concrete inputs, and runs of the definitions.
pub mod Http
pub mod Auth
pub mod Log
pub mod Pool
pub mod Store
pub mod Service
pub mod Sinks
pub mod Backup
pub mod Documents
pub mod Files
pub mod Logger
pub mod Restart
pub mod Start
