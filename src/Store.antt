-- ===== src/Store.antt =====
-- src/server/DataManager.hpp and DataManager.cpp: the metadata of the stored files.
pub mod Platform
pub mod FileUtil
pub mod Info
pub mod Manager
