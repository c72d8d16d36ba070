-- ===== src/Auth.antt =====
-- The login state of src/server/Service.cpp: sessions, the login rate limiter and the cookies.
pub mod Session
pub mod Limiter
pub mod Cookie
