-- ===== src/Service.antt =====
-- src/server/Service.cpp and Service.hpp: the HTTP service. A handler takes the server's state and
-- a request and gives the state after it and the reply.
pub mod Platform
pub mod Reply
pub mod Text
pub mod Access
pub mod Upload
pub mod Remove
pub mod Pages
pub mod Download
pub mod Routes
pub mod Config
pub mod Start
