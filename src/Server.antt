-- ===== src/Server.antt =====
-- Package server.
pub mod States
pub mod Json
pub mod Live
pub mod Handler
pub mod Websocket
pub mod Index
