-- ===== src/Tests.antt =====
-- Each theorem at a concrete input, by the packages.
mod Messages
mod Clients
mod Codec
mod Stores
mod Logs
mod Servers
