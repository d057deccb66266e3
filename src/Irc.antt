-- ===== src/Irc.antt =====
-- Package pkg/irc.
pub mod Const
pub mod Mode
pub mod Message
pub mod Casefold
pub mod Ctcp
pub mod Dcc
pub mod User
pub mod State
pub mod Features
pub mod Sasl
pub mod Client
pub mod Negotiation
pub mod Handle
pub mod Conn
