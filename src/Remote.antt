-- ===== src/Remote.antt =====
-- neutun_server/src/remote.rs: the connections of end users.
pub mod Host
pub mod Peek
pub mod Accept
pub mod Stream
pub mod Connect
