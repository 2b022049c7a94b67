-- ===== src/Client.antt =====
-- The client program (neutun/src).
pub mod Config
pub mod System
pub mod Tunnel
pub mod Introspect
pub mod Session
pub mod Update
pub mod Ui
pub mod Wormhole
pub mod Saved
pub mod Daemon
pub mod Options
pub mod Settings
pub mod Interactive
pub mod Main
