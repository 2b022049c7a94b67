-- ===== src/Control.antt =====
-- neutun_server/src/control_server.rs: the control server's tasks. Each function is one turn of a
-- task's loop, or a whole task without a loop; the turns of all tasks interleave.
pub mod Address
pub mod Open
pub mod Client
pub mod Ping
pub mod Sink
