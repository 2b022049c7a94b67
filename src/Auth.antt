-- ===== src/Auth.antt =====
-- neutun_server/src/auth: signatures, reconnect tokens, the authentication service and the
-- handshake of a client.
pub mod Key
pub mod Token
pub mod Service
pub mod SubDomain
pub mod Handshake
