-- ===== src/Server.antt =====
-- The server's shared state: `CONNECTIONS`, `ACTIVE_STREAMS` and the channels between its tasks
-- (neutun_server/src: connected_clients.rs, active_stream.rs, main.rs).
pub mod Config
pub mod Connections
pub mod Invariant
use neutun.Base.{ℕ, Text, Bool, String, codes, List, ◌++◌}
use neutun.Table.{Table}
use neutun.Channel.{Channels, Sender}
use neutun.Protocol.{ClientId, StreamId, ControlPacket}

pub record ConnectedClient : Type 0 where
  pub id : ClientId
  pub host : Text  -- subdomain
  pub domain : Text  -- root domain
  pub is_anonymous : Bool
  pub wildcard : Bool
  pub tx : Sender

unfoldable pub full_host : ConnectedClient → Text
full_host c = c.host ++ codes "." ++ c.domain

pub data StreamMessage : Type 0 where
  payload : Text → StreamMessage
  tunnel_refused : StreamMessage
  no_client_tunnel : StreamMessage

pub record ActiveStream : Type 0 where
  pub id : StreamId
  pub client : ConnectedClient
  pub tx : Sender

pub record Server : Type 0 where
  pub clients : Table ConnectedClient
  pub hosts : Table ConnectedClient
  pub active_streams : Table ActiveStream
  pub controls : Channels ControlPacket
  pub pipes : Channels StreamMessage
