-- ===== src/System.antt =====
-- The server as a whole: the turns of all its tasks, in any order (neutun_server/src).
pub mod Edits
pub mod Sending
pub mod Refines
pub mod Readable
pub mod Routing
pub mod Delivery
pub mod Response
pub mod Exchange
pub mod Mixed
use neutun.Base.{ℕ, Text, ◌≡◌, Bool, Option, none, some, List, [], length}
use neutun.Channel.{Sender, dropped}
use neutun.Protocol.{StreamId}
use neutun.Protocol.Hello.{ServerHello}
use neutun.Server.{ConnectedClient, ActiveStream, Server}
use neutun.Server.Config.{IpAddr}
use neutun.Auth.Handshake.{Env, Moment}
use neutun.Control.Open.{handle_new_connection}
use neutun.Control.Client.{Incoming, Turn, after, process_client_message}
use neutun.Control.Ping.{send_ping, send_client_stream_init}
use neutun.Control.Sink.{tunnel_client}
use neutun.Remote.Accept.{accept_connection}
use neutun.Remote.Stream.{Read, process_tcp_stream, neutun_stream}

-- No client, no stream, no channel.
abbrev pub init : Server
init = record {
  clients = [];
  hosts = [];
  active_streams = [];
  controls = λ _. dropped;
  pipes = λ _. dropped;
}

-- One turn of one task. Stream ids are arrays of eight bytes. A task may be that of any client or
-- stream, also of one that is no longer registered.
pub data Step (env : Env) (s s' : Server) : Type 0 where
  connects :
      (m : Moment) (ip : IpAddr) (message : Option Text) (delivered : Bool) (tx : Sender)
      → s' ≡ (handle_new_connection env m ip message delivered tx s).2
      → Step env s s'
  hears :
      (c : ConnectedClient) (i : Incoming)
      → s' ≡ after (process_client_message c i s)
      → Step env s s'
  pings : (c : ConnectedClient) (now : ℕ) → s' ≡ after (send_ping env c now s) → Step env s s'
  drains :
      (c : ConnectedClient) (delivered : Bool) (out : Option Text) (t : Turn)
      → tunnel_client c delivered s ≡ some (out, t)
      → s' ≡ after t
      → Step env s s'
  accepts :
      (host : Text) (id : StreamId) (tx : Sender)
      → length id ≡ 8
      → s' ≡ (accept_connection env.config host id tx s).2
      → Step env s s'
  inits : (st : ActiveStream) → length st.id ≡ 8 → s' ≡ send_client_stream_init st s → Step env s s'
  reads :
      (st : ActiveStream) (r : Read)
      → length st.id ≡ 8
      → s' ≡ after (process_tcp_stream st r s)
      → Step env s s'
  writes :
      (st : ActiveStream) (written : Bool) (out : Text) (t : Turn)
      → neutun_stream st written s ≡ some (out, t)
      → s' ≡ after t
      → Step env s s'

-- What can be reached from `s`.
pub data Reach (env : Env) (s : Server) : Server → Type 0 where
  here : Reach env s s
  then : {t u : Server} → Reach env s t → Step env t u → Reach env s u
