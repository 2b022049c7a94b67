-- ===== src/Client/System.antt =====
-- The client as a whole: the turns of all its tasks, in any order (neutun/src/main.rs, local.rs and
-- introspect).
pub mod Edits
pub mod Refines
pub mod Sendable
use neutun.Base.{ℕ, Text, ◌≡◌, Bool, Option, some, none, [], length}
use neutun.Table.{Table}
use neutun.Channel.{Sender, put, unbounded, dropped}
use neutun.Protocol.{StreamId}
use neutun.Client.Tunnel.{
  Client, Attempt, LocalTurn, process_control_flow_message, end_task, process_local_tcp,
  forward_to_local_tcp,
}
use neutun.Client.Tunnel.Mux.{after_local}
use neutun.Client.Wormhole.{WriteTurn, waits, writes, restarts, write_packet}
use neutun.Client.Introspect.{Request, replay_request}

-- No stream, no token, no channel.
abbrev pub init : Client
init = record {
  active_streams = [];
  reconnect_token = none;
  streams = λ _. dropped;
  tunnel = λ _. dropped;
}

-- The tunnel channel of a new connection.
abbrev pub open_tunnel : Sender → Client → Client
open_tunnel tunnel_tx s = record s { tunnel = put tunnel_tx unbounded s.tunnel }

abbrev pub after_write : Client → WriteTurn → Client
after_write s waits = s
after_write s (writes message s') = s'
after_write s (restarts e s') = s'

-- One turn of one task. Stream ids are arrays of eight bytes. A task may be that of any stream, also
-- of one that is no longer active.
pub data Step (s s' : Client) : Type 0 where
  connects : (tunnel_tx : Sender) → s' ≡ open_tunnel tunnel_tx s → Step s s'
  hears :
      (use_tls : Bool) (attempt : Attempt) (tx tunnel_tx : Sender) (message : Text)
      → s' ≡ (process_control_flow_message use_tls attempt tx tunnel_tx message s).1
      → Step s s'
  ends : (tx : Option Sender) (sid : StreamId) → s' ≡ end_task tx sid s → Step s s'
  reads :
      (tunnel_tx : Sender) (sid : StreamId) (read : Option Text)
      → length sid ≡ 8
      → s' ≡ after_local (process_local_tcp tunnel_tx sid read s)
      → Step s s'
  writes_local :
      (tx : Sender) (written : Bool) (out : Text) (t : LocalTurn)
      → forward_to_local_tcp tx written s ≡ some (out, t)
      → s' ≡ after_local t
      → Step s s'
  sends :
      (tunnel_tx : Sender) (taken : Bool)
      → s' ≡ after_write s (write_packet tunnel_tx taken s)
      → Step s s'
  replays :
      (use_tls : Bool) (attempt : Attempt) (tx tunnel_tx : Sender) (sid : StreamId) (rid : Text)
      (requests : Table Request)
      → length sid ≡ 8
      → s' ≡ (replay_request use_tls attempt tx tunnel_tx sid rid requests s).1
      → Step s s'

-- What can be reached from `s`.
pub data Reach (s : Client) : Client → Type 0 where
  here : Reach s s
  then : {t u : Client} → Reach s t → Step t u → Reach s u
