-- ===== src/Client/Tunnel.antt =====
-- The streams of the client: `process_control_flow_message` of neutun/src/main.rs, and
-- neutun/src/local.rs.
pub mod Flow
pub mod Refusal
pub mod Local
pub mod Demux
pub mod Mux
use neutun.Base.{
  Text, if◌then◌else◌, Bool, true, false, not, Option, none, some, List, [], ◌∷◌, Result, ok, err,
}
use neutun.Table
use neutun.Table.{Table}
use neutun.Channel.{
  Channel, Channels, Sender, unbounded, put, send, dropped, Received, item, finished, pending, next,
}
use neutun.Protocol.{
  StreamId, ReconnectToken, ControlPacket, init_stream, stream_data, refused, end_stream, ping,
}
use neutun.Protocol.Wire.{WireError, deserialize}

pub data StreamMessage : Type 0 where
  payload : Text → StreamMessage
  close : StreamMessage

-- `ACTIVE_STREAMS`, `RECONNECT_TOKEN` and the channels of the tasks.
pub record Client : Type 0 where
  pub active_streams : Table Sender
  pub reconnect_token : Option ReconnectToken
  pub streams : Channels StreamMessage
  pub tunnel : Channels ControlPacket

-- How the connection to the local service goes.
pub record Attempt : Type 0 where
  pub tcp_connects : Bool
  pub name_is_valid : Bool
  pub tls_connects : Bool

-- The answer of a send on the tunnel, and the state.
unfoldable pub send_tunnel : Sender → ControlPacket → Client → Bool × Client
send_tunnel tunnel_tx packet s =
    let (sent, tunnel) = send tunnel_tx packet s.tunnel in (sent, record s { tunnel = tunnel })

abbrev pub refuse : Sender → StreamId → Client → Option Sender × Client
refuse tunnel_tx stream_id s = (none, (send_tunnel tunnel_tx (refused stream_id) s).1)

abbrev pub open_local : StreamId → Sender → Client → Option Sender × Client
open_local stream_id tx s = (
  some tx,
  record s {
    active_streams = Table.insert stream_id tx s.active_streams;
    streams = put tx unbounded s.streams;
  },
)

-- The new stream's channel is at the place `tx`.
unfoldable pub setup_new_stream :
    Bool → Attempt → Sender → Sender → StreamId → Client → Option Sender × Client
setup_new_stream use_tls attempt tx tunnel_tx stream_id s =
    if not attempt.tcp_connects
    then refuse tunnel_tx stream_id s
    else if not use_tls
    then open_local stream_id tx s
    else if not attempt.name_is_valid
    then (none, s)
    else if not attempt.tls_connects
    then refuse tunnel_tx stream_id s
    else open_local stream_id tx s

pub data FlowError : Type 0 where
  malformed : WireError → FlowError
  unexpected_control_packet send_failed : FlowError

abbrev pub answered : ControlPacket → Bool × Client → Result ControlPacket FlowError × Client
answered packet (true, s) = (ok packet, s)
answered packet (false, s) = (err send_failed, s)

unfoldable pub forward :
    Option Sender → Sender → StreamId → Text → Client → Result ControlPacket FlowError × Client
forward (some tx) tunnel_tx stream_id bytes s =
    let (sent, streams) = send tx (payload bytes) s.streams in
    answered (stream_data stream_id bytes) (sent, record s { streams = streams })
forward none tunnel_tx stream_id bytes s =
    answered (stream_data stream_id bytes) (send_tunnel tunnel_tx (refused stream_id) s)

-- A stream that is not known yet is set up first.
unfoldable pub ensure_stream :
    Option Sender → Bool → Attempt → Sender → Sender → StreamId → Client → Client
ensure_stream (some _) use_tls attempt tx tunnel_tx stream_id s = s
ensure_stream none use_tls attempt tx tunnel_tx stream_id s =
    (setup_new_stream use_tls attempt tx tunnel_tx stream_id s).1

abbrev pub keep_token : Option ReconnectToken → Client → Client
keep_token none s = s
keep_token (some tok) s = record s { reconnect_token = some tok }

module _ (use_tls : Bool) (attempt : Attempt) (tx tunnel_tx : Sender) where
  unfoldable pub handle_control_packet :
      Result ControlPacket WireError → Client → Result ControlPacket FlowError × Client
  unfolding ensure_stream forward
  handle_control_packet (err e) s = (err (malformed e), s)
  handle_control_packet (ok (init_stream stream_id)) s = (ok (init_stream stream_id), s)
  handle_control_packet (ok (ping tok)) s =
      (ok (ping tok), (send_tunnel tunnel_tx (ping none) (keep_token tok s)).1)
  handle_control_packet (ok (refused _)) s = (err unexpected_control_packet, s)
  handle_control_packet (ok (end_stream stream_id)) s = (ok (end_stream stream_id), s)
  handle_control_packet (ok (stream_data stream_id bytes)) s =
      let s' =
        ensure_stream (Table.get stream_id s.active_streams) use_tls attempt tx tunnel_tx stream_id
          s in
      forward (Table.get stream_id s'.active_streams) tunnel_tx stream_id bytes s'

  unfoldable pub process_control_flow_message :
      Text → Client → Result ControlPacket FlowError × Client
  unfolding handle_control_packet
  process_control_flow_message bytes s = handle_control_packet (deserialize bytes) s

  continue_flow :
      Result ControlPacket FlowError × Client
      → Option FlowError × Client
      → Option FlowError × Client
  continue_flow (ok _, s) rest = rest
  continue_flow (err e, s) rest = (some e, s)

  -- The reading loop of `run_wormhole` over some messages; an error ends it.
  unfoldable pub process_messages : List Text → Client → Option FlowError × Client
  unfolding continue_flow
  process_messages [] s = (none, s)
  process_messages (m ∷ ms) s =
      let r = process_control_flow_message m s in
      let rest = process_messages ms r.1 in continue_flow r rest

-- The task that an end packet spawns, after its sleep; the channel was looked up before it.
unfoldable pub end_task : Option Sender → StreamId → Client → Client
end_task none stream_id s = s
end_task (some tx) stream_id s = record s {
  streams = (send tx close s.streams).1;
  active_streams = Table.remove stream_id s.active_streams;
}

-- One turn of a task; a failed `expect` ends it by a panic.
pub data LocalTurn : Type 0 where
  stops goes_on panics : Client → LocalTurn

abbrev pub sent_turn : Bool × Client → LocalTurn
sent_turn (true, s) = goes_on s
sent_turn (false, s) = panics s

-- What the local socket yields; an error is `none`.
unfoldable pub process_local_tcp : Sender → StreamId → Option Text → Client → LocalTurn
process_local_tcp tunnel_tx stream_id none s = panics s
process_local_tcp tunnel_tx stream_id (some []) s =
    stops (record s { active_streams = Table.remove stream_id s.active_streams })
process_local_tcp tunnel_tx stream_id (some (b ∷ bytes)) s =
    sent_turn (send_tunnel tunnel_tx (stream_data stream_id (b ∷ bytes)) s)

abbrev pub drop_reader : Sender → Client → Client
drop_reader tx s = record s { streams = put tx dropped s.streams }

abbrev pub local_turn : Sender → Bool → Received StreamMessage → Client → Option (Text × LocalTurn)
local_turn tx written pending s = none
local_turn tx written finished s = some ([], stops (drop_reader tx s))
local_turn tx written (item close rest) s = some ([], stops (drop_reader tx s))
local_turn tx true (item (payload bytes) rest) s =
    some (bytes, goes_on (record s { streams = put tx rest s.streams }))
local_turn tx false (item (payload bytes) rest) s = some (bytes, panics (drop_reader tx s))

-- What goes to the local socket, which takes it if `written`; `none` while there is no message.
unfoldable pub forward_to_local_tcp : Sender → Bool → Client → Option (Text × LocalTurn)
forward_to_local_tcp tx written s = local_turn tx written (next (s.streams tx)) s
