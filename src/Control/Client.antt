-- ===== src/Control/Client.antt =====
-- `process_client_messages`: what a client's messages do.
pub mod Forward
pub mod Pong
use neutun.Base.{
  Text, if◌then◌else◌, Bool, true, false, Option, none, some, List, [], ◌∷◌, Result, ok, err,
}
use neutun.Table
use neutun.Channel.{send}
use neutun.Protocol.{StreamId, ControlPacket, init_stream, stream_data, refused, end_stream, ping}
use neutun.Protocol.Wire.{WireError, deserialize}
use neutun.Server.{ConnectedClient, ActiveStream, StreamMessage, payload, tunnel_refused, Server}
use neutun.Server.Connections.{add, remove}

-- What the socket yields: a message by its kind, an error, or the end.
pub data Incoming : Type 0 where
  binary text close ping_frame pong_frame : Text → Incoming
  failed ended : Incoming

-- `stops` is a `return` of the task, `goes_on` the next turn of its loop.
pub data Turn : Type 0 where
  stops goes_on : Server → Turn

abbrev pub after : Turn → Server
after (stops s) = s
after (goes_on s) = s

unfoldable pub deliver : Option ActiveStream → StreamMessage → Server → Server
deliver none message s = s
deliver (some stream) message s = record s { pipes = (send stream.tx message s.pipes).1 }

abbrev pub to_stream : StreamId → StreamMessage → Server → Server
to_stream stream_id message s = deliver (Table.get stream_id s.active_streams) message s

unfoldable pub handle_packet : ConnectedClient → Result ControlPacket WireError → Server → Server
unfolding deliver
handle_packet client (err _) s = s
handle_packet client (ok (stream_data stream_id bytes)) s = to_stream stream_id (payload bytes) s
handle_packet client (ok (refused stream_id)) s = to_stream stream_id tunnel_refused s
handle_packet client (ok (init_stream _)) s = s
handle_packet client (ok (end_stream _)) s = s
handle_packet client (ok (ping _)) s = add client s

-- An empty message ends the task like an error does.
handle_message : ConnectedClient → Text → Server → Turn
unfolding handle_packet
handle_message client [] s = stops (remove client s)
handle_message client (b ∷ bytes) s = goes_on (handle_packet client (deserialize (b ∷ bytes)) s)

unfoldable pub process_client_message : ConnectedClient → Incoming → Server → Turn
unfolding handle_message
process_client_message client (binary bytes) s = handle_message client bytes s
process_client_message client (text bytes) s = handle_message client bytes s
process_client_message client (close _) s = stops (remove client s)
process_client_message client (ping_frame _) s = stops (remove client s)
process_client_message client (pong_frame _) s = stops (remove client s)
process_client_message client failed s = stops (remove client s)
process_client_message client ended s = stops (remove client s)
