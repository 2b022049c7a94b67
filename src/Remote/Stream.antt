-- ===== src/Remote/Stream.antt =====
-- `process_tcp_stream` and `neutun_stream`: the two directions of an end user's connection.
pub mod Upload
pub mod Download
pub mod Gone
pub mod Mux
use neutun.Base.{
  Text, if◌then◌else◌, Bool, true, false, Option, none, some, String, codes, List, [], ◌∷◌, ◌++◌,
}
use neutun.Table
use neutun.Channel.{
  Channel, Channels, Received, item, finished, pending, next, put, dropped, send, close_channel,
}
use neutun.Protocol.{StreamId, ControlPacket, stream_data, end_stream}
use neutun.Server.{
  ConnectedClient, ActiveStream, StreamMessage, payload, tunnel_refused, no_client_tunnel, Server,
}
use neutun.Server.Connections.{get, remove}
use neutun.Control.Client.{Turn, stops, goes_on}

-- What the user's socket yields: bytes, at most 1024 of them, the end, or an error.
pub data Read : Type 0 where
  bytes : Text → Read
  ended failed : Read

-- A failed send drops the client; the next turn sees that it is gone.
abbrev pub forwarded : ConnectedClient → Bool × Channels ControlPacket → Server → Server
forwarded client (true, controls) s = record s { controls = controls }
forwarded client (false, controls) s = remove client s

abbrev pub read_turn : ActiveStream → Read → Server → Turn
read_turn stream failed s = stops s
read_turn stream ended s =
    stops (record s { controls = (send stream.client.tx (end_stream stream.id) s.controls).1 })
read_turn stream (bytes chunk) s =
    goes_on
      (forwarded stream.client (send stream.client.tx (stream_data stream.id chunk) s.controls) s)

abbrev pub registered_turn : Option ConnectedClient → ActiveStream → Read → Server → Turn
registered_turn none stream read s =
    stops (record s { pipes = close_channel stream.tx (send stream.tx no_client_tunnel s.pipes).1 })
registered_turn (some _) stream read s = read_turn stream read s

-- One turn of the loop of `process_tcp_stream`.
unfoldable pub process_tcp_stream : ActiveStream → Read → Server → Turn
process_tcp_stream stream read s = registered_turn (get stream.client.id s) stream read s

abbrev pub http_tunnel_refused_response : Text
http_tunnel_refused_response =
    codes "HTTP/1.1 500\r\nContent-Length: 32\r\n\r\nTunnel says: connection refused."

abbrev pub http_not_found_response : Text
http_not_found_response = codes "HTTP/1.1 404\r\nContent-Length: 23\r\n\r\nError: Tunnel Not Found"

-- The stream is over: its reader is dropped and it is no longer active.
abbrev pub finish_stream : ActiveStream → Server → Server
finish_stream stream s = record s {
  pipes = put stream.tx dropped s.pipes;
  active_streams = Table.remove stream.id s.active_streams;
}

-- The bytes that go to the user's socket, and the turn. `written` says whether the socket takes
-- the bytes; if not, the reader is dropped, and the stream stays active.
abbrev pub user_turn : ActiveStream → Bool → Received StreamMessage → Server → Option (Text × Turn)
user_turn stream written pending s = none
user_turn stream written finished s = some ([], stops (finish_stream stream s))
user_turn stream written (item tunnel_refused rest) s =
    some (http_tunnel_refused_response, stops (finish_stream stream s))
user_turn stream written (item no_client_tunnel rest) s =
    some (http_not_found_response, stops (finish_stream stream s))
user_turn stream true (item (payload chunk) rest) s =
    some (chunk, goes_on (record s { pipes = put stream.tx rest s.pipes }))
user_turn stream false (item (payload chunk) rest) s =
    some (chunk, stops (record s { pipes = put stream.tx dropped s.pipes }))

-- One turn of the loop of `neutun_stream`; `none` while there is no message.
unfoldable pub neutun_stream : ActiveStream → Bool → Server → Option (Text × Turn)
neutun_stream stream written s = user_turn stream written (next (s.pipes stream.tx)) s
