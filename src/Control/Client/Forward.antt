-- ===== src/Control/Client/Forward.antt =====
-- A data packet of a client reaches the end user's stream.
pub mod All
pub mod Demux
use neutun.Base.{Text, if◌then◌else◌, ◌≡◌, refl, true, some, [], ◌∷◌, ◌++◌, length, arith, eqb}
use neutun.Table
use neutun.Channel.{Sender, send}
use neutun.Protocol.{StreamId, ControlPacket, stream_data}
use neutun.Protocol.Wire.{serialize, deserialize}
use neutun.Protocol.Wire.Laws.{deserialize-serialize}
use neutun.Server.{ConnectedClient, ActiveStream, payload, Server}
use neutun.Control.Client.{
  binary, goes_on, after, handle_message, handle_packet, process_client_message,
}

handle_message-serialize :
    (client : ConnectedClient) (p : ControlPacket) (s : Server)
    → handle_message client (serialize p) s
      ≡ goes_on (handle_packet client (deserialize (serialize p)) s)
unfolding handle_message serialize
handle_message-serialize client (stream_data sid bytes) s = refl
handle_message-serialize client _ s = refl

module _ (client : ConnectedClient) (s : Server) (sid : StreamId) (bytes : Text)
    (stream : ActiveStream) (n : Sender) where
  -- The bytes that a client sends for a data packet of a known stream, whichever client the stream
  -- was opened for, are appended to the queue of the stream if its reader is there, and nothing
  -- else changes: no other queue, no registration, and the task goes on.
  pub process_client_message-stream_data :
      length sid ≡ 8
      → Table.get sid s.active_streams ≡ some stream
      → (s.pipes stream.tx).is_open ≡ true
      → let t = process_client_message client (binary (serialize (stream_data sid bytes))) s in
        (t ≡ goes_on (record s { pipes = (after t).pipes }))
        × (((after t).pipes n).queue ≡ (
            if eqb stream.tx n then (s.pipes n).queue ++ payload bytes ∷ [] else (s.pipes n).queue))
  unfolding process_client_message handle_packet send
  process_client_message-stream_data eight known reads = ground (
    arith,
    handle_message-serialize client (stream_data sid bytes) s,
    deserialize-serialize (stream_data sid bytes) eight,
  )
