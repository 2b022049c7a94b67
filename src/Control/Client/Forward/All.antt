-- ===== src/Control/Client/Forward/All.antt =====
-- The data packets of a client, one after the other.
use neutun.Base.{Text, ◌≡◌, refl, ap, ◌∙◌, true, some, List, [], ◌∷◌, ◌++◌, map, length, arith}
use mathlib.Core.List.{append_assoc, append-nil}
use neutun.Table
use neutun.Channel.{put, send}
use neutun.Protocol.{StreamId, stream_data}
use neutun.Protocol.Wire.{serialize}
use neutun.Protocol.Wire.Laws.{deserialize-serialize}
use neutun.Server.{ConnectedClient, ActiveStream, StreamMessage, payload, Server}
use neutun.Control.Client.{binary, stops, goes_on, handle_packet, process_client_message}
use neutun.Control.Client.Forward.{handle_message-serialize}

-- The loop of `process_client_messages` over some binary messages.
unfoldable pub process_client_messages : ConnectedClient → List Text → Server → Server
process_client_messages client [] s = s
process_client_messages client (m ∷ ms) s = elim (process_client_message client (binary m) s) [
  | stops s' ↦ s'
  | goes_on s' ↦ process_client_messages client ms s'
]

-- The state with more messages in the stream's channel.
abbrev pub piped : ActiveStream → List StreamMessage → Server → Server
piped stream ms s =
    let c = s.pipes stream.tx in
    record s { pipes = put stream.tx (record c { queue = c.queue ++ ms }) s.pipes }

module _ (client : ConnectedClient) (sid : StreamId) (stream : ActiveStream)
    (eight : length sid ≡ 8) where
  pub one_turn :
      (bytes : Text) (s : Server)
      → Table.get sid s.active_streams ≡ some stream
      → (s.pipes stream.tx).is_open ≡ true
      → process_client_message client (binary (serialize (stream_data sid bytes))) s
        ≡ goes_on (piped stream (payload bytes ∷ []) s)
  unfolding process_client_message handle_packet send
  one_turn bytes s known reads = ground (
    arith,
    handle_message-serialize client (stream_data sid bytes) s,
    deserialize-serialize (stream_data sid bytes) eight,
  )

  pub messages-goes_on :
      (m : Text) (ms : List Text) (s s' : Server)
      → process_client_message client (binary m) s ≡ goes_on s'
      → process_client_messages client (m ∷ ms) s ≡ process_client_messages client ms s'
  unfolding process_client_messages
  messages-goes_on m ms s s' e = rw (e, process_client_messages) refl

  pub process_client_messages-stream_data :
      (chunks : List Text) (s : Server)
      → Table.get sid s.active_streams ≡ some stream
      → (s.pipes stream.tx).is_open ≡ true
      → let s' = process_client_messages client (map serialize (map (stream_data sid) chunks)) s in
        s'.pipes stream.tx
        ≡ record { queue = (s.pipes stream.tx).queue ++ map payload chunks; is_open = true }
  unfolding process_client_messages
  process_client_messages-stream_data [] s known reads =
      ground (arith, append-nil (s.pipes stream.tx).queue)
  process_client_messages-stream_data (chunk ∷ chunks) s known reads =
      let s' = piped stream (payload chunk ∷ []) s in
      let rest = process_client_messages-stream_data chunks s' known (ground (arith, reads)) in
      ap (λ t. t.pipes stream.tx)
        (messages-goes_on (serialize (stream_data sid chunk))
          (map serialize (map (stream_data sid) chunks)) s s' (one_turn chunk s known reads))
      ∙ rest
      ∙ ground
          (arith, append_assoc (s.pipes stream.tx).queue (payload chunk ∷ []) (map payload chunks))
