-- ===== src/Client/Tunnel/Refusal.antt =====
-- Data for a local service that cannot be reached.
use neutun.Base.{
  Text, if◌then◌else◌, ◌≡◌, Bool, true, false, none, [], ◌∷◌, ◌++◌, length, ok, arith, eqb,
}
use mathlib.Core.List.{append_assoc}
use neutun.Table
use neutun.Channel.{Sender, send}
use neutun.Protocol.{StreamId, stream_data, refused}
use neutun.Protocol.Wire.{serialize}
use neutun.Protocol.Wire.Laws.{deserialize-serialize}
use neutun.Client.Tunnel.{
  Client, Attempt, send_tunnel, setup_new_stream, process_control_flow_message,
}

-- A data packet of an unknown stream, when the local service refuses the connection, is answered
-- with two refusals of the stream, one from the set-up and one from the handler; no stream is
-- opened, and no other channel to the server changes.
pub process_control_flow_message-refused :
    (use_tls : Bool) (attempt : Attempt) (tx tunnel_tx n : Sender) (sid : StreamId) (bytes : Text)
    (s : Client)
    → length sid ≡ 8
    → Table.get sid s.active_streams ≡ none
    → attempt.tcp_connects ≡ false
    → (s.tunnel tunnel_tx).is_open ≡ true
    → let r =
        process_control_flow_message use_tls attempt tx tunnel_tx
          (serialize (stream_data sid bytes))
          s in
      (r ≡ (ok (stream_data sid bytes), record s { tunnel = r.1.tunnel }))
      × ((r.1.tunnel n).queue ≡ (
          if eqb tunnel_tx n
          then (s.tunnel n).queue ++ refused sid ∷ refused sid ∷ []
          else (s.tunnel n).queue))
unfolding process_control_flow_message setup_new_stream send_tunnel send
process_control_flow_message-refused use_tls attempt tx tunnel_tx n sid bytes s eight fresh down
      up =
    ground (
      arith,
      deserialize-serialize (stream_data sid bytes) eight,
      append_assoc (s.tunnel n).queue (refused sid ∷ []) (refused sid ∷ []),
    )
