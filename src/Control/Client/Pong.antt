-- ===== src/Control/Client/Pong.antt =====
-- A pong that arrives after its client was removed.
use neutun.Base.{◌≡◌, false, none, some, arith}
use neutun.Channel.{send, close_channel}
use neutun.Protocol.{ControlPacket, ping}
use neutun.Protocol.Wire.{serialize}
use neutun.Protocol.Wire.Laws.{deserialize-serialize}
use neutun.Server.{ConnectedClient, full_host, Server}
use neutun.Server.Connections.{add, remove, get, find_by_host}
use neutun.Server.Connections.Lookup.{lookup-add}
use neutun.Control.Client.{
  binary, goes_on, after, handle_message, handle_packet, process_client_message,
}

pong_adds :
    (c : ConnectedClient) (s : Server)
    → process_client_message c (binary (serialize (ping none))) s ≡ goes_on (add c s)
unfolding process_client_message handle_message handle_packet serialize
pong_adds c s = ground (arith, deserialize-serialize (ping none) tt)

controls-add-remove :
    (c : ConnectedClient) (s : Server) → ((add c (remove c s)).controls c.tx).is_open ≡ false
unfolding add remove close_channel
controls-add-remove c s = ground arith

-- A pong registers its client again even after the client was removed, under its id and under its
-- host, whoever has the host now; but its channel stays closed, so nothing can be sent to it.
pub process_client_message-pong :
    (c : ConnectedClient) (s : Server) (p : ControlPacket)
    → let s' = after (process_client_message c (binary (serialize (ping none))) (remove c s)) in
      (get c.id s' ≡ some c)
      × (find_by_host (full_host c) s' ≡ some c)
      × ((send c.tx p s'.controls).0 ≡ false)
unfolding send
process_client_message-pong c s p =
    let (by_id, by_host) = lookup-add c (remove c s) c.id (full_host c) in
    (
      ground (arith, pong_adds c (remove c s), by_id),
      ground (arith, pong_adds c (remove c s), by_host),
      ground (arith, pong_adds c (remove c s), controls-add-remove c s),
    )
