-- ===== src/Control/Sink.antt =====
-- `tunnel_client`: packets from the client's channel to its socket.
pub mod Turns
use neutun.Base.{Text, Bool, true, false, Option, none, some}
use neutun.Channel.{Received, item, finished, pending, next, put, dropped}
use neutun.Protocol.{ControlPacket}
use neutun.Protocol.Wire.{serialize}
use neutun.Server.{ConnectedClient, Server}
use neutun.Server.Connections.{remove}
use neutun.Control.Client.{Turn, stops, goes_on}

-- The task ends and its receiver is dropped.
abbrev pub drop_queue : ConnectedClient → Server → Server
drop_queue client s = record s { controls = put client.tx dropped s.controls }

-- The bytes that go to the socket, and the turn; `none` while the channel is empty. `delivered`
-- says whether the socket takes them.
abbrev pub tunnel_received :
    ConnectedClient → Bool → Received ControlPacket → Server → Option (Option Text × Turn)
tunnel_received client delivered pending s = none
tunnel_received client delivered finished s = some (none, stops (drop_queue client s))
tunnel_received client true (item packet rest) s =
    some (some (serialize packet), goes_on (record s { controls = put client.tx rest s.controls }))
tunnel_received client false (item packet rest) s =
    some (some (serialize packet), stops (drop_queue client (remove client s)))

unfoldable pub tunnel_client : ConnectedClient → Bool → Server → Option (Option Text × Turn)
tunnel_client client delivered s = tunnel_received client delivered (next (s.controls client.tx)) s
