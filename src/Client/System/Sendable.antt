-- ===== src/Client/System/Sendable.antt =====
-- What holds in every state that the client can reach.
use neutun.Base.{Text, ◌≡◌, refl, subst, ap, ◌∙◌, Bool, true, false, ok, arith, All, length}
use neutun.Table
use neutun.Channel.{next, next-item, Received, item, finished, pending, Sender}
use neutun.Protocol.{ControlPacket}
use neutun.Protocol.Wire.{serialize, deserialize}
use neutun.Protocol.Wire.Laws.{IsWellFormed, deserialize-serialize}
use neutun.Client.Tunnel.{Client}
use neutun.Client.Wormhole.{WriteTurn, waits, writes, restarts, write_packet, write_received}
use neutun.Client.System.{init, Reach, here, then}
use neutun.Client.System.Edits.{Inv, IsSendable, Edits-Inv}
use neutun.Client.System.Refines.{Step-Edits}

Reach-Inv : (s : Client) → Reach init s → Inv s
Reach-Inv _ here = record { sendable = λ _. tt; by_stream_id = tt; unique_streams = tt }
Reach-Inv u (then {t} r step) = Edits-Inv (Step-Edits t u step) (Reach-Inv t r)

-- What is written can be read back.
abbrev pub IsRead : WriteTurn → Type 0
IsRead waits = Unit {0}
IsRead (restarts e s) = Unit {0}
IsRead (writes message s) =
    (p : ControlPacket) × (message ≡ serialize p) × (deserialize message ≡ ok p)

write_received-IsRead :
    (tunnel_tx : Sender) (taken : Bool) (r : Received ControlPacket) (s : Client)
    → IsSendable s
    → next (s.tunnel tunnel_tx) ≡ r
    → IsRead (write_received tunnel_tx taken r s)
unfolding write_received
write_received-IsRead tunnel_tx taken pending s h q = tt
write_received-IsRead tunnel_tx taken finished s h q = tt
write_received-IsRead tunnel_tx true (item p rest) s h q =
    let waiting = (next-item (s.tunnel tunnel_tx) p rest q).0 in
    (p, refl, deserialize-serialize p (subst (All IsWellFormed) waiting (h tunnel_tx)).0)
write_received-IsRead tunnel_tx false (item p rest) s h q = tt

-- In every state that the client can reach from the empty one, by the turns of its tasks and of the
-- dashboard in any order and whatever the server and the local service send: the active streams
-- have ids of eight bytes and one entry for each; and if the writing task of any connection takes a
-- turn there and writes a message to the websocket, that is the serialization of a packet that
-- `deserialize` reads back as that packet.
pub write_packet-deserialize :
    (s : Client) (tunnel_tx : Sender) (taken : Bool)
    → Reach init s
    → Table.All (λ k _. length k ≡ 8) s.active_streams
      × Table.IsUnique s.active_streams
      × IsRead (write_packet tunnel_tx taken s)
unfolding write_packet
write_packet-deserialize s tunnel_tx taken r =
    let i = Reach-Inv s r in
    (
      i.by_stream_id,
      i.unique_streams,
      write_received-IsRead tunnel_tx taken (next (s.tunnel tunnel_tx)) s i.sendable refl,
    )
