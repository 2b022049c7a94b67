-- ===== src/Client/Wormhole/Writing.antt =====
-- The task that writes to the websocket, from turn to turn.
use neutun.Base.{
  ℕ, zero, suc, ◌≤◌, Text, ◌≡◌, refl, ap, ◌∙◌, true, Bool, List, [], ◌∷◌, map, length, arith,
}
use neutun.Channel.{Sender, put, next}
use neutun.Protocol.{ControlPacket}
use neutun.Protocol.Wire.{serialize}
use neutun.Client.Tunnel.{Client}
use neutun.Client.Wormhole.{WriteTurn, waits, writes, restarts, write_packet}

after_write : WriteTurn → (Client → List Text) → List Text
after_write waits rest = []
after_write (writes message s) rest = message ∷ rest s
after_write (restarts e s) rest = []

-- The messages that are written while the websocket takes them, for so many turns at most.
unfoldable pub write_packets : ℕ → Sender → Client → List Text
unfolding after_write
write_packets zero tunnel_tx s = []
write_packets (suc turns) tunnel_tx s =
    after_write (write_packet tunnel_tx true s) (write_packets turns tunnel_tx)

write_packet-item :
    (tunnel_tx : Sender) (p : ControlPacket) (ps : List ControlPacket) (is_open : Bool) (s : Client)
    → s.tunnel tunnel_tx ≡ record { queue = p ∷ ps; is_open = is_open }
    → write_packet tunnel_tx true s
      ≡ writes
          (serialize p)
          (record s { tunnel = put tunnel_tx (record { queue = ps; is_open = is_open }) s.tunnel })
unfolding write_packet next
write_packet-item tunnel_tx p ps is_open s e = ground arith

write_packet-empty :
    (turns : ℕ) (tunnel_tx : Sender) (is_open : Bool) (s : Client)
    → s.tunnel tunnel_tx ≡ record { queue = []; is_open = is_open }
    → write_packets turns tunnel_tx s ≡ []
unfolding write_packets write_packet next
write_packet-empty zero tunnel_tx is_open s e = refl
write_packet-empty (suc turns) tunnel_tx is_open s e = ground arith

-- What waits in the tunnel is written in order, one message for each packet.
pub write_packets-serialize :
    (ps : List ControlPacket) (turns : ℕ) (tunnel_tx : Sender) (is_open : Bool) (s : Client)
    → length ps ≤ turns
    → s.tunnel tunnel_tx ≡ record { queue = ps; is_open = is_open }
    → write_packets turns tunnel_tx s ≡ map serialize ps
unfolding write_packets
write_packets-serialize [] turns tunnel_tx is_open s h e =
    write_packet-empty turns tunnel_tx is_open s e
write_packets-serialize (p ∷ ps) zero tunnel_tx is_open s h e = absurd (omega arith)
write_packets-serialize (p ∷ ps) (suc turns) tunnel_tx is_open s h e =
    let s' = record s {
      tunnel = put tunnel_tx (record { queue = ps; is_open = is_open }) s.tunnel;
    } in
    ap (λ t. after_write t (write_packets turns tunnel_tx))
      (write_packet-item tunnel_tx p ps is_open s e)
    ∙ ap (◌∷◌ (serialize p))
        (write_packets-serialize ps turns tunnel_tx is_open s' (omega arith) (ground arith))
