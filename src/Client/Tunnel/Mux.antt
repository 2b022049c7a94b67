-- ===== src/Client/Tunnel/Mux.antt =====
-- The turns of many local streams' tasks, in any order.
use neutun.Base.{◌≡◌, ◌≢◌, refl, sym, ap, ◌∙◌, true, some, List, [], ◌∷◌, ◌++◌, map, arith, All}
use mathlib.Core.List.{append_assoc, append-nil}
use neutun.Channel.{Sender}
use neutun.Protocol.{ControlPacket, stream_data}
use neutun.Protocol.Pieces.{Piece, packet}
use neutun.Client.Tunnel.{Client, LocalTurn, stops, goes_on, panics, process_local_tcp}
use neutun.Client.Tunnel.Local.{tunnelled, one_turn}

abbrev pub after_local : LocalTurn → Client
after_local (stops s) = s
after_local (goes_on s) = s
after_local (panics s) = s

-- Whose turn it is, and what the local service yields to it.
unfoldable pub local_turns : Sender → List Piece → Client → Client
local_turns tunnel_tx [] s = s
local_turns tunnel_tx ((sid, bytes) ∷ ps) s =
    local_turns tunnel_tx ps (after_local (process_local_tcp tunnel_tx sid (some bytes) s))

-- All that the local service answers on any stream waits in the tunnel in the order of the turns.
pub local_turns-packet :
    (tunnel_tx : Sender) (ps : List Piece) (qs : List ControlPacket) (s : Client)
    → All (λ p. p.1 ≢ []) ps
    → s.tunnel tunnel_tx ≡ record { queue = qs; is_open = true }
    → (local_turns tunnel_tx ps s).tunnel tunnel_tx
      ≡ record { queue = qs ++ map packet ps; is_open = true }
unfolding local_turns
local_turns-packet tunnel_tx [] qs s full waits =
    waits ∙ ap (λ q. record { queue = q; is_open = true }) (sym (append-nil qs))
local_turns-packet tunnel_tx ((sid, []) ∷ ps) qs s (full, rest) waits = absurd (full refl)
local_turns-packet tunnel_tx ((sid, b ∷ bytes) ∷ ps) qs s (full, rest) waits =
    let one = stream_data sid (b ∷ bytes) ∷ [] in
    ap (λ t. (local_turns tunnel_tx ps (after_local t)).tunnel tunnel_tx)
      (one_turn tunnel_tx sid b bytes s (ap (λ q. q.is_open) waits))
    ∙ local_turns-packet tunnel_tx ps (qs ++ one) (tunnelled tunnel_tx one s) rest
        (ground (arith, waits))
    ∙ ap (λ q. record { queue = q; is_open = true }) (append_assoc qs one (map packet ps))
