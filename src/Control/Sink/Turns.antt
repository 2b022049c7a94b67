-- ===== src/Control/Sink/Turns.antt =====
-- The loop of `tunnel_client`, from turn to turn.
use neutun.Base.{
  ℕ, zero, suc, ◌≤◌, Text, ◌≡◌, refl, ap, ◌∙◌, true, Option, none, some, List, [], ◌∷◌, map, length,
  arith,
}
use mathlib.Core.Path.{fun_ext}
use neutun.Channel.{put, next}
use neutun.Protocol.{ControlPacket}
use neutun.Protocol.Wire.{serialize}
use neutun.Server.{ConnectedClient, Server}
use neutun.Control.Client.{Turn, stops, goes_on}
use neutun.Control.Sink.{tunnel_client}

after_turn :
    Server → Option (Option Text × Turn) → (Server → List Text × Server) → List Text × Server
after_turn s none rest = ([], s)
after_turn s (some (none, goes_on s')) rest = rest s'
after_turn s (some (some message, goes_on s')) rest =
    let (messages, t) = rest s' in (message ∷ messages, t)
after_turn s (some (none, stops s')) rest = ([], s')
after_turn s (some (some message, stops s')) rest = ([], s')

-- The messages that the client's socket takes, for so many turns at most or until none waits, and
-- the state behind them.
unfoldable pub tunnel_client_all : ℕ → ConnectedClient → Server → List Text × Server
unfolding after_turn
tunnel_client_all zero client s = ([], s)
tunnel_client_all (suc turns) client s =
    after_turn s (tunnel_client client true s) (tunnel_client_all turns client)

module _ (client : ConnectedClient) where
  abbrev pub left : List ControlPacket → Server → Server
  left ps s = record s {
    controls = put client.tx (record { queue = ps; is_open = true }) s.controls;
  }

  tunnel_client-item :
      (p : ControlPacket) (ps : List ControlPacket) (s : Server)
      → s.controls client.tx ≡ record { queue = p ∷ ps; is_open = true }
      → tunnel_client client true s ≡ some (some (serialize p), goes_on (left ps s))
  unfolding tunnel_client next
  tunnel_client-item p ps s e = ground arith

  tunnel_client-empty :
      (turns : ℕ) (s : Server)
      → s.controls client.tx ≡ record { queue = []; is_open = true }
      → tunnel_client_all turns client s ≡ ([], s)
  unfolding tunnel_client_all tunnel_client next
  tunnel_client-empty zero s e = refl
  tunnel_client-empty (suc turns) s e = ground arith

  put_self :
      (ps : List ControlPacket) (s : Server)
      → s.controls client.tx ≡ record { queue = ps; is_open = true }
      → s ≡ left ps s
  put_self ps s e = ap (λ cs. record s { controls = cs }) (fun_ext λ n. ground arith)

  left-left : (ps qs : List ControlPacket) (s : Server) → left qs (left ps s) ≡ left qs s
  left-left ps qs s = ap (λ cs. record s { controls = cs }) (fun_ext λ n. ground arith)

  -- What waits for the client is sent in order, and nothing is left of it.
  pub tunnel_client_all-serialize :
      (ps : List ControlPacket) (turns : ℕ) (s : Server)
      → length ps ≤ turns
      → s.controls client.tx ≡ record { queue = ps; is_open = true }
      → tunnel_client_all turns client s ≡ (map serialize ps, left [] s)
  unfolding tunnel_client_all
  tunnel_client_all-serialize [] turns s h e =
      tunnel_client-empty turns s e ∙ ap (λ t. ([], t)) (put_self [] s e)
  tunnel_client_all-serialize (p ∷ ps) zero s h e = absurd (omega arith)
  tunnel_client_all-serialize (p ∷ ps) (suc turns) s h e =
      ap (λ t. after_turn s t (tunnel_client_all turns client)) (tunnel_client-item p ps s e)
      ∙ ap (λ r. (serialize p ∷ r.0, r.1))
          (tunnel_client_all-serialize ps turns (left ps s) (omega arith) (ground arith)
            ∙ ap (λ t. (map serialize ps, t)) (left-left ps [] s))
