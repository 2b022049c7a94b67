-- ===== src/System/Readable.antt =====
-- What holds in every state that the server can reach.
use neutun.Base.{Text, ◌≡◌, refl, subst, ap, ◌∙◌, Bool, true, false, some, ok, arith, All}
use neutun.Channel.{next, next-item, Received, item, finished, pending}
use neutun.Protocol.{ControlPacket}
use neutun.Protocol.Wire.{serialize, deserialize}
use neutun.Protocol.Wire.Laws.{IsWellFormed, deserialize-serialize}
use neutun.Server.{ConnectedClient, Server}
use neutun.Server.Invariant.{IsKeyed, IsStreamed}
use neutun.Auth.Handshake.{Env}
use neutun.Control.Client.{Turn}
use neutun.Control.Sink.{tunnel_client, tunnel_received}
use neutun.System.{init, Reach, here, then}
use neutun.System.Edits.{Inv, IsReadable, Edits-Inv}
use neutun.System.Sending.{TextTokens}
use neutun.System.Refines.{Step-Edits}

init-Inv : Inv init
init-Inv = record {
  keyed = record { by_id = tt; by_host = tt; unique_ids = tt; unique_hosts = tt };
  readable = λ _. tt;
  streamed = record { by_stream_id = tt; unique_streams = tt };
}

Reach-Inv : (env : Env) (s : Server) → TextTokens env.codecs → Reach env init s → Inv s
Reach-Inv env _ texts here = init-Inv
Reach-Inv env u texts (then {t} r step) =
    Edits-Inv (Step-Edits env t u texts step) (Reach-Inv env t texts r)

-- In every state that the server can reach from the empty one, each entry of the client table is
-- under the client's own id, each entry of the host table is under the full host of its client,
-- each active stream is under its own id, of eight bytes, and no id and no host has two entries,
-- provided base64 yields valid UTF-8.
pub Reach-IsKeyed :
    (env : Env) (s : Server) → TextTokens env.codecs → Reach env init s → IsKeyed s × IsStreamed s
Reach-IsKeyed env s texts r = let i = Reach-Inv env s texts r in (i.keyed, i.streamed)

-- What goes to a socket is the oldest packet of the queue.
tunnel_received-serialize :
    (c : ConnectedClient) (delivered : Bool) (r : Received ControlPacket) (s : Server)
    (message : Text) (t : Turn)
    → IsReadable s
    → next (s.controls c.tx) ≡ r
    → tunnel_received c delivered r s ≡ some (some message, t)
    → (p : ControlPacket) × IsWellFormed p × (message ≡ serialize p)
tunnel_received-serialize c delivered pending s message t h q e = absurd (ground arith)
tunnel_received-serialize c delivered finished s message t h q e = absurd (ground arith)
tunnel_received-serialize c true (item p rest) s message t h q e = (
  p,
  (subst (All IsWellFormed) (next-item (s.controls c.tx) p rest q).0 (h c.tx)).0,
  ground arith,
)
tunnel_received-serialize c false (item p rest) s message t h q e = (
  p,
  (subst (All IsWellFormed) (next-item (s.controls c.tx) p rest q).0 (h c.tx)).0,
  ground arith,
)

-- In every state that the server can reach from the empty one, whatever a tunnel task takes from its
-- queue and writes to the client's socket is the serialization of a packet that `deserialize` reads
-- back as that packet, provided base64 yields valid UTF-8.
pub tunnel_client-deserialize :
    (env : Env) (s : Server) (c : ConnectedClient) (delivered : Bool) (message : Text) (t : Turn)
    → TextTokens env.codecs
    → Reach env init s
    → tunnel_client c delivered s ≡ some (some message, t)
    → (p : ControlPacket) × (message ≡ serialize p) × (deserialize message ≡ ok p)
unfolding tunnel_client
tunnel_client-deserialize env s c delivered message t texts r e =
    let (p, w, q) =
      tunnel_received-serialize c delivered (next (s.controls c.tx)) s message t
        (Reach-Inv env s texts r).readable refl e in
    (p, q, ap deserialize q ∙ deserialize-serialize p w)
