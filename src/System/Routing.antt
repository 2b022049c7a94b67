-- ===== src/System/Routing.antt =====
-- Where end users are sent, in every state that the server can reach.
use neutun.Base.{Text, ◌≡◌, ◌≢◌, ◌⊎◌, true, none, some, codes}
use neutun.Str.{contains}
use neutun.Server.{ConnectedClient, full_host, Server}
use neutun.Server.Connections.{get, find_by_host}
use neutun.Auth.Handshake.{Env}
use neutun.Auth.SubDomain.{host_of}
use neutun.Remote.Accept.{to_client, host_no_port, route}
use neutun.Remote.Accept.Reaches.{route-to_client}
use neutun.System.{init, Reach}
use neutun.System.Sending.{TextTokens}
use neutun.System.Readable.{Reach-IsKeyed}

-- In every state that the server can reach from the empty one, a user who is sent to a client asked
-- for a host, port aside, of the form `p.d` with an allowed domain `d` and `p` other than
-- `wormhole`; the client is the one registered under that very host, or nobody is and it is a
-- registered wildcard client of `d`, provided base64 yields valid UTF-8.
pub Reach-route :
    (env : Env) (s : Server) (host : Text) (c : ConnectedClient)
    → TextTokens env.codecs
    → Reach env init s
    → route env.config host s ≡ to_client c
    → (p : Text) × (d : Text) × (host_no_port host ≡ host_of p d)
      × (contains env.config.allowed_hosts d ≡ true)
      × (p ≢ codes "wormhole")
      × (((full_host c ≡ host_of p d) × (find_by_host (host_of p d) s ≡ some c))
          ⊎ ((find_by_host (host_of p d) s ≡ none)
              × (get c.id s ≡ some c)
              × (c.wildcard ≡ true)
              × (c.domain ≡ d)))
Reach-route env s host c texts r e =
    route-to_client s (Reach-IsKeyed env s texts r).0 env.config host c e
