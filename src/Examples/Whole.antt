-- ===== src/Examples/Whole.antt =====
-- A run of the whole server: a client connects, is pinged, and its socket takes the ping.
use neutun.Base.{◌≡◌, refl, Text, [], ◌∷◌, none, some, true, false, map, ok, arith, codes, ap}
use neutun.Utf8.{encode_all, AllScalar, encode, chars}
use neutun.Codecs.{Codecs, plain_codecs}
use neutun.Server.{ConnectedClient, Server}
use neutun.Server.Config.{v4}
use neutun.Server.Invariant.{IsKeyed, IsStreamed}
use neutun.Protocol.{ControlPacket, ping}
use neutun.Protocol.Wire.{serialize, deserialize}
use neutun.Base.{Text-discrete}
use neutun.Table
use neutun.Str.{to_lowercase, is_alphanumeric}
use neutun.Channel.{put, unbounded, send, next}
use neutun.Server.Connections.{add, find_by_host}
use neutun.Auth.Service.{auth_sub_domain}
use neutun.Auth.SubDomain.{sanitize_sub_domain_and_pre_validate}
use neutun.Auth.Handshake.{
  Env, choose_domain, authenticate, auth_hello, auth_client, auth_client_handshake,
}
use neutun.Control.Open.{register, handle_new_connection}
use neutun.Control.Client.{after, goes_on}
use neutun.Control.Ping.{send_ping, reconnect_token}
use neutun.Control.Sink.{tunnel_client}
use neutun.System.{init, connects, pings, Reach, here, then}
use neutun.System.Sending.{TextTokens}
use neutun.System.Readable.{Reach-IsKeyed, tunnel_client-deserialize}
use neutun.Examples as Data
use neutun.Base.{Bool, ◌≢◌, ◌⊎◌}
use neutun.Str.{contains, split, ends_with}
use neutun.Server.{full_host}
use neutun.Server.Connections.{get, find_wildcard}
use neutun.Auth.SubDomain.{host_of}
use neutun.Remote.Host.{validate_host_prefix}
use neutun.Remote.Accept.{to_client, route}
use neutun.System.Routing.{Reach-route}
use neutun.Examples.{moment, config}

-- Every byte as a letter.
abbrev text_codecs : Codecs
text_codecs = record plain_codecs { base64_encode = map (λ _. b'A') }

abbrev env : Env
env = record Data.env { codecs = text_codecs }

letters-AllScalar : (t : Text) → AllScalar (map (λ _. b'A') t)
letters-AllScalar [] = tt
letters-AllScalar (_ ∷ t) = (ground arith, letters-AllScalar t)

letters-encode_all : (t : Text) → map (λ _. b'A') t ≡ encode_all (map (λ _. b'A') t)
unfolding encode_all encode
letters-encode_all [] = refl
letters-encode_all (_ ∷ t) = ap (λ r. b'A' ∷ r) (letters-encode_all t)

text_codecs-TextTokens : TextTokens text_codecs
text_codecs-TextTokens t = record {
  of = map (λ _. b'A') t;
  scalars = letters-AllScalar t;
  encodes = letters-encode_all t;
}

abbrev key_client : ConnectedClient
key_client = record {
  id = codes "id1";
  host = codes "app";
  domain = codes "t.io";
  is_anonymous = false;
  wildcard = false;
  tx = 0;
}

abbrev connected : Server
connected = (handle_new_connection env moment (v4 1) (some []) true 0 init).2

abbrev pinged : Server
pinged = after (send_ping env key_client 6 connected)

reached : Reach env init pinged
reached = then (then here (connects moment (v4 1) (some []) true 0 refl)) (pings key_client 6 refl)

Reach-IsKeyed_example : IsKeyed pinged × IsStreamed pinged
Reach-IsKeyed_example = Reach-IsKeyed env pinged text_codecs-TextTokens reached

abbrev message : Text
message = serialize (ping none)

abbrev rest : Server
rest = record pinged { controls = put 0 unbounded pinged.controls }

sent_run : tunnel_client key_client true pinged ≡ some (some message, goes_on rest)
unfolding tunnel_client next send_ping send handle_new_connection auth_client_handshake auth_client
    auth_hello authenticate choose_domain auth_sub_domain sanitize_sub_domain_and_pre_validate
    Text-discrete find_by_host to_lowercase chars is_alphanumeric Table.get register add
    reconnect_token
sent_run = refl

tunnel_client-deserialize_example :
    (p : ControlPacket) × (message ≡ serialize p) × (deserialize message ≡ ok p)
tunnel_client-deserialize_example =
    tunnel_client-deserialize env pinged key_client true message (goes_on rest)
      text_codecs-TextTokens reached sent_run

asked : route config (codes "app.t.io:80") pinged ≡ to_client key_client
unfolding route validate_host_prefix ends_with split find_by_host find_wildcard send_ping send
    handle_new_connection auth_client_handshake auth_client auth_hello authenticate choose_domain
    auth_sub_domain sanitize_sub_domain_and_pre_validate Text-discrete to_lowercase chars
    is_alphanumeric Table.get register add reconnect_token Table.insert full_host
asked = refl

Reach-route_example :
    (p : Text) × (d : Text) × (codes "app.t.io" ≡ host_of p d)
    × (contains (codes "t.io" ∷ []) d ≡ true)
    × (p ≢ codes "wormhole")
    × (((full_host key_client ≡ host_of p d)
          × (find_by_host (host_of p d) pinged ≡ some key_client))
        ⊎ ((find_by_host (host_of p d) pinged ≡ none)
            × (get (codes "id1") pinged ≡ some key_client)
            × (◌≡◌ {A = Bool} false true)
            × (codes "t.io" ≡ d)))
unfolding split
Reach-route_example =
    Reach-route env pinged (codes "app.t.io:80") key_client text_codecs-TextTokens reached asked
