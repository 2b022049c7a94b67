-- ===== src/Examples/Access.antt =====
-- Who is let in, at concrete hellos.
use neutun.Base.{◌≡◌, ◌↔◌, refl, Text-discrete, true, false, some, codes, ◌∷◌, ◌++◌, ok}
use neutun.Codecs.{plain_codecs, plain_codecs-CodecLaws}
use neutun.Protocol.{ReconnectToken}
use neutun.Table
use neutun.Server.{full_host}
use neutun.Server.Invariant.{IsKeyed}
use neutun.Auth.Key.{sign}
use neutun.Auth.Token.{into_token, verify}
use neutun.Auth.Token.Laws.{IsAccepted, verify-IsAccepted}
use neutun.Auth.Handshake.{ClientHandshake}
use neutun.Control.Ping.{reconnect_token, payload_of}
use neutun.Control.Ping.Tokens.{verify-reconnect_token}
use neutun.Examples.{json, json-JsonLaws, payload, env, server, old_client}

-- The token of the payload under the configured key.
abbrev token : ReconnectToken
token = let p = 10 ∷ 3 ∷ codes "app" ++ codes "id0" in 8 ∷ p ++ codes "sig" ++ p

verify-IsAccepted_example :
    (verify plain_codecs json token (codes "sig") 5 ≡ ok payload)
    ↔ IsAccepted plain_codecs json token (codes "sig") 5 payload
verify-IsAccepted_example = verify-IsAccepted plain_codecs json token (codes "sig") 5 payload

old_token :
    reconnect_token env old_client 5
    ≡ some (
        8 ∷ (120000000005 ∷ 3 ∷ codes "appid0") ++ codes "sig" ++ 120000000005 ∷ 3 ∷ codes "appid0")
unfolding reconnect_token into_token sign payload_of
old_token = refl

verify-reconnect_token_example :
    (old_client.is_anonymous ≡ true)
    × (verify plain_codecs json
          (8 ∷ (120000000005 ∷ 3 ∷ codes "appid0")
            ++ codes "sig"
            ++ 120000000005 ∷ 3 ∷ codes "appid0")
          (codes "sig")
          6
        ≡ ok (payload_of old_client 5))
verify-reconnect_token_example =
    verify-reconnect_token env old_client 5 6 _ plain_codecs-CodecLaws json-JsonLaws old_token

abbrev handshake : ClientHandshake
handshake = record {
  id = codes "id1";
  sub_domain = codes "app";
  domain = codes "t.io";
  is_anonymous = false;
  wildcard = false;
}

pub server-IsKeyed : IsKeyed server
unfolding full_host Table.get Text-discrete
server-IsKeyed = record {
  by_id = (refl, (refl, tt));
  by_host = (refl, (refl, tt));
  unique_ids = (refl, (refl, tt));
  unique_hosts = (refl, (refl, tt));
}
