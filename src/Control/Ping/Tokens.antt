-- ===== src/Control/Ping/Tokens.antt =====
-- The reconnect tokens that pings carry.
use neutun.Base.{
  ℕ, ◌+◌, ltb, if◌then◌else◌, ◌≡◌, true, some, ok, err, arith, Result-cases, inl, inr,
}
use neutun.Codecs.{CodecLaws}
use neutun.Protocol.{ReconnectToken}
use neutun.Server.{ConnectedClient}
use neutun.Auth.Token.{expired, verify, into_token}
use neutun.Auth.Token.Laws.{JsonLaws, verify-into_token}
use neutun.Auth.Handshake.{Env}
use neutun.Control.Ping.{token_life, payload_of, reconnect_token}

-- A ping carries a token only for an anonymous client, and the server accepts that token with the
-- client's id and host for two minutes; after that it is expired.
pub verify-reconnect_token :
    (env : Env) (client : ConnectedClient) (now later : ℕ) (tok : ReconnectToken)
    → CodecLaws env.codecs
    → JsonLaws env.token_json
    → reconnect_token env client now ≡ some tok
    → (client.is_anonymous ≡ true)
      × (verify env.codecs env.token_json tok env.config.master_sig_key later
          ≡ (if ltb (now + token_life) later then err expired else ok (payload_of client now)))
unfolding reconnect_token
verify-reconnect_token env client now later tok laws reads e =
    let key = env.config.master_sig_key in
    elim (Result-cases (into_token env.codecs env.token_json (payload_of client now) key)) [
      | inr (_, f) ↦ absurd (ground arith)
      | inl (t, f) ↦ (
        ground arith,
        ground (arith, verify-into_token laws reads (payload_of client now) key later t f),
      )
    ]
