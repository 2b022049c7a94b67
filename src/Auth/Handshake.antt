-- ===== src/Auth/Handshake.antt =====
-- `auth_client` and `handle_reconnect_token` of neutun_server/src/auth/client_auth.rs. A failure is
-- the reply that is sent before the connection is dropped.
pub mod Granted
pub mod Reconnect
use neutun.Base.{
  ℕ, Text, if◌then◌else◌, Bool, true, false, not, ◌&&◌, Option, none, some, String, codes, List, [],
  ◌∷◌, Result, ok, err, ◌>>=◌,
}
use neutun.Codecs.{Codecs}
use neutun.Str.{Unicode, contains}
use neutun.Protocol.{ClientId, ReconnectToken}
use neutun.Protocol.Hello.{
  SecretKey, ServerHello, success, sub_domain_in_use, invalid_sub_domain, auth_failed, error,
  random_domain, ClientType, auth, anonymous, ClientHello, generate_client_id,
}
use neutun.Server.{Server}
use neutun.Server.Config.{Config}
use neutun.Server.Connections.{find_wildcard}
use neutun.Auth.Token.{TokenError, ReconnectTokenPayload, TokenJson, ok_or, verify}
use neutun.Auth.Service.{
  AuthResult, reserved_by_you, reserved_by_other, reserved_by_you_but_delinquent, payment_required,
  available, auth_sub_domain,
}
use neutun.Auth.SubDomain.{reject_if, is_other, sanitize_sub_domain_and_pre_validate}

-- What the handlers take from the configuration, from other crates and from Unicode's tables.
pub record Env : Type 0 where
  pub config : Config
  pub unicode : Unicode
  pub codecs : Codecs
  pub token_json : TokenJson
  pub hello_from_slice : Text → Option ClientHello

-- What the handlers take from the moment: the clock and random numbers.
pub record Moment : Type 0 where
  pub now : ℕ
  pub client_bytes : Text
  pub samples : Text

pub record ClientHandshake : Type 0 where
  pub id : ClientId
  pub sub_domain : Text
  pub domain : Text
  pub is_anonymous : Bool
  pub wildcard : Bool

first_host : List Text → Result Text ServerHello
first_host [] = err (error (codes "Server misconfigured"))
first_host (host ∷ _) = ok host

unfoldable pub choose_domain : Config → Option Text → Result Text ServerHello
unfolding first_host
choose_domain config (some d) =
    if contains config.allowed_hosts d then ok d else err invalid_sub_domain
choose_domain config none = first_host config.allowed_hosts

-- What the answer of the service means for the client.
abbrev pub grant : Result AuthResult (Unit {0}) → Result (Unit {0}) ServerHello
grant (ok available) = ok tt
grant (ok reserved_by_you) = ok tt
grant (ok reserved_by_you_but_delinquent) = err auth_failed
grant (ok payment_required) = err auth_failed
grant (ok reserved_by_other) = err sub_domain_in_use
grant (err _) = err auth_failed

abbrev pub token_payload :
    Result ReconnectTokenPayload TokenError → Result ReconnectTokenPayload ServerHello
token_payload (ok p) = ok p
token_payload (err _) = err auth_failed

module _ (env : Env) (m : Moment) where
  unfoldable pub handle_reconnect_token :
      ReconnectToken → Bool → Text → Server → Result ClientHandshake ServerHello
  handle_reconnect_token token wildcard domain s = do
    payload ← token_payload (verify env.codecs env.token_json token env.config.master_sig_key m.now)
    _ ←
        reject_if (wildcard && is_other (find_wildcard domain s) payload.client_id)
          sub_domain_in_use
    ok (record {
      id = payload.client_id;
      sub_domain = payload.sub_domain;
      domain = domain;
      is_anonymous = true;
      wildcard = wildcard;
    })

  -- The path of a requested or random sub-domain.
  unfoldable pub authenticate :
      SecretKey → Text → Bool → Text → Server → Result ClientHandshake ServerHello
  unfolding generate_client_id
  authenticate key requested wildcard domain s =
      let client_id = generate_client_id env.codecs m.client_bytes in
      do
        sub_domain ←
            sanitize_sub_domain_and_pre_validate env.config env.unicode requested domain client_id
              wildcard s
        _ ← grant (auth_sub_domain env.config key sub_domain s)
        ok (record {
          id = client_id;
          sub_domain = sub_domain;
          domain = domain;
          is_anonymous = false;
          wildcard = wildcard;
        })

  by_sub_domain :
      SecretKey
      → Option Text
      → Option ReconnectToken
      → Bool
      → Text
      → Server
      → Result ClientHandshake ServerHello
  by_sub_domain key (some requested) token wildcard domain s =
      authenticate key requested wildcard domain s
  by_sub_domain key none (some token) wildcard domain s =
      handle_reconnect_token token wildcard domain s
  by_sub_domain key none none wildcard domain s =
      authenticate key (random_domain m.samples) wildcard domain s

  by_client_type : ClientType → ClientHello → Text → Server → Result ClientHandshake ServerHello
  unfolding by_sub_domain
  by_client_type anonymous hello domain s = err auth_failed
  by_client_type (auth key) hello domain s =
      by_sub_domain key hello.sub_domain hello.reconnect_token hello.wildcard domain s

  -- From the parsed hello on.
  unfoldable pub auth_hello : ClientHello → Server → Result ClientHandshake ServerHello
  unfolding by_client_type
  auth_hello hello s = do
    domain ← choose_domain env.config hello.domain
    by_client_type hello.client_type hello domain s

  unfoldable pub auth_client : Text → Server → Result ClientHandshake ServerHello
  auth_client client_hello_data s = do
    hello ← ok_or (env.hello_from_slice client_hello_data) auth_failed
    auth_hello hello s

  -- The first message of the socket; without one there is no reply.
  unfoldable pub auth_client_handshake :
      Option Text → Server → Result ClientHandshake (Option ServerHello)
  auth_client_handshake none s = err none
  auth_client_handshake (some message) s = elim (auth_client message s) [
    | ok h ↦ ok h
    | err reply ↦ err (some reply)
  ]
