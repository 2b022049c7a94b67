-- ===== src/Auth/Handshake/Granted.antt =====
-- Who is let in: what a successful handshake implies.
use neutun.Base.{
  Text, ◌≡◌, inl, inr, Bool, true, false, ◌&&◌, Option, none, some, ok, arith, Result-cases,
}
use neutun.Str.{contains}
use neutun.Protocol.{ReconnectToken}
use neutun.Protocol.Hello.{SecretKey, ClientHello, ClientType, auth, anonymous, random_domain}
use neutun.Server.{Server}
use neutun.Server.Config.{Config}
use neutun.Server.Connections.{find_wildcard}
use neutun.Auth.Token.{ReconnectTokenPayload, verify}
use neutun.Auth.Token.Laws.{IsAccepted, verify-IsAccepted}
use neutun.Auth.Service.{wrong_key, auth_sub_domain}
use neutun.Auth.SubDomain.{is_other, sanitize_sub_domain_and_pre_validate}
use neutun.Auth.SubDomain.Free.{IsFree, IsUnclaimed, unclaimed_wildcard, sanitize-IsFree}
use neutun.Auth.Handshake.{
  Env, Moment, ClientHandshake, choose_domain, handle_reconnect_token, authenticate, auth_hello,
  by_client_type, by_sub_domain,
}

choose_domain-contains :
    (config : Config) (asked : Option Text) (d : Text)
    → choose_domain config asked ≡ ok d
    → contains config.allowed_hosts d ≡ true
unfolding choose_domain
choose_domain-contains config none d e = ground arith
choose_domain-contains config (some a) d e = ground arith

module _ (env : Env) (m : Moment) where
  abbrev fresh_id : Text
  fresh_id = env.codecs.base64_url_encode m.client_bytes

  -- A client with the right key, under a sub-domain that is free.
  pub record IsKeyGrant (key requested : Text) (wildcard : Bool) (domain : Text) (s : Server)
      (h : ClientHandshake) : Type 0 where
    pub sub : Text
    pub given : h ≡ (record {
      id = fresh_id;
      sub_domain = sub;
      domain = domain;
      is_anonymous = false;
      wildcard = wildcard;
    })
    pub right_key : wrong_key env.config.master_key key ≡ false
    pub free : IsFree env.config env.unicode requested sub domain fresh_id wildcard s

  -- A client with a token that this server signed and that has not expired.
  pub record IsTokenGrant (token : ReconnectToken) (wildcard : Bool) (domain : Text) (s : Server)
      (h : ClientHandshake) : Type 0 where
    pub payload : ReconnectTokenPayload
    pub accepted :
        IsAccepted env.codecs env.token_json token env.config.master_sig_key m.now payload
    pub given : h ≡ (record {
      id = payload.client_id;
      sub_domain = payload.sub_domain;
      domain = domain;
      is_anonymous = true;
      wildcard = wildcard;
    })
    pub unclaimed :
        IsUnclaimed domain payload.client_id wildcard s

  authenticate-IsKeyGrant :
      (key requested : Text) (wildcard : Bool) (domain : Text) (s : Server) (h : ClientHandshake)
      → authenticate env m key requested wildcard domain s ≡ ok h
      → IsKeyGrant key requested wildcard domain s h
  unfolding authenticate auth_sub_domain
  authenticate-IsKeyGrant key requested wildcard domain s h e =
      elim (Result-cases (
        sanitize_sub_domain_and_pre_validate env.config env.unicode requested domain fresh_id
          wildcard s)) [
            | inr (reply, f) ↦ absurd (ground arith)
            | inl (sub, f) ↦ record {
              sub = sub;
              given = ground arith;
              right_key = ground arith;
              free =
                  (sanitize-IsFree env.config env.unicode requested sub domain fresh_id wildcard
                      s).0
                    f;
            }
          ]

  handle_reconnect_token-IsTokenGrant :
      (token : ReconnectToken) (wildcard : Bool) (domain : Text) (s : Server) (h : ClientHandshake)
      → handle_reconnect_token env m token wildcard domain s ≡ ok h
      → IsTokenGrant token wildcard domain s h
  unfolding handle_reconnect_token
  handle_reconnect_token-IsTokenGrant token wildcard domain s h e =
      elim (Result-cases (verify env.codecs env.token_json token env.config.master_sig_key m.now)) [
        | inr (_, f) ↦ absurd (ground arith)
        | inl (p, f) ↦ record {
          payload = p;
          accepted =
              (verify-IsAccepted env.codecs env.token_json token env.config.master_sig_key m.now
                  p).0
                f;
          given = ground arith;
          unclaimed =
              (unclaimed_wildcard domain p.client_id wildcard s).0
                (ground arith);
        }
      ]

  -- The ways to be let in, by what the hello asks for.
  abbrev pub IsGranted :
      ClientType
      → Option Text
      → Option ReconnectToken
      → Bool
      → Text
      → Server
      → ClientHandshake
      → Type 0
  IsGranted anonymous asked token wildcard domain s h = ⊥
  IsGranted (auth key) (some asked) token wildcard domain s h =
      IsKeyGrant key asked wildcard domain s h
  IsGranted (auth key) none none wildcard domain s h =
      IsKeyGrant key (random_domain m.samples) wildcard domain s h
  IsGranted (auth key) none (some token) wildcard domain s h =
      IsTokenGrant token wildcard domain s h

  by_sub_domain-IsGranted :
      (key : SecretKey) (asked : Option Text) (token : Option ReconnectToken) (wildcard : Bool)
      (domain : Text) (s : Server) (h : ClientHandshake)
      → by_sub_domain env m key asked token wildcard domain s ≡ ok h
      → IsGranted (auth key) asked token wildcard domain s h
  unfolding by_sub_domain
  by_sub_domain-IsGranted key (some asked) token wildcard domain s h e =
      authenticate-IsKeyGrant key asked wildcard domain s h e
  by_sub_domain-IsGranted key none none wildcard domain s h e =
      authenticate-IsKeyGrant key (random_domain m.samples) wildcard domain s h e
  by_sub_domain-IsGranted key none (some token) wildcard domain s h e =
      handle_reconnect_token-IsTokenGrant token wildcard domain s h e

  by_client_type-IsGranted :
      (typ : ClientType) (hello : ClientHello) (domain : Text) (s : Server) (h : ClientHandshake)
      → by_client_type env m typ hello domain s ≡ ok h
      → IsGranted typ hello.sub_domain hello.reconnect_token hello.wildcard domain s h
  unfolding by_client_type
  by_client_type-IsGranted anonymous hello domain s h e = cc
  by_client_type-IsGranted (auth key) hello domain s h e =
      by_sub_domain-IsGranted key hello.sub_domain hello.reconnect_token hello.wildcard domain s h e

  pub auth_hello-IsGranted :
      (hello : ClientHello) (s : Server) (h : ClientHandshake)
      → auth_hello env m hello s ≡ ok h
      → (domain : Text) × (choose_domain env.config hello.domain ≡ ok domain)
        × (contains env.config.allowed_hosts domain ≡ true)
        × IsGranted hello.client_type hello.sub_domain hello.reconnect_token hello.wildcard domain s
            h
  unfolding auth_hello
  auth_hello-IsGranted hello s h e = elim (Result-cases (choose_domain env.config hello.domain)) [
    | inr (_, f) ↦ absurd (ground arith)
    | inl (domain, f) ↦ (
      domain,
      f,
      choose_domain-contains env.config hello.domain domain f,
      by_client_type-IsGranted hello.client_type hello domain s h (ground arith),
    )
  ]
