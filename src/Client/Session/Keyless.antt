-- ===== src/Client/Session/Keyless.antt =====
-- A client without a key, at this server.
use neutun.Base.{
  Text, ◌≡◌, Option, none, some, Result, ok, err, arith, Result-cases, inl, inr, refl,
}
use neutun.Protocol.{ReconnectToken}
use neutun.Protocol.Hello.{ClientHello, ServerHello, auth_failed, generate, reconnect, anonymous}
use neutun.Codecs.{Codecs}
use neutun.Server.{Server}
use neutun.Server.Config.{Config as ServerConfig}
use neutun.Auth.Handshake.{Env, Moment, choose_domain, auth_hello}
use neutun.Client.Config.{Config, Error}
use neutun.Client.Session.{client_hello, server_reply, run_tunnel, stop, returned}

abbrev pub dropped_reply : Result (Text × Text) Error → Result (Unit {0}) Error
dropped_reply (ok _) = ok tt
dropped_reply (err e) = err e

abbrev EndsClient : ServerHello → Type 0
EndsClient reply = run_tunnel (returned (dropped_reply (server_reply reply))) ≡ stop

choose_domain-EndsClient :
    (config : ServerConfig) (asked : Option Text) (reply : ServerHello)
    → choose_domain config asked ≡ err reply
    → EndsClient reply
unfolding choose_domain run_tunnel server_reply
choose_domain-EndsClient config (some d) reply e = ground arith
choose_domain-EndsClient config none reply e = ground arith

auth_hello-anonymous :
    (env : Env) (m : Moment) (hello : ClientHello) (s : Server)
    → hello.client_type ≡ anonymous
    → (reply : ServerHello) × (auth_hello env m hello s ≡ err reply) × EndsClient reply
unfolding auth_hello run_tunnel server_reply
auth_hello-anonymous env m hello s e = elim (Result-cases (choose_domain env.config hello.domain)) [
  | inl (d, f) ↦ (auth_failed, ground arith, refl)
  | inr (reply, f) ↦ (reply, ground arith, choose_domain-EndsClient env.config hello.domain reply f)
]

client_hello-anonymous :
    (k : Codecs) (random : Text) (config : Config) (token : Option ReconnectToken)
    → config.secret_key ≡ none
    → (client_hello k random config token).client_type ≡ anonymous
unfolding client_hello generate reconnect
client_hello-anonymous k random config none e = ground arith
client_hello-anonymous k random config (some token) e = ground arith

-- A client without a key, with or without a reconnect token, is refused by the server, and the
-- reply ends the client's program: it never tries again.
pub run_tunnel-keyless :
    (env : Env) (m : Moment) (random : Text) (config : Config) (token : Option ReconnectToken)
    (s : Server)
    → config.secret_key ≡ none
    → (reply : ServerHello) × (auth_hello env m (client_hello env.codecs random config token) s
        ≡ err reply)
      × (run_tunnel (returned (dropped_reply (server_reply reply))) ≡ stop)
run_tunnel-keyless env m random config token s keyless =
    auth_hello-anonymous env m (client_hello env.codecs random config token) s
      (client_hello-anonymous env.codecs random config token keyless)
