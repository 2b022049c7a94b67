-- ===== src/Auth/Handshake/Reconnect.antt =====
-- The hello that the client library builds from a reconnect token, at the server.
use neutun.Base.{Text, ◌≡◌, Bool, codes, List, [], ◌∷◌, err, arith}
use neutun.Protocol.{ReconnectToken}
use neutun.Protocol.Hello.{ServerHello, auth_failed, error, reconnect}
use neutun.Server.{Server}
use neutun.Auth.Handshake.{Env, Moment, choose_domain, auth_hello}

abbrev refusal_without_host : List Text → ServerHello
refusal_without_host [] = error (codes "Server misconfigured")
refusal_without_host (_ ∷ _) = auth_failed

-- Whatever token `ClientHello::reconnect` carries, valid or not, the server refuses the hello: it
-- names no client key, and a client without a key is refused before the token is looked at.
pub auth_hello-reconnect :
    (env : Env) (m : Moment) (random : Text) (token : ReconnectToken) (wildcard : Bool) (s : Server)
    → auth_hello env m (reconnect env.codecs random token wildcard) s
      ≡ err (refusal_without_host env.config.allowed_hosts)
unfolding auth_hello choose_domain reconnect
auth_hello-reconnect env m random token wildcard s = ground arith
