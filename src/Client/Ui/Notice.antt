-- ===== src/Client/Ui/Notice.antt =====
-- When a client is told to upgrade, at this server.
use neutun.Base.{Text, ◌==◌, if◌then◌else◌, ◌≡◌, ap, ◌∙◌, subst, Option, none, some, ok, arith}
use neutun.Str.{to_lowercase}
use neutun.Codecs.{Codecs}
use neutun.Protocol.{ReconnectToken}
use neutun.Protocol.Hello.{SecretKey, auth, generate}
use neutun.Server.{Server}
use neutun.Auth.Handshake.{Env, Moment, ClientHandshake, auth_hello}
use neutun.Auth.Handshake.Granted.{IsGranted, auth_hello-IsGranted}
use neutun.Client.Config.{Config}
use neutun.Client.Session.{client_hello}
use neutun.Client.Ui.{get_sub_domain_notice, upgrade_notice}

client_hello-auth :
    (k : Codecs) (random : Text) (config : Config) (token : Option ReconnectToken) (key : SecretKey)
    → config.secret_key ≡ some key
    → client_hello k random config token
      ≡ generate k random config.sub_domain config.domain (auth key) config.wildcard
unfolding client_hello
client_hello-auth k random config token key e = ground arith

granted_lowercase :
    (env : Env) (m : Moment) (random : Text) (config : Config) (key : SecretKey) (asked : Text)
    (s : Server) (h : ClientHandshake)
    → config.sub_domain ≡ some asked
    → auth_hello env m
        (generate env.codecs random config.sub_domain config.domain (auth key) config.wildcard)
        s
      ≡ ok h
    → h.sub_domain ≡ to_lowercase env.unicode asked
unfolding generate
granted_lowercase env m random config key asked s h e f =
    let hello =
      generate env.codecs random config.sub_domain config.domain (auth key) config.wildcard in
    let (domain, _, _, granted) = auth_hello-IsGranted env m hello s h f in
    let g =
      subst (λ o. IsGranted env m (auth key) o hello.reconnect_token config.wildcard domain s h) e
        granted in
    ap (λ x. x.sub_domain) g.given ∙ g.free.lowered

-- A client with a key that asks for a sub-domain and is let in is told to upgrade its plan for
-- custom sub-domains exactly if it spelled the sub-domain with a letter that has another lower-case
-- form: it has the sub-domain that it asked for in every case.
pub get_sub_domain_notice-auth_hello :
    (env : Env) (m : Moment) (random : Text) (config : Config) (token : Option ReconnectToken)
    (key : SecretKey) (asked : Text) (s : Server) (h : ClientHandshake)
    → config.secret_key ≡ some key
    → config.sub_domain ≡ some asked
    → auth_hello env m (client_hello env.codecs random config token) s ≡ ok h
    → (h.sub_domain ≡ to_lowercase env.unicode asked)
      × (get_sub_domain_notice config h.sub_domain
          ≡ (if asked == to_lowercase env.unicode asked then none else some upgrade_notice))
unfolding get_sub_domain_notice
get_sub_domain_notice-auth_hello env m random config token key asked s h e f g =
    let hello = client_hello-auth env.codecs random config token key e in
    let lowered = granted_lowercase env m random config key asked s h f (rw hello at g) in
    (lowered, ground (arith, lowered))
