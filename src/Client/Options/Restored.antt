-- ===== src/Client/Options/Restored.antt =====
-- A session that is saved from a running tunnel and restored.
use neutun.Base.{
  ℕ, Text, ◌≡◌, refl, sym, ap, ◌∙◌, Bool, true, false, not, Option, none, some, codes, ◌++◌, ok,
  arith,
}
use neutun.Codecs.{Codecs}
use neutun.Server.Config.{unwrap_or, or_else}
use neutun.Client.Config.{Config}
use neutun.Client.Saved.{NeutunConfig, default, SessionConfig, Files, SavedJson, load_config}
use neutun.Client.Options.{
  Opts, control_url_of, from_opts_and_session, last_session, resolved, with_address, from_saved,
  local_host_of,
}

not-not : (b : Bool) → not (not b) ≡ b
not-not true = refl
not-not false = refl

with_address-resolved :
    (k : Codecs) (resolve : Text → ℕ → Option Text) (random : Text) (addr : Option Text)
    (opts : Opts) (session : Option SessionConfig) (saved : NeutunConfig) (port : ℕ) (c : Config)
    → with_address k resolve random addr opts session saved port ≡ ok c
    → (a : Text) × (resolved k resolve random opts session saved port a ≡ c)
unfolding with_address
with_address-resolved k resolve random none opts session saved port c e = absurd (ground arith)
with_address-resolved k resolve random (some a) opts session saved port c e = (a, ground arith)

with_address-name :
    (k : Codecs) (resolve : Text → ℕ → Option Text) (random : Text) (addr : Option Text)
    (opts : Opts) (s : SessionConfig) (name : Text) (saved : NeutunConfig) (port : ℕ)
    → with_address k resolve random addr opts (some (record s { name = name })) saved port
      ≡ with_address k resolve random addr opts (some s) saved port
unfolding with_address
with_address-name k resolve random none opts s name saved port = refl
with_address-name k resolve random (some a) opts s name saved port = refl

-- The name of a session is not used.
pub from_opts_and_session-name :
    (k : Codecs) (resolve : Text → ℕ → Option Text) (random : Text) (j : SavedJson) (opts : Opts)
    (f : Files) (s : SessionConfig) (name : Text)
    → from_opts_and_session k resolve random j opts (some (record s { name = name })) f
      ≡ from_opts_and_session k resolve random j opts (some s) f
unfolding from_opts_and_session from_saved
from_opts_and_session-name k resolve random j opts f s name =
    let saved = unwrap_or (load_config j f) default in
    let port = unwrap_or opts.port s.port in
    with_address-name k resolve random (resolve (local_host_of opts (some s)) port) opts s name
      saved port

-- A tunnel that is restored from its saved session has the local port, the sub-domain and the TLS
-- setting of the control server that it had, if no option sets them, but not its control server: it
-- connects to port 0 of the default control host, whatever server and port are configured.
pub from_opts_and_session-last_session :
    (k : Codecs) (resolve : Text → ℕ → Option Text) (random : Text) (j : SavedJson) (opts : Opts)
    (f : Files) (config c : Config)
    → opts.port ≡ none
    → opts.sub_domain ≡ none
    → from_opts_and_session k resolve random j opts (some (last_session config)) f ≡ ok c
    → (c.local_port ≡ config.local_port)
      × (c.sub_domain ≡ config.sub_domain)
      × (c.control_tls_off ≡ config.control_tls_off)
      × (c.control_url
          ≡ control_url_of config.control_tls_off
              (codes "wormhole." ++ (unwrap_or (load_config j f) default).host)
              0)
unfolding from_opts_and_session last_session from_saved
from_opts_and_session-last_session k resolve random j opts f config c p s e =
    let saved = unwrap_or (load_config j f) default in
    let session = last_session config in
    let port = unwrap_or opts.port config.local_port in
    let (a, q) =
      with_address-resolved k resolve random (resolve (local_host_of opts (some session)) port) opts
        (some session) saved port c e in
    let tls = not-not config.control_tls_off in
    (
      ap (λ x. x.local_port) (sym q) ∙ ap (λ o. unwrap_or o config.local_port) p,
      ap (λ x. x.sub_domain) (sym q) ∙ ap (λ o. or_else o config.sub_domain) s,
      ap (λ x. x.control_tls_off) (sym q) ∙ tls,
      ap (λ x. x.control_url) (sym q)
          ∙ ap (λ b. control_url_of b (codes "wormhole." ++ saved.host) 0) tls,
    )
