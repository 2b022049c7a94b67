-- ===== src/Client/Options.antt =====
-- `Config::from_opts_and_session` of neutun/src/config.rs, and what neutun/src/main.rs builds a
-- configuration and a session from.
pub mod Restored
use neutun.Base.{
  ℕ, Text, ◌==◌, eqb, if◌then◌else◌, Bool, true, false, not, ◌||◌, Option, none, some, String,
  codes, ◌++◌, Result, ok, err,
}
use neutun.Codecs.{Codecs}
use neutun.Str.Numbers.{show}
use neutun.Protocol.Hello.{SecretKey, generate_client_id}
use neutun.Server.Config.{or_else, unwrap_or}
use neutun.Client.Config.{Config}
use neutun.Client.Saved.{
  NeutunConfig, default, effective_ctrl_host, SessionConfig, Files, SavedJson, load_config,
}

-- `Opts`, without the subcommand and the flags that `main` reads.
pub record Opts : Type 0 where
  pub key : Option Text
  pub sub_domain : Option Text
  pub domain : Option Text
  pub local_host : Text  -- `localhost` by default
  pub use_tls : Bool
  pub port : Option ℕ
  pub dashboard_port : Option ℕ
  pub wildcard : Bool
  pub verbose : Bool

-- A field of the session, if there is one.
abbrev pub of_session : {A : Type 0} → (SessionConfig → A) → Option SessionConfig → Option A
of_session field none = none
of_session field (some s) = some (field s)

abbrev pub of_session_some :
    {A : Type 0} → (SessionConfig → Option A) → Option SessionConfig → Option A
of_session_some field none = none
of_session_some field (some s) = field s

abbrev scheme : Bool → Text
scheme tls_off = if tls_off then codes "ws" else codes "wss"

abbrev http_scheme : Bool → Text
http_scheme tls_off = if tls_off then codes "http" else codes "https"

abbrev pub control_url_of : Bool → Text → ℕ → Text
control_url_of tls_off host port =
    scheme tls_off ++ codes "://" ++ host ++ codes ":" ++ show port ++ codes "/wormhole"

abbrev pub control_api_url_of : Bool → Text → ℕ → Text
control_api_url_of tls_off host port =
    http_scheme tls_off ++ codes "://" ++ host ++ codes ":" ++ show port

abbrev local_host_of : Opts → Option SessionConfig → Text
local_host_of opts session =
    if opts.local_host == codes "localhost"
    then unwrap_or (of_session (λ s. s.local_host) session) opts.local_host
    else opts.local_host

-- The control host, its port and TLS come from the session as a whole, or else from the saved
-- configuration as a whole.
abbrev control_host : NeutunConfig → Option SessionConfig → Text
control_host saved none = unwrap_or saved.ctrl_host (codes "wormhole." ++ saved.host)
control_host saved (some s) = unwrap_or s.ctrl_host (codes "wormhole." ++ saved.host)

-- `resolve` is `to_socket_addrs`, and `random` the bytes of the client id.
module _ (k : Codecs) (resolve : Text → ℕ → Option Text) (random : Text) where
  abbrev resolved : Opts → Option SessionConfig → NeutunConfig → ℕ → Text → Config
  resolved opts session saved port local_addr =
      let tls_off = not (unwrap_or (of_session (λ s. s.tls) session) saved.tls) in
      let ctrl_host = control_host saved session in
      let ctrl_port = unwrap_or (of_session (λ s. s.ctrl_port) session) saved.ctrl_port in
      record {
        client_id = generate_client_id k random;
        control_url = control_url_of tls_off ctrl_host ctrl_port;
        control_api_url = control_api_url_of tls_off ctrl_host ctrl_port;
        use_tls = opts.use_tls || unwrap_or (of_session (λ s. s.use_tls) session) false;
        host = saved.host;
        local_host = local_host_of opts session;
        local_port = port;
        local_addr = local_addr;
        sub_domain = or_else opts.sub_domain (of_session_some (λ s. s.subdomain) session);
        domain = or_else opts.domain (of_session (λ s. s.domain) session);
        secret_key = or_else (or_else opts.key (of_session_some (λ s. s.key) session)) saved.key;
        control_tls_off = tls_off;
        first_run = true;
        dashboard_port =
            unwrap_or opts.dashboard_port
              (unwrap_or (of_session_some (λ s. s.dashboard_port) session) 0);
        verbose = opts.verbose;
        wildcard = opts.wildcard || unwrap_or (of_session (λ s. s.wildcard) session) false;
      }

  with_address :
      Option Text → Opts → Option SessionConfig → NeutunConfig → ℕ → Result Config (Unit {0})
  with_address none opts session saved port = err tt
  with_address (some local_addr) opts session saved port =
      ok (resolved opts session saved port local_addr)

  from_saved : Opts → Option SessionConfig → NeutunConfig → Result Config (Unit {0})
  unfolding with_address
  from_saved opts session saved =
      let port = unwrap_or opts.port (unwrap_or (of_session (λ s. s.port) session) saved.port) in
      with_address (resolve (local_host_of opts session) port) opts session saved port

  unfoldable pub from_opts_and_session :
      SavedJson → Opts → Option SessionConfig → Files → Result Config (Unit {0})
  unfolding from_saved
  from_opts_and_session j opts session f =
      from_saved opts session (unwrap_or (load_config j f) default)

  unfoldable pub from_opts : SavedJson → Opts → Files → Result Config (Unit {0})
  from_opts j opts f = from_opts_and_session j opts none f

-- The session that `run_wormhole` saves once it is connected.
unfoldable pub last_session : Config → SessionConfig
last_session config = record {
  name = codes "last";
  port = config.local_port;
  subdomain = config.sub_domain;
  domain = unwrap_or config.domain config.host;
  key = config.secret_key;
  use_tls = config.use_tls;
  wildcard = config.wildcard;
  local_host = config.local_host;
  ctrl_host = none;
  ctrl_port = 0;
  tls = not config.control_tls_off;
  dashboard_port = if eqb config.dashboard_port 0 then none else some config.dashboard_port;
}

unfoldable pub activation_url : Config → Text → Text
activation_url config full_hostname =
    http_scheme config.control_tls_off ++ codes "://" ++ full_hostname

unfoldable pub forward_url : Config → Text
forward_url config =
    (if config.use_tls then codes "https" else codes "http")
    ++ codes "://"
    ++ config.local_host
    ++ codes ":"
    ++ show config.local_port

unfoldable pub ws_forward_url : Config → Text
ws_forward_url config =
    (if config.use_tls then codes "wss" else codes "ws")
    ++ codes "://"
    ++ config.local_host
    ++ codes ":"
    ++ show config.local_port
