-- ===== src/Server/Config.antt =====
-- `Config` of neutun_server/src/config.rs.
pub mod Ports
use neutun.Base.{ℕ, Text, String, codes, Option, none, some, List, [], ◌∷◌, Result, ok, err, ◌>>=◌}
use mathlib.Core.Option
use neutun.Codecs.{Codecs}
use neutun.Str.{split}
use neutun.Str.Numbers.{parse_u16}
use neutun.Auth.Key.{SigKey, from_hex}

-- An address, as a number.
pub data IpAddr : Type 0 where
  v4 v6 : ℕ → IpAddr

pub record Config : Type 0 where
  pub allowed_hosts : List Text
  pub blocked_sub_domains : List Text
  pub remote_port : ℕ
  pub control_port : ℕ
  pub internal_network_port : ℕ
  pub master_sig_key : SigKey
  pub blocked_ips : List IpAddr
  pub master_key : Option Text

-- The messages of the panics.
pub data Panic : Type 0 where
  invalid_master_key : Panic
  invalid_port : Text → Panic

abbrev pub or_else {ℓ} : {A : Type ℓ} → Option A → Option A → Option A
or_else (some a) o = some a
or_else none o = o

abbrev pub unwrap_or {ℓ} : {A : Type ℓ} → Option A → A → A
unwrap_or (some a) d = a
unwrap_or none d = d

-- The items of a comma-separated variable; none if it is unset.
abbrev comma_list : Option Text → List Text
comma_list none = []
comma_list (some s) = split b',' s

abbrev filter_ips : (Text → Option IpAddr) → List Text → List IpAddr
filter_ips parse [] = []
filter_ips parse (t ∷ ts) =
    let rest = filter_ips parse ts in elim (parse t) [ some ip ↦ ip ∷ rest | none ↦ rest ]

parsed_port : Text → Option ℕ → Result ℕ Panic
parsed_port var (some port) = ok port
parsed_port var none = err (invalid_port var)

port_of : Text → Option Text → ℕ → Result ℕ Panic
unfolding parsed_port
port_of var (some port) default = parsed_port var (parse_u16 port)
port_of var none default = ok default

-- The environment is a function from the names of the variables.
unfoldable pub get_port : (Text → Option Text) → Text → ℕ → Result ℕ Panic
unfolding port_of
get_port env var default = port_of var (env var) default

decoded_key : Option SigKey → Result SigKey Panic
decoded_key (some key) = ok key
decoded_key none = err invalid_master_key

-- Without a key in the environment, the fresh random one.
sig_key_of : Codecs → Option Text → SigKey → Result SigKey Panic
unfolding decoded_key
sig_key_of k (some key) fresh = decoded_key (from_hex k key)
sig_key_of k none fresh = ok fresh

module _ (k : Codecs) (parse_ip : Text → Option IpAddr) where
  unfoldable pub from_env : (Text → Option Text) → SigKey → Result Config Panic
  unfolding sig_key_of get_port
  from_env env fresh = do
    master_sig_key ← sig_key_of k (env (codes "MASTER_SIG_KEY")) fresh
    control_port ← get_port env (codes "CTRL_PORT") 5000
    remote_port ← get_port env (codes "PORT") 8080
    internal_network_port ← get_port env (codes "NET_PORT") 6000
    ok (record {
      allowed_hosts = comma_list (env (codes "ALLOWED_HOSTS"));
      blocked_sub_domains = comma_list (env (codes "BLOCKED_SUB_DOMAINS"));
      remote_port = remote_port;
      control_port = control_port;
      internal_network_port = internal_network_port;
      master_sig_key = master_sig_key;
      blocked_ips = filter_ips parse_ip (comma_list (env (codes "BLOCKED_IPS")));
      master_key = or_else (env (codes "MASTER_API_KEY")) (env (codes "NEUTUN_MASTER_KEY"));
    })
