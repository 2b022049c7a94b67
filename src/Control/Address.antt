-- ===== src/Control/Address.antt =====
-- `client_ip`, and the lists of domains that the control server publishes.
use neutun.Base.{Text, if◌then◌else◌, Option, none, some, codes, List, [], ◌∷◌, ◌++◌, map}
use neutun.Str.{split, trim}
use neutun.Server.{ConnectedClient, Server}
use neutun.Server.Config.{Config, IpAddr, v4, or_else, unwrap_or}
use neutun.Server.Connections.{get_all_clients}
use mathlib.Core.Option

abbrev pub first : List Text → Option Text
first [] = none
first (t ∷ _) = some t

module _ (parse_ip : Text → Option IpAddr) where
  -- The first item of `X-Forwarded-For`, or else `X-Real-IP`, or else 0.0.0.0.
  unfoldable pub client_ip : Option Text → Option Text → IpAddr
  client_ip fwd real_ip =
      let from_fwd =
        Option.bind fwd (λ s. Option.bind (first (split b',' s)) (λ ip. parse_ip (trim ip))) in
      let from_real = Option.bind real_ip (λ s. parse_ip (trim s)) in
      unwrap_or (or_else from_fwd from_real) (v4 0)

unfoldable pub list_domains : Config → List Text
list_domains config = config.allowed_hosts

abbrev pub taken_name : ConnectedClient → Text
taken_name c = if c.wildcard then codes "*." ++ c.domain else c.host ++ codes "." ++ c.domain

unfoldable pub list_taken : Server → List Text
list_taken s = map taken_name (get_all_clients s)
