-- ===== src/Auth/SubDomain.antt =====
-- `sanitize_sub_domain_and_pre_validate` of neutun_server/src/auth/client_auth.rs. An error is the
-- reply that is sent before the connection is dropped.
pub mod Free
pub mod Dotless
use neutun.Base.{
  ℕ, ◌+◌, Text, ◌==◌, eqb, ltb, if◌then◌else◌, Bool, true, false, ◌&&◌, ◌||◌, not, Option, none,
  some, String, codes, List, [], ◌∷◌, ◌++◌, Result, ok, err, ◌>>=◌,
}
use neutun.Utf8.{chars}
use neutun.Str.{Unicode, to_lowercase, is_alphanumeric, contains}
use neutun.Protocol.{ClientId}
use neutun.Protocol.Hello.{ServerHello, invalid_sub_domain, sub_domain_in_use}
use neutun.Network.{Instance, NetworkError, does_not_serve_host, instance_for_host}
use neutun.Server.{ConnectedClient, Server}
use neutun.Server.Config.{Config}
use neutun.Server.Connections.{find_by_host, find_wildcard}
use neutun.Auth.Service.{is_some}

abbrev pub is_allowed : Unicode → ℕ → Bool
is_allowed u c = is_alphanumeric u c || eqb c b'-'

abbrev pub count_disallowed : Unicode → List ℕ → ℕ
count_disallowed u [] = 0
count_disallowed u (c ∷ cs) =
    let rest = count_disallowed u cs in if is_allowed u c then rest else rest + 1

abbrev pub claimed_elsewhere : Result (Instance × ClientId) NetworkError → ClientId → Bool
claimed_elsewhere (err does_not_serve_host) client_id = false
claimed_elsewhere (err _) client_id = false
claimed_elsewhere (ok (_, existing_client)) client_id = not (existing_client == client_id)

abbrev pub is_other : Option ConnectedClient → ClientId → Bool
is_other none client_id = false
is_other (some existing) client_id = not (existing.id == client_id)

abbrev pub reject_if : Bool → ServerHello → Result (Unit {0}) ServerHello
reject_if true reply = err reply
reject_if false reply = ok tt

abbrev pub host_of : Text → Text → Text
host_of sub_domain domain = sub_domain ++ codes "." ++ domain

module _ (config : Config) (u : Unicode) where
  unfoldable pub sanitize_sub_domain_and_pre_validate :
      Text → Text → ClientId → Bool → Server → Result Text ServerHello
  unfolding instance_for_host
  sanitize_sub_domain_and_pre_validate requested_sub_domain domain client_id wildcard s =
      let sub_domain = to_lowercase u requested_sub_domain in
      do
        _ ← reject_if (ltb 0 (count_disallowed u (chars sub_domain))) invalid_sub_domain
        _ ← reject_if (contains config.blocked_sub_domains sub_domain) sub_domain_in_use
        let full_host = host_of sub_domain domain
        _ ← reject_if (is_some (find_by_host full_host s)) sub_domain_in_use
        _ ← reject_if (claimed_elsewhere (instance_for_host full_host) client_id) sub_domain_in_use
        _ ← reject_if (wildcard && is_other (find_wildcard domain s) client_id) sub_domain_in_use
        ok sub_domain
