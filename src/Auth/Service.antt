-- ===== src/Auth/Service.antt =====
-- `AuthService` and `SimpleAuthService` of neutun_server/src/auth.
pub mod Collision
use neutun.Base.{Text, ◌==◌, if◌then◌else◌, Bool, false, not, Option, none, some, Result, ok, err}
use neutun.Server.{Server}
use neutun.Server.Config.{Config}
use neutun.Server.Connections.{find_by_host}

pub data AuthResult : Type 0 where
  reserved_by_you reserved_by_other reserved_by_you_but_delinquent payment_required available :
      AuthResult

-- The master key is set, and the client's key is another.
abbrev pub wrong_key : Option Text → Text → Bool
wrong_key none auth_key = false
wrong_key (some master_key) auth_key = not (auth_key == master_key)

abbrev pub is_some {ℓ} : {A : Type ℓ} → Option A → Bool
is_some none = false
is_some (some _) = Bool.true

unfoldable pub auth_sub_domain : Config → Text → Text → Server → Result AuthResult (Unit {0})
auth_sub_domain config auth_key subdomain s =
    if wrong_key config.master_key auth_key
    then ok payment_required
    else if is_some (find_by_host subdomain s)
    then ok reserved_by_other
    else ok available
