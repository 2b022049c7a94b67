-- ===== src/Auth/Service/Collision.antt =====
-- The service looks a bare sub-domain up among full hosts.
use neutun.Base.{
  Text, ◌++◌, [], ◌∷◌, codes, if◌then◌else◌, ◌≡◌, subst, none, ok, arith, Option-cases, inl, inr,
}
use neutun.Server.{full_host, Server}
use neutun.Server.Config.{Config}
use neutun.Server.Connections.{find_by_host}
use neutun.Server.Invariant.{IsKeyed, find_by_host-full_host}
use neutun.Auth.Service.{wrong_key, payment_required, available, auth_sub_domain}
use neutun.Auth.SubDomain.Dotless.{NoDot}

dotted : (p q : Text) → NoDot (p ++ codes "." ++ q) → ⊥
dotted [] q h = h.0 (omega arith)
dotted (b ∷ p) q h = dotted p q h.1

find_by_host-NoDot : (sub : Text) (s : Server) → IsKeyed s → NoDot sub → find_by_host sub s ≡ none
unfolding full_host
find_by_host-NoDot sub s keyed h = elim (Option-cases (find_by_host sub s)) [
  | inl e ↦ e
  | inr (c, e) ↦
      absurd (dotted c.host c.domain (subst NoDot (find_by_host-full_host sub s keyed e) h))
]

-- For a sub-domain without a dot the service never answers that another client has it: the answer
-- depends on the key alone, whoever is connected.
pub auth_sub_domain-NoDot :
    (config : Config) (key sub : Text) (s : Server)
    → IsKeyed s
    → NoDot sub
    → auth_sub_domain config key sub s
      ≡ ok (if wrong_key config.master_key key then payment_required else available)
unfolding auth_sub_domain
auth_sub_domain-NoDot config key sub s keyed h = ground (arith, find_by_host-NoDot sub s keyed h)
