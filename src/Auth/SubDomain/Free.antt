-- ===== src/Auth/SubDomain/Free.antt =====
-- What an accepted sub-domain is, and what each refusal says.
use neutun.Base.{
  Text, if◌then◌else◌, ◌≡◌, ◌↔◌, ◌⊎◌, inl, inr, refl, Bool, true, false, ◌&&◌, none, some, ok, err,
  arith, eqb, Option-cases,
}
use neutun.Table
use neutun.Utf8.{chars}
use neutun.Str.{Unicode, to_lowercase, contains}
use neutun.Protocol.{ClientId}
use neutun.Protocol.Hello.{ServerHello, invalid_sub_domain, sub_domain_in_use}
use neutun.Server.{ConnectedClient, Server}
use neutun.Server.Config.{Config}
use neutun.Server.Connections.{serves_wildcard, find_by_host, find_wildcard}
use neutun.Server.Connections.Wildcard.{find_wildcard-All, find_wildcard-claimed}
use neutun.Auth.SubDomain.{
  count_disallowed, is_other, host_of, sanitize_sub_domain_and_pre_validate,
}

-- The client `id` may have what it asks for: no wildcard, or a wildcard that no client has, or one
-- that is first found with `id` itself.
abbrev pub IsUnclaimed : Text → ClientId → Bool → Server → Type 0
IsUnclaimed domain id wildcard s =
    (wildcard ≡ false)
    ⊎ (Table.All (λ _ c. serves_wildcard domain c ≡ false) s.clients
      ⊎ ((c : ConnectedClient) × (find_wildcard domain s ≡ some c) × (c.id ≡ id)))

pub unclaimed_wildcard :
    (domain : Text) (id : ClientId) (wildcard : Bool) (s : Server)
    → ((wildcard && is_other (find_wildcard domain s) id) ≡ false)
      ↔ IsUnclaimed domain id wildcard s
unclaimed_wildcard domain id false s = (λ _. inl refl, λ _. refl)
unclaimed_wildcard domain id true s = elim (Option-cases (find_wildcard domain s)) [
  | inl e ↦ (λ _. inr (inl (find_wildcard-All domain s e)), λ _. ground arith)
  | inr (c, e) ↦ (
    λ f. inr (inr (c, e, ground arith)),
    λ h. elim h [
      | inl f ↦ absurd (ground arith)
      | inr (inl none_has) ↦ absurd (find_wildcard-claimed domain s c e none_has)
      | inr (inr (d, f, same)) ↦ ground arith
    ],
  )
]

module _ (config : Config) (u : Unicode) where
  -- `sub` may be given to the client `id` in the state `s`.
  pub record IsFree (requested sub domain : Text) (id : ClientId) (wildcard : Bool) (s : Server)
      : Type 0 where
    pub lowered : sub ≡ to_lowercase u requested
    pub characters : count_disallowed u (chars sub) ≡ 0
    pub unblocked : contains config.blocked_sub_domains sub ≡ false
    pub untaken : find_by_host (host_of sub domain) s ≡ none
    pub unclaimed : IsUnclaimed domain id wildcard s

  pub sanitize-IsFree :
      (requested sub domain : Text) (id : ClientId) (wildcard : Bool) (s : Server)
      → (sanitize_sub_domain_and_pre_validate config u requested domain id wildcard s ≡ ok sub)
        ↔ IsFree requested sub domain id wildcard s
  unfolding sanitize_sub_domain_and_pre_validate
  sanitize-IsFree requested sub domain id wildcard s = (
    λ e. record {
      lowered = ground arith;
      characters = ground arith;
      unblocked = ground arith;
      untaken = ground arith;
      unclaimed = (unclaimed_wildcard domain id wildcard s).0 (ground arith);
    },
    λ f. ground (
      arith,
      f.lowered,
      f.characters,
      f.unblocked,
      f.untaken,
      (unclaimed_wildcard domain id wildcard s).1 f.unclaimed,
    ),
  )

  -- A refusal is `InvalidSubDomain` if the lower-case form has another character, whatever else may
  -- be wrong, and `SubDomainInUse` in every other case.
  pub sanitize_refusal :
      (requested domain : Text) (id : ClientId) (wildcard : Bool) (s : Server) (reply : ServerHello)
      → sanitize_sub_domain_and_pre_validate config u requested domain id wildcard s ≡ err reply
      → reply ≡ (
          if eqb (count_disallowed u (chars (to_lowercase u requested))) 0
          then sub_domain_in_use
          else invalid_sub_domain)
  unfolding sanitize_sub_domain_and_pre_validate
  sanitize_refusal requested domain id wildcard s reply e = ground arith
