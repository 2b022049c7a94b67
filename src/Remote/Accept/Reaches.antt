-- ===== src/Remote/Accept/Reaches.antt =====
-- Which client an end user reaches.
use neutun.Base.{
  Text, ◌==◌, if◌then◌else◌, ◌≡◌, ◌≢◌, ◌⊎◌, inl, inr, true, false, none, some, codes, arith,
  Option-cases, Text-discrete, subst,
}
use neutun.Str.{contains}
use neutun.Server.{ConnectedClient, full_host, Server}
use neutun.Server.Config.{Config}
use neutun.Server.Connections.{get, find_by_host, find_wildcard}
use neutun.Server.Connections.Wildcard.{Registered, get-Registered, find_wildcard-some}
use neutun.Server.Invariant.{IsKeyed, find_by_host-full_host}
use neutun.Auth.SubDomain.{host_of}
use neutun.Remote.Host.{validate_host_prefix}
use neutun.Remote.Host.Exact.{validate_host_prefix-some}
use neutun.Remote.Accept.{to_control, to_client, host_no_port, route_pair, find_client, route}

module _ (s : Server) (keyed : IsKeyed s) where
  get_same_client : (c : ConnectedClient) → Registered c s.clients → get c.id s ≡ some c
  unfolding get
  get_same_client c r = get-Registered s.clients c keyed.by_id keyed.unique_ids r

  find_client-to_client :
      (host domain : Text) (c : ConnectedClient)
      → find_client (find_by_host host s) (find_wildcard domain s) host ≡ to_client c
      → ((full_host c ≡ host) × (find_by_host host s ≡ some c))
        ⊎ ((find_by_host host s ≡ none)
            × (get c.id s ≡ some c)
            × (c.wildcard ≡ true)
            × (c.domain ≡ domain))
  unfolding find_client
  find_client-to_client host domain c e = elim (Option-cases (find_by_host host s)) [
    | inr (d, f) ↦ inl (ground (arith, find_by_host-full_host host s keyed f), ground arith)
    | inl f ↦ elim (Option-cases (find_wildcard domain s)) [
      | inl g ↦ absurd (ground arith)
      | inr (d, g) ↦
          let (wild, same, registered) = find_wildcard-some domain s d g in
          let there = get_same_client d registered in
          let same_client : d ≡ c = ground arith in
          inr (
            f,
            subst (λ x. get x.id s ≡ some x) same_client there,
            subst (λ x. x.wildcard ≡ true) same_client wild,
            subst (λ x. x.domain ≡ domain) same_client same,
          )
    ]
  ]

  route_pair-to_client :
      (p d : Text) (c : ConnectedClient)
      → route_pair (some (p, d)) s ≡ to_client c
      → (p ≢ codes "wormhole")
        × (((full_host c ≡ host_of p d) × (find_by_host (host_of p d) s ≡ some c))
            ⊎ ((find_by_host (host_of p d) s ≡ none)
                × (get c.id s ≡ some c)
                × (c.wildcard ≡ true)
                × (c.domain ≡ d)))
  unfolding route_pair
  route_pair-to_client p d c e = elim (Text-discrete p (codes "wormhole")) [
    | yes w ↦ absurd (ground arith)
    | no w ↦ (w, find_client-to_client (host_of p d) d c (ground arith))
  ]

  -- A user who is sent to a client asked for a host, port aside, of the form `p.d` with an allowed
  -- domain `d` and `p` other than `wormhole`; the client is registered under that very host, or
  -- nobody is and it is a registered wildcard client of `d`.
  pub route-to_client :
      (config : Config) (host : Text) (c : ConnectedClient)
      → route config host s ≡ to_client c
      → (p : Text) × (d : Text) × (host_no_port host ≡ host_of p d)
        × (contains config.allowed_hosts d ≡ true)
        × (p ≢ codes "wormhole")
        × (((full_host c ≡ host_of p d) × (find_by_host (host_of p d) s ≡ some c))
            ⊎ ((find_by_host (host_of p d) s ≡ none)
                × (get c.id s ≡ some c)
                × (c.wildcard ≡ true)
                × (c.domain ≡ d)))
  unfolding route
  route-to_client config host c e =
      elim (Option-cases (validate_host_prefix config.allowed_hosts (host_no_port host))) [
        | inl f ↦ absurd (unfold route_pair in ground arith)
        | inr ((p, d), f) ↦
            (let (split, known) =
                validate_host_prefix-some config.allowed_hosts (host_no_port host) p d f in
              let (w, served) = route_pair-to_client p d c (ground arith) in
              (p, d, split, known, w, served))
      ]

-- A connected client is reached by its host: if the host is split into a sub-domain and an allowed
-- domain, is not itself an allowed host, and the sub-domain is not `wormhole`. With `wormhole` it
-- is never reached: those users go to the control server, whoever has the host.
pub route-find_by_host :
    (config : Config) (host p d : Text) (c : ConnectedClient) (s : Server)
    → validate_host_prefix config.allowed_hosts (host_no_port host) ≡ some (p, d)
    → contains config.allowed_hosts (host_no_port host) ≡ false
    → find_by_host (host_no_port host) s ≡ some c
    → route config host s ≡ (if p == codes "wormhole" then to_control else to_client c)
unfolding route route_pair find_client
route-find_by_host config host p d c s v a f =
    ground (arith, validate_host_prefix-some config.allowed_hosts (host_no_port host) p d v)
