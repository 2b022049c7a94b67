-- ===== src/Server/Connections/Wildcard.antt =====
-- `find_wildcard` against the set of registered clients.
use neutun.Base.{
  Text, ◌≡◌, ◌≢◌, ◌⊎◌, inl, inr, true, false, none, some, [], ◌∷◌, arith, Bool-cases, Text-discrete,
  ap,
}
use neutun.Table
use neutun.Table.{Table}
use neutun.Server.{ConnectedClient, Server}
use neutun.Server.Connections.{serves_wildcard, first_wildcard, find_wildcard}

-- The client stands in the table, under some id.
abbrev pub Registered : ConnectedClient → Table ConnectedClient → Type 0
Registered c [] = ⊥
Registered c ((k, d) ∷ m) = (d ≡ c) ⊎ Registered c m

-- A registered client is found by its id, where ids are keys and no key stands twice.
pub get-Registered :
    (m : Table ConnectedClient) (c : ConnectedClient)
    → Table.All (λ k d. k ≡ d.id) m
    → Table.IsUnique m
    → Registered c m
    → Table.get c.id m ≡ some c
unfolding Table.get
get-Registered [] c keyed unique r = absurd r
get-Registered ((k, d) ∷ m) c (p, keyed) (fresh, unique) (inl e) = ground (arith, ap (λ x. x.id) e)
get-Registered ((k, d) ∷ m) c (p, keyed) (fresh, unique) (inr r) =
    let later = get-Registered m c keyed unique r in
    elim (Text-discrete k c.id) [
      | yes q ↦ absurd (ground (arith, ap (λ i. Table.get i m) q))
      | no n ↦ ground (arith, later)
    ]

module _ (domain : Text) where
  first_wildcard-some :
      (m : Table ConnectedClient) (c : ConnectedClient)
      → first_wildcard domain m ≡ some c
      → (serves_wildcard domain c ≡ true) × Registered c m
  unfolding first_wildcard
  first_wildcard-some [] c e = ground arith
  first_wildcard-some ((k, d) ∷ m) c e = elim (Bool-cases (serves_wildcard domain d)) [
    | inl hit ↦ ground arith
    | inr miss ↦ let (p, q) = first_wildcard-some m c (rw miss at e) in (p, inr q)
  ]

  first_wildcard-none :
      (m : Table ConnectedClient) (c : ConnectedClient)
      → first_wildcard domain m ≡ none
      → Registered c m
      → serves_wildcard domain c ≡ false
  unfolding first_wildcard
  first_wildcard-none [] c e h = absurd h
  first_wildcard-none ((k, d) ∷ m) c e (inl p) = ground arith
  first_wildcard-none ((k, d) ∷ m) c e (inr q) = first_wildcard-none m c (ground arith) q

  first_wildcard-All :
      (m : Table ConnectedClient)
      → first_wildcard domain m ≡ none
      → Table.All (λ _ c. serves_wildcard domain c ≡ false) m
  unfolding first_wildcard
  first_wildcard-All [] e = tt
  first_wildcard-All ((k, d) ∷ m) e = elim (Bool-cases (serves_wildcard domain d)) [
    | inl hit ↦ absurd (ground arith)
    | inr miss ↦ (miss, first_wildcard-All m (rw miss at e))
  ]

  first_wildcard-claimed :
      (m : Table ConnectedClient) (c : ConnectedClient)
      → first_wildcard domain m ≡ some c
      → Table.All (λ _ d. serves_wildcard domain d ≡ false) m
      → ⊥
  unfolding first_wildcard
  first_wildcard-claimed [] c e h = absurd (ground arith)
  first_wildcard-claimed ((k, d) ∷ m) c e (p, h) = first_wildcard-claimed m c (rw p at e) h

  pub find_wildcard-All :
      (s : Server)
      → find_wildcard domain s ≡ none
      → Table.All (λ _ c. serves_wildcard domain c ≡ false) s.clients
  unfolding find_wildcard
  find_wildcard-All s e = first_wildcard-All s.clients e

  pub find_wildcard-claimed :
      (s : Server) (c : ConnectedClient)
      → find_wildcard domain s ≡ some c
      → Table.All (λ _ d. serves_wildcard domain d ≡ false) s.clients
      → ⊥
  unfolding find_wildcard
  find_wildcard-claimed s c e h = first_wildcard-claimed s.clients c e h

  -- `find_wildcard` gives a registered wildcard client of the domain.
  pub find_wildcard-some :
      (s : Server) (c : ConnectedClient)
      → find_wildcard domain s ≡ some c
      → (c.wildcard ≡ true) × (c.domain ≡ domain) × Registered c s.clients
  unfolding find_wildcard
  find_wildcard-some s c e =
      let (p, q) = first_wildcard-some s.clients c e in (ground arith, ground arith, q)

  -- If `find_wildcard` gives none, every registered wildcard client is one of another domain.
  pub find_wildcard-none :
      (s : Server) (c : ConnectedClient)
      → find_wildcard domain s ≡ none
      → Registered c s.clients
      → c.wildcard ≡ true
      → c.domain ≢ domain
  unfolding find_wildcard
  find_wildcard-none s c e h w = ground (arith, first_wildcard-none s.clients c e h)
