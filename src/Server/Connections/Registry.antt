-- ===== src/Server/Connections/Registry.antt =====
-- What `Connections` promises, without the tables: who is found by an id and by a host.
use neutun.Base.{
  Text, ◌==◌, if◌then◌else◌, ◌≡◌, refl, ap, ◌∙◌, ◌&&◌, Option, none, some, List, [], ◌∷◌,
}
use mathlib.Core.Option
use neutun.Table.{get-insert}
use neutun.Protocol.{ClientId}
use neutun.Server.{ConnectedClient, full_host, Server}
use neutun.Server.Connections.{holds, add, remove, update_host, client_for_host, get, find_by_host}
use neutun.Server.Connections.Lookup.{lookup-add, lookup-remove}

-- The abstract state forgets the order and the layout of the tables, and the channels.
pub record Registry : Type 0 where
  pub by_id : ClientId → Option ConnectedClient
  pub by_host : Text → Option ConnectedClient

pub data Operation : Type 0 where
  adds removes moves : ConnectedClient → Operation

-- What an operation means. A client that leaves gives up its host if its own id holds it.
abbrev pub meaning : Operation → Registry → Registry
meaning (adds c) r = record {
  by_id = λ id. if c.id == id then some c else r.by_id id;
  by_host = λ host. if full_host c == host then some c else r.by_host host;
}
meaning (removes c) r = record {
  by_id = λ id. if c.id == id then none else r.by_id id;
  by_host =
      λ host. if full_host c == host && holds (r.by_host host) c then none else r.by_host host;
}
meaning (moves c) r = record r {
  by_host = λ host. if full_host c == host then some c else r.by_host host;
}

abbrev pub meanings : List Operation → Registry → Registry
meanings [] r = r
meanings (o ∷ os) r = meanings os (meaning o r)

abbrev pub registry : Server → Registry
registry s = record { by_id = λ id. get id s; by_host = λ host. find_by_host host s }

abbrev pub perform : Operation → Server → Server
perform (adds c) s = add c s
perform (removes c) s = remove c s
perform (moves c) s = update_host c s

abbrev pub performs : List Operation → Server → Server
performs [] s = s
performs (o ∷ os) s = performs os (perform o s)

registry-perform : (o : Operation) (s : Server) → registry (perform o s) ≡ meaning o (registry s)
registry-perform (adds c) s = λ i. record {
  by_id = λ id. (lookup-add c s id id).0 i;
  by_host = λ host. (lookup-add c s host host).1 i;
}
registry-perform (removes c) s = λ i. record {
  by_id = λ id. (lookup-remove c s id id).0 i;
  by_host = λ host. (lookup-remove c s host host).1 i;
}
registry-perform (moves c) s =
    unfold update_host get find_by_host in
    (λ i. record {
      by_id = λ id. get id s;
      by_host = λ host. get-insert (full_host c) host c s.hosts i;
    })

registries :
    (os : List Operation) (s : Server) → registry (performs os s) ≡ meanings os (registry s)
registries [] s = refl
registries (o ∷ os) s = registries os (perform o s) ∙ ap (meanings os) (registry-perform o s)

client_for_host-by_host :
    (host : Text) (s : Server)
    → client_for_host host s ≡ Option.map (λ c. c.id) ((registry s).by_host host)
unfolding client_for_host find_by_host
client_for_host-by_host host s = refl

-- Any clients that are added, removed and given their hosts, in any order, are found by id and by
-- host as the registry says which forgets the tables; and `client_for_host` is the id of the client
-- that is found by the host.
pub registry-performs :
    (os : List Operation) (s : Server) (host : Text)
    → (registry (performs os s) ≡ meanings os (registry s))
      × (client_for_host host (performs os s)
          ≡ Option.map (λ c. c.id) ((meanings os (registry s)).by_host host))
registry-performs os s host =
    let same = registries os s in
    (
      same,
      client_for_host-by_host host (performs os s)
          ∙ ap (λ r. Option.map (λ c. c.id) (r.by_host host)) same,
    )
