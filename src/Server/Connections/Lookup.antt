-- ===== src/Server/Connections/Lookup.antt =====
-- What a lookup finds after a client is added or removed.
use neutun.Base.{Text, ◌==◌, if◌then◌else◌, ◌≡◌, ◌≢◌, ◌&&◌, none, some, arith}
use neutun.Table.{get-insert, get-remove}
use neutun.Server.{ConnectedClient, full_host, Server}
use neutun.Server.Connections.{holds, add, remove, get, find_by_host}

-- After `add`, the client is found under its id and under its full host, and every other lookup is
-- as before.
pub lookup-add :
    (c : ConnectedClient) (s : Server) (id host : Text)
    → (get id (add c s) ≡ (if c.id == id then some c else get id s))
      × (find_by_host host (add c s)
          ≡ (if full_host c == host then some c else find_by_host host s))
unfolding add get find_by_host
lookup-add c s id host = (get-insert c.id id c s.clients, get-insert (full_host c) host c s.hosts)

-- `remove` takes away the client's id, and its full host if a client of the same id holds it. Every
-- other lookup is as before.
pub lookup-remove :
    (c : ConnectedClient) (s : Server) (id host : Text)
    → (get id (remove c s) ≡ (if c.id == id then none else get id s))
      × (find_by_host host (remove c s) ≡ (
          if full_host c == host && holds (find_by_host host s) c
          then none
          else find_by_host host s))
unfolding remove get find_by_host
lookup-remove c s id host =
    (get-remove c.id id s.clients, ground (arith, get-remove (full_host c) host s.hosts))

-- A client that leaves never unregisters another client's host, even the one that it asked for.
pub remove_keeps_others :
    (c d : ConnectedClient) (s : Server) (host : Text)
    → find_by_host host s ≡ some d
    → d.id ≢ c.id
    → find_by_host host (remove c s) ≡ some d
unfolding remove find_by_host
remove_keeps_others c d s host e n = ground (arith, get-remove (full_host c) host s.hosts)
