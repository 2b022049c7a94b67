-- ===== src/Examples/Clients.antt =====
-- The tables of clients and the configuration at concrete states.
use neutun.Base.{[], ◌∷◌, ◌≡◌, ◌≢◌, refl, Text-discrete, none, some, codes, arith}
use neutun.Channel.{unbounded}
use neutun.Table
use neutun.Server.{full_host}
use neutun.Server.Connections.{add, remove, get, find_by_host, client_for_host}
use neutun.Server.Connections.Registry.{
  adds, removes, moves, registry, performs, meanings, registry-performs,
}
use neutun.Server.Connections.Reconnect.{remove-add_stale}
use neutun.Examples.{server, old_client, new_client}

other_channel : old_client.tx ≢ new_client.tx
other_channel = λ e. omega arith

remove-add_stale_example :
    let s' = remove old_client (add new_client server) in
    (get (codes "id0") s' ≡ none)
    × (find_by_host (full_host new_client) s' ≡ none)
    × (s'.controls 1 ≡ unbounded)
    × (get (codes "id0") (add new_client s') ≡ some new_client)
    × (find_by_host (full_host new_client) (add new_client s') ≡ some new_client)
unfolding full_host
remove-add_stale_example = remove-add_stale old_client new_client server refl refl other_channel

-- A client comes back on another channel before the old connection is removed.
registry-performs_example :
    let s' = performs (adds new_client ∷ removes old_client ∷ moves new_client ∷ []) server in
    (registry s'
      ≡ meanings (adds new_client ∷ removes old_client ∷ moves new_client ∷ []) (registry server))
    × (client_for_host (codes "app.t.io") s' ≡ some (codes "id0"))
unfolding find_by_host Table.get Text-discrete full_host
registry-performs_example =
    registry-performs (adds new_client ∷ removes old_client ∷ moves new_client ∷ []) server
      (codes "app.t.io")
