-- ===== src/Server/Connections/Reconnect.antt =====
-- The handle of an old connection against a new connection of the same client. A reconnect token
-- carries the client's id, so both connections have one id.
use neutun.Base.{◌≡◌, ◌≢◌, none, some, arith}
use neutun.Channel.{close_channel}
use neutun.Server.{ConnectedClient, full_host, Server}
use neutun.Server.Connections.{add, remove, get, find_by_host}
use neutun.Server.Connections.Lookup.{lookup-add, lookup-remove}

controls-remove-add :
    (old new : ConnectedClient) (s : Server)
    → old.tx ≢ new.tx
    → (remove old (add new s)).controls new.tx ≡ s.controls new.tx
unfolding remove add close_channel
controls-remove-add old new s h = ground arith

-- If the old connection of a client is removed after its new connection was added under the same
-- id and full host, the new one is found neither by its id nor by its host, although its channel
-- is as open as before; adding it again, as its next pong does, brings it back.
pub remove-add_stale :
    (old new : ConnectedClient) (s : Server)
    → old.id ≡ new.id
    → full_host old ≡ full_host new
    → old.tx ≢ new.tx
    → let s' = remove old (add new s) in
      (get new.id s' ≡ none)
      × (find_by_host (full_host new) s' ≡ none)
      × (s'.controls new.tx ≡ s.controls new.tx)
      × (get new.id (add new s') ≡ some new)
      × (find_by_host (full_host new) (add new s') ≡ some new)
remove-add_stale old new s same_id same_host other_tx =
    let host = full_host new in
    let (lost, gone) = lookup-remove old (add new s) new.id host in
    let (_, found) = lookup-add new s new.id host in
    let (back, again) = lookup-add new (remove old (add new s)) new.id host in
    (
      ground (arith, lost),
      ground (arith, gone, found),
      controls-remove-add old new s other_tx,
      ground (arith, back),
      ground (arith, again),
    )
