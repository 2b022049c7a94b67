-- ===== src/Server/Connections.antt =====
-- `Connections` of neutun_server/src/connected_clients.rs: who is connected, by id and by host.
pub mod Lookup
pub mod Registry
pub mod Wildcard
pub mod Reconnect
use neutun.Base.{
  Text, ◌==◌, if◌then◌else◌, Bool, true, false, ◌&&◌, Option, none, some, List, [], ◌∷◌,
}
use mathlib.Core.Option
use neutun.Table
use neutun.Table.{Table}
use neutun.Channel.{close_channel}
use neutun.Protocol.{ClientId}
use neutun.Server.{ConnectedClient, full_host, Server}

unfoldable pub update_host : ConnectedClient → Server → Server
unfolding Table.insert
update_host client s = record s { hosts = Table.insert (full_host client) client s.hosts }

-- `map_or(false, |c| c.id == client.id)`
abbrev pub holds : Option ConnectedClient → ConnectedClient → Bool
holds none client = false
holds (some c) client = c.id == client.id

unfoldable pub remove : ConnectedClient → Server → Server
remove client s =
    let host = full_host client in
    record s {
      controls = close_channel client.tx s.controls;
      hosts = if holds (Table.get host s.hosts) client then Table.remove host s.hosts else s.hosts;
      clients = Table.remove client.id s.clients;
    }

unfoldable pub client_for_host : Text → Server → Option ClientId
client_for_host host s = Option.map (λ c. c.id) (Table.get host s.hosts)

unfoldable pub get : ClientId → Server → Option ConnectedClient
get client_id s = Table.get client_id s.clients

unfoldable pub find_by_host : Text → Server → Option ConnectedClient
find_by_host host s = Table.get host s.hosts

abbrev pub serves_wildcard : Text → ConnectedClient → Bool
serves_wildcard domain c = c.wildcard && c.domain == domain

-- The first wildcard client of the domain, in the order of iteration.
unfoldable pub first_wildcard : Text → Table ConnectedClient → Option ConnectedClient
first_wildcard domain [] = none
first_wildcard domain ((k, c) ∷ m) =
    if serves_wildcard domain c then some c else first_wildcard domain m

unfoldable pub find_wildcard : Text → Server → Option ConnectedClient
unfolding first_wildcard
find_wildcard domain s = first_wildcard domain s.clients

abbrev pub get_all_clients : Server → List ConnectedClient
get_all_clients s = Table.values s.clients

unfoldable pub add : ConnectedClient → Server → Server
add client s = record s {
  clients = Table.insert client.id client s.clients;
  hosts = Table.insert (full_host client) client s.hosts;
}
