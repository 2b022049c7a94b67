-- ===== src/Remote/Accept.antt =====
-- `accept_connection`: where the connection of an end user goes.
pub mod Reaches
use neutun.Base.{
  Text, ◌==◌, if◌then◌else◌, Option, none, some, String, codes, List, [], ◌∷◌, Result, ok, err,
}
use neutun.Str.{split, contains}
use neutun.Table
use neutun.Channel.{Sender, unbounded, put}
use neutun.Protocol.{ClientId, StreamId}
use neutun.Network.{
  Instance, NetworkError, io_error, request, resolver, does_not_serve_host, instance_for_host,
}
use neutun.Server.{ConnectedClient, ActiveStream, Server}
use neutun.Server.Config.{Config}
use neutun.Server.Connections.{find_by_host, find_wildcard}
use neutun.Auth.SubDomain.{host_of}
use neutun.Remote.Host.{validate_host_prefix}

pub data Route : Type 0 where
  hello_world invalid_host to_control not_found error_locating : Route
  to_instance : Instance → Route
  to_client : ConnectedClient → Route

abbrev pub host_no_port : Text → Text
host_no_port host = elim (split b':' host) [ [] ↦ host | h ∷ _ ↦ h ]

abbrev elsewhere : Result (Instance × ClientId) NetworkError → Route
elsewhere (ok (instance_, _)) = to_instance instance_
elsewhere (err does_not_serve_host) = not_found
elsewhere (err _) = error_locating

-- The client of the host, or else the wildcard client of the domain, or else another instance.
find_client : Option ConnectedClient → Option ConnectedClient → Text → Route
unfolding instance_for_host
find_client (some client) wildcard full_host = to_client client
find_client none (some client) full_host = to_client client
find_client none none full_host = elsewhere (instance_for_host full_host)

route_pair : Option (Text × Text) → Server → Route
unfolding find_client
route_pair none s = invalid_host
route_pair (some (sub_domain, domain)) s =
    if sub_domain == codes "wormhole"
    then to_control
    else (let full_host = host_of sub_domain domain in
        find_client (find_by_host full_host s) (find_wildcard domain s) full_host)

unfoldable pub route : Config → Text → Server → Route
unfolding route_pair
route config host s =
    let host = host_no_port host in
    if contains config.allowed_hosts host
    then hello_world
    else route_pair (validate_host_prefix config.allowed_hosts host) s

-- A new stream of the client: its random id, and a channel at the place `tx`.
abbrev pub open_stream : ConnectedClient → StreamId → Sender → Server → ActiveStream × Server
open_stream client stream_id tx s =
    let stream : ActiveStream = record { id = stream_id; client = client; tx = tx } in
    (
      stream,
      record s {
        pipes = put tx unbounded s.pipes;
        active_streams = Table.insert stream_id stream s.active_streams;
      },
    )

abbrev pub open_route : Route → StreamId → Sender → Server → Option ActiveStream × Server
open_route (to_client client) stream_id tx s =
    let (stream, s') = open_stream client stream_id tx s in (some stream, s')
open_route _ stream_id tx s = (none, s)

-- The route, the stream if there is one, and the state.
unfoldable pub accept_connection :
    Config → Text → StreamId → Sender → Server → Route × Option ActiveStream × Server
accept_connection config host stream_id tx s =
    let r = route config host s in let (stream, s') = open_route r stream_id tx s in (r, stream, s')
