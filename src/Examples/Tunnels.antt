-- ===== src/Examples/Tunnels.antt =====
-- Connections of clients, at concrete messages.
use neutun.Base.{◌≡◌, refl, Text, Text-discrete, true, false, none, some, codes, [], ◌∷◌, ◌++◌}
use neutun.Table
use neutun.Channel.{send, unbounded, put}
use neutun.Protocol.{ping}
use neutun.Protocol.Hello.{ServerHello, success}
use neutun.Protocol.Wire.{serialize}
use neutun.Str.{to_lowercase, is_alphanumeric}
use neutun.Utf8.{chars}
use neutun.Server.{ConnectedClient, full_host, Server}
use neutun.Server.Config.{v4}
use neutun.Server.Connections.{add, remove, get, find_by_host}
use neutun.Auth.Service.{auth_sub_domain}
use neutun.Auth.SubDomain.{sanitize_sub_domain_and_pre_validate}
use neutun.Auth.Handshake.{
  choose_domain, authenticate, auth_hello, auth_client, auth_client_handshake,
}
use neutun.Control.Open.{register, handle_new_connection}
use neutun.Control.Open.Opened.{IsOpened, handle_new_connection-IsOpened}
use neutun.Control.Client.{after, binary, process_client_message}
use neutun.Control.Client.Pong.{process_client_message-pong}
use neutun.System.{init}
use neutun.Examples.{env, moment, server, old_client, key_hello, stream, stream_id}
use neutun.Examples as Data

abbrev key_client : ConnectedClient
key_client = record {
  id = codes "id1";
  host = codes "app";
  domain = codes "t.io";
  is_anonymous = false;
  wildcard = false;
  tx = 3;
}

abbrev opened : Server
opened = add key_client (record init { controls = put 3 unbounded init.controls })

abbrev greeting : ServerHello
greeting = success (codes "app") (codes "app.t.io") (codes "id1")

opens_run :
    handle_new_connection env moment (v4 1) (some []) true 3 init
    ≡ (some greeting, some key_client, opened)
unfolding handle_new_connection auth_client_handshake auth_client auth_hello authenticate
    choose_domain auth_sub_domain sanitize_sub_domain_and_pre_validate Text-discrete find_by_host
    to_lowercase chars is_alphanumeric Table.get register
opens_run = refl

handle_new_connection-IsOpened_example :
    IsOpened env moment (v4 1) (some []) true 3 init (some greeting) key_client opened
handle_new_connection-IsOpened_example =
    handle_new_connection-IsOpened env moment (v4 1) (some []) true 3 init (some greeting)
      key_client opened opens_run

abbrev token : Text
token = 8 ∷ (10 ∷ 3 ∷ codes "appid0") ++ codes "sig" ++ 10 ∷ 3 ∷ codes "appid0"

process_client_message-pong_example :
    let s' = after (
      process_client_message old_client
        (binary (serialize (ping none)))
        (remove old_client server)) in
    (get (codes "id0") s' ≡ some old_client)
    × (find_by_host (full_host old_client) s' ≡ some old_client)
    × ((send 0 (ping none) s'.controls).0 ≡ false)
process_client_message-pong_example = process_client_message-pong old_client server (ping none)
