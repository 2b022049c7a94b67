-- ===== src/Examples/Clientside.antt =====
-- The client program at concrete messages and files.
use neutun.Base.{Text-discrete, ◌≡◌, refl, true, false, none, some, codes, [], ◌∷◌, err}
use neutun.Table
use neutun.Channel.{unbounded, next}
use neutun.Protocol.Hello.{ServerHello}
use neutun.Protocol.Wire.{serialize}
use neutun.Auth.Handshake.{auth_hello}
use neutun.Client.Config.{Config}
use neutun.Client.Tunnel.{payload, Client, Attempt}
use neutun.Client.Session.{client_hello, server_reply, run_tunnel, stop, returned}
use neutun.Client.Session.Keyless.{dropped_reply, run_tunnel-keyless}
use neutun.Base.{length, ok}
use neutun.Channel.{put, send}
use neutun.Protocol.{ControlPacket, ping}
use neutun.Protocol.Wire.{deserialize}
use neutun.Client.Tunnel.{send_tunnel, process_control_flow_message}
use neutun.Client.Wormhole.{writes, write_packet}
use neutun.Client.System.{init, open_tunnel, Reach, here, then, connects, hears}
use neutun.Client.System.Sendable.{IsRead, write_packet-deserialize}
use neutun.Examples.{env, moment, server, stream_id}

abbrev pub idle : Client
idle = record {
  active_streams = [];
  reconnect_token = none;
  streams = λ _. unbounded;
  tunnel = λ _. unbounded;
}

abbrev pub up : Attempt
up = record { tcp_connects = true; name_is_valid = true; tls_connects = true }

abbrev pub keyless : Config
keyless = record {
  client_id = [];
  control_url = [];
  control_api_url = [];
  use_tls = false;
  host = codes "t.io";
  local_host = codes "localhost";
  local_port = 3000;
  local_addr = [];
  sub_domain = some (codes "app");
  domain = none;
  secret_key = none;
  control_tls_off = false;
  first_run = true;
  dashboard_port = 0;
  verbose = false;
  wildcard = false;
}

run_tunnel-keyless_example :
    (reply : ServerHello) × (auth_hello env moment
        (client_hello env.codecs (codes "r") keyless (some (codes "tok")))
        server
      ≡ err reply)
    × (run_tunnel (returned (dropped_reply (server_reply reply))) ≡ stop)
run_tunnel-keyless_example =
    run_tunnel-keyless env moment (codes "r") keyless (some (codes "tok")) server refl

abbrev busy : Client
busy = record idle {
  active_streams = (stream_id, 4) ∷ [];
  streams = λ _. record { queue = payload (codes "GE") ∷ []; is_open = true };
}

-- A client with a connection that has heard a ping.
abbrev pinged : Client
pinged = (process_control_flow_message false up 4 0 (serialize (ping none)) (open_tunnel 0 init)).1

pinged-reached : Reach init pinged
pinged-reached =
    then (then here (connects 0 refl)) (hears false up 4 0 (serialize (ping none)) refl)

write_packet-deserialize_example :
    Table.All (λ k _. length k ≡ 8) pinged.active_streams
    × Table.IsUnique pinged.active_streams
    × IsRead (write_packet 0 true pinged)
write_packet-deserialize_example = write_packet-deserialize pinged 0 true pinged-reached

pong :
    write_packet 0 true pinged
    ≡ writes (serialize (ping none)) (record pinged { tunnel = put 0 unbounded pinged.tunnel })
unfolding write_packet next process_control_flow_message deserialize serialize send send_tunnel
    Text-discrete
pong = refl
