-- ===== src/Examples/Users.antt =====
-- End users at concrete requests.
use neutun.Base.{
  ◌≡◌, ◌≢◌, refl, Text-discrete, true, false, none, some, codes, length, [], ◌∷◌, ◌++◌, arith,
}
use neutun.Table
use neutun.Channel.{unbounded}
use neutun.Str.{contains, split, ends_with}
use neutun.Server.{payload, tunnel_refused, Server}
use neutun.Server.Connections.{get, find_by_host, find_wildcard}
use neutun.Control.Client.{after}
use neutun.Remote.Host.{validate_host_prefix}
use neutun.Protocol.{StreamId}
use neutun.Server.{ActiveStream}
use neutun.Base.{Bool}
use neutun.Remote.Peek.{Request, peek_http_request_host}
use neutun.Remote.Connect.{Peer, control, instance_at, serve_connection}
use neutun.Remote.Connect.Served.{IsServed, serve_connection-IsServed}
use neutun.Remote.Accept.{to_client, route, accept_connection}
use neutun.Control.Sink.Turns.{tunnel_client_all}
use neutun.Client.Tunnel.{end_task}
use neutun.Client.Introspect.Copies.{forward_all}
use neutun.Client.Wormhole.Writing.{write_packets}
use neutun.System.Exchange.{accept_connection-exchange}
use neutun.Remote.Accept.Reaches.{route-find_by_host}
use neutun.Remote.Stream.{bytes, ended, process_tcp_stream, http_tunnel_refused_response}
use neutun.Remote.Stream.Upload.{process_tcp_stream_all}
use neutun.Remote.Stream.Download.{refusal, write_all, write_all-concat}
use neutun.Remote.Stream.{http_not_found_response}
use neutun.Remote.Stream.Gone.{write_all-process_tcp_stream}
use neutun.Client.Tunnel.{Client, Attempt, process_messages}
use neutun.Base.{All}
use neutun.Client.Tunnel.Local.{read_local}
use neutun.Control.Client.Forward.All.{process_client_messages}
use neutun.Examples.{ascii, config, server, old_client, stream}

split_run :
    validate_host_prefix (codes "t.io" ∷ []) (codes "app.t.io") ≡ some (codes "app", codes "t.io")
unfolding validate_host_prefix ends_with Text-discrete
split_run = refl

not_root : contains (codes "t.io" ∷ []) (codes "app.t.io") ≡ false
unfolding Text-discrete
not_root = refl

found : find_by_host (codes "app.t.io") server ≡ some old_client
unfolding find_by_host Table.get Text-discrete
found = refl

route-find_by_host_example : route config (codes "app.t.io") server ≡ to_client old_client
unfolding Text-discrete split
route-find_by_host_example =
    route-find_by_host config (codes "app.t.io") (codes "app") (codes "t.io") old_client server
      split_run not_root found

registered : get (codes "id0") server ≢ none
unfolding get Table.get Text-discrete
registered = λ e. absurd (ground arith)

abbrev alone : Server
alone = record server { clients = [] }

gone : get (codes "id0") alone ≡ none
unfolding get Table.get
gone = refl

abbrev answered : Server
answered = record server {
  pipes = λ _. record { queue = payload (codes "A") ∷ tunnel_refused ∷ []; is_open = true };
}

write_all-concat_example :
    ((write_all 2 stream answered).0 ≡ codes "A" ++ http_tunnel_refused_response)
    × (Table.get stream.id (write_all 2 stream answered).1.active_streams ≡ none)
write_all-concat_example =
    write_all-concat stream (codes "A" ∷ []) tunnel_refused http_tunnel_refused_response [] true 2
      answered refusal refl (omega arith)

-- The body is as long as the header says.
refused_length : length http_tunnel_refused_response ≡ 68
refused_length = refl

write_all-process_tcp_stream_example :
    let r = write_all 2 stream (
      after (
        process_tcp_stream stream ended (record alone {
          pipes = λ _. record { queue = payload (codes "A") ∷ []; is_open = true };
        }))) in
    (r.0 ≡ codes "A" ++ http_not_found_response) × (Table.get stream.id r.1.active_streams ≡ none)
unfolding get
write_all-process_tcp_stream_example =
    write_all-process_tcp_stream stream ended (codes "A" ∷ []) 2
      (record alone { pipes = λ _. record { queue = payload (codes "A") ∷ []; is_open = true } })
      gone refl (omega arith)

abbrev idle : Client
idle = record {
  active_streams = [];
  reconnect_token = none;
  streams = λ _. unbounded;
  tunnel = λ _. unbounded;
}

abbrev up : Attempt
up = record { tcp_connects = true; name_is_valid = true; tls_connects = true }

full : All (λ c. c ≢ []) (codes "O" ∷ codes "K" ∷ [])
full = (λ e. absurd (ground arith), (λ e. absurd (ground arith), tt))

to_old : route config (codes "app.t.io:80") server ≡ to_client old_client
unfolding route validate_host_prefix ends_with Text-discrete split find_by_host find_wildcard
    Table.get
to_old = refl

abbrev other_id : StreamId
other_id = 9 ∷ 9 ∷ 9 ∷ 9 ∷ 9 ∷ 9 ∷ 9 ∷ 9 ∷ []

abbrev other_stream : ActiveStream
other_stream = record { id = other_id; client = old_client; tx = 8 }

accept_connection-exchange_example :
    let accepted = accept_connection config (codes "app.t.io:80") other_id 8 server in
    let user = bytes (codes "GE") ∷ bytes (codes "T") ∷ ended ∷ [] in
    let sent =
      tunnel_client_all 9 old_client (process_tcp_stream_all other_stream user accepted.2) in
    let heard = process_messages false up 4 0 sent.0 idle in
    let known = Table.get other_id heard.1.active_streams in
    let answer =
      read_local 0 other_id (some (codes "O") ∷ some (codes "K") ∷ some [] ∷ []) heard.1 in
    let messages = write_packets 5 0 answer in
    (accepted.1 ≡ some other_stream)
    × ((forward_all 9 4 (end_task known other_id heard.1)).0 ≡ codes "GET")
    × ((write_all 3 other_stream (process_client_messages old_client messages sent.1)).0
        ≡ codes "OK")
unfolding Table.get
accept_connection-exchange_example =
    accept_connection-exchange old_client other_id 8 server (codes "GE") (codes "T" ∷ []) config
      (codes "app.t.io:80") false up 4 0 idle (codes "O" ∷ codes "K" ∷ []) 9 9 5 3 to_old refl
      registered refl refl refl refl full (omega arith) (omega arith) (omega arith) (omega arith)

-- A request for the host of the client; the control server is up, and nothing else.
abbrev head : Request
head = record { path = some (codes "/"); headers = (codes "host", codes "app.t.io:80") ∷ [] }

abbrev connects : Peer → Bool
connects (control _) = true
connects (instance_at _ _) = false

serve_connection-IsServed_example :
    IsServed config connects other_id 8 server
      (peek_http_request_host ascii (λ _. some head) (some (codes "GET")))
      (serve_connection config connects ascii
        (λ _. some head)
        (some (codes "GET"))
        other_id
        8
        server)
serve_connection-IsServed_example =
    serve_connection-IsServed config connects ascii (λ _. some head) (some (codes "GET")) other_id 8
      server
