-- ===== src/Examples/Dashboard.antt =====
-- The dashboard and the rounds of the client at concrete streams.
use neutun.Base.{
  ℕ, ◌+◌, ◌*◌, ◌<◌, ◌≤◌, Text-discrete, ◌==◌, if◌then◌else◌, ◌≡◌, ◌≢◌, ◌⊎◌, refl, true, false, none,
  some, codes, List, [], ◌∷◌, ◌++◌, ok, err, arith, All,
}
use mathlib.Core.List.{Perm, Pairwise}
use neutun.Table
use neutun.Table.{Table}
use neutun.Str.{to_lowercase, is_alphanumeric}
use neutun.Str.Numbers.{show}
use neutun.Protocol.Hello.{generate_client_id}
use neutun.Auth.Handshake.{auth_hello, ClientHandshake, authenticate, choose_domain}
use neutun.Auth.Service.{auth_sub_domain}
use neutun.Auth.SubDomain.{sanitize_sub_domain_and_pre_validate}
use neutun.Server.Connections.{find_by_host}
use neutun.Utf8.{chars}
use neutun.Client.Config.{Config, web_socket_error, timeout}
use neutun.Client.Session.{client_hello, returned}
use neutun.Client.Tunnel.{payload, close, Client}
use neutun.Client.Introspect.{
  Request, HttpParse, elapsed, inspector, collect_stream, replay_request, redirect_home,
}
use neutun.Client.Introspect.Copies.{forward_all, read_copies}
use neutun.Client.Introspect.Elapsed.{elapsed_bounds}
use neutun.Client.Introspect.Inspector.{NoEarlier, inspector-Pairwise}
use neutun.Client.Introspect.Replay.{replay_request-collect_stream}
use neutun.Client.Wormhole.{Round}
use neutun.Client.Ui.{get_sub_domain_notice, upgrade_notice}
use neutun.Client.Ui.Notice.{get_sub_domain_notice-auth_hello}
use neutun.Examples.{env, moment, stream_id}
use neutun.Examples.Clientside.{idle, up, keyless}
use neutun.System.{init}

-- Every head is complete after two bytes.
abbrev http : HttpParse
http = record {
  request = λ t. record { complete = some 2; path = some (codes "/"); method = none; headers = [] };
  response = λ t. record { complete = none; code = some 200; headers = [] };
}

abbrev request : Request
request = record {
  id = codes "a";
  status = 200;
  is_replay = false;
  path = none;
  method = none;
  headers = [];
  body_data = [];
  response_headers = [];
  response_data = [];
  started = 1000;
  completed = 2500001000;
  entire_request = codes "GET";
}

elapsed_bounds_example :
    ((n : ℕ) × (elapsed request ≡ show n ++ codes "ms")
      × (n < 1000)
      × (n * 1000000 ≤ 2500000000)
      × (2500000000 < (n + 1) * 1000000))
    ⊎ ((n : ℕ) × (elapsed request ≡ show n ++ codes "s")
        × (1 ≤ n)
        × (n * 1000000000 ≤ 2500000000)
        × (2500000000 < (n + 1) * 1000000000))
elapsed_bounds_example = elapsed_bounds request (omega arith)

abbrev two_requests : Table Request
two_requests = (codes "a", request) ∷ (codes "b", record request { completed = 3500001000 }) ∷ []

inspector-Pairwise_example :
    Perm (inspector two_requests) (Table.values two_requests)
    × Pairwise NoEarlier (inspector two_requests)
inspector-Pairwise_example = inspector-Pairwise two_requests

-- A stream that gets a request in two pieces and its end.
abbrev served : Client
served = record idle {
  streams = λ _. record {
    queue = payload (codes "GE") ∷ payload (codes "T") ∷ close ∷ [];
    is_open = true;
  };
}

full : All (λ c. c ≢ []) (codes "OK" ∷ [])
full = (λ e. absurd (ground arith), tt)

replay_request-collect_stream_example :
    let written = forward_all 3 4 served in
    let read = read_copies 0 stream_id (some (codes "OK") ∷ some [] ∷ []) idle in
    let kept = collect_stream http (codes "a") 1 2 written.1 read [] in
    let out = replay_request false up 5 1 stream_id (codes "a") kept idle in
    (out.0 ≡ redirect_home)
    × (Table.get stream_id out.1.active_streams ≡ some 5)
    × (forward_all 1 5 out.1 ≡ (written.0, written.0 ∷ []))
replay_request-collect_stream_example =
    replay_request-collect_stream http 2 3 0 (codes "a") 1 2 (codes "GE" ∷ codes "T" ∷ [])
      (codes "OK" ∷ []) 4 0 stream_id true served idle idle [] false up 5 1 stream_id refl
      (omega arith) refl full refl refl

-- The connection is lost once it is open, then the server cannot be reached, and then the websocket
-- fails before the hello is sent.
abbrev rounds : List Round
rounds =
    (some (ok (codes "app", codes "app.t.io")), returned (err timeout))
    ∷ (some (err web_socket_error), returned (ok tt))
    ∷ (none, returned (ok tt))
    ∷ []

-- A client that asks for `App`.
abbrev keyed : Config
keyed = record keyless { sub_domain = some (codes "App"); secret_key = some (codes "key") }

abbrev handshake : ClientHandshake
handshake = record {
  id = codes "id1";
  sub_domain = codes "app";
  domain = codes "t.io";
  is_anonymous = false;
  wildcard = false;
}

let_in : auth_hello env moment (client_hello env.codecs (codes "r") keyed none) init ≡ ok handshake
unfolding auth_hello authenticate choose_domain auth_sub_domain sanitize_sub_domain_and_pre_validate
    Text-discrete find_by_host to_lowercase chars is_alphanumeric Table.get client_hello
    generate_client_id
let_in = refl

get_sub_domain_notice-auth_hello_example :
    (codes "app" ≡ to_lowercase env.unicode (codes "App"))
    × (get_sub_domain_notice keyed (codes "app") ≡ (
        if codes "App" == to_lowercase env.unicode (codes "App")
        then none
        else some upgrade_notice))
get_sub_domain_notice-auth_hello_example =
    get_sub_domain_notice-auth_hello env moment (codes "r") keyed none (codes "key") (codes "App")
      init handshake refl refl let_in
