-- ===== src/Remote/Connect/Served.antt =====
-- What every user's connection comes to.
use neutun.Base.{
  Text, ◌≡◌, ◌⊎◌, refl, inl, inr, Bool, true, false, Bool-cases, Option, some, codes, ◌++◌, length,
  arith,
}
use neutun.Str.{Unicode}
use neutun.Str.Numbers.{show, show_onto}
use neutun.Table
use neutun.Channel.{Sender, unbounded}
use neutun.Protocol.{StreamId}
use neutun.Server.{ConnectedClient, Server}
use neutun.Server.Config.{Config}
use neutun.Remote.Peek.{Request, Peeked, with_host, healthy, dropped, peek_http_request_host}
use neutun.Remote.Accept.{
  Route, hello_world, invalid_host, to_control, not_found, error_locating, to_instance, to_client,
  route, open_route, open_stream, accept_connection,
}
use neutun.Remote.Stream.{http_not_found_response}
use neutun.Remote.Connect.{
  Peer, control, Connection, closed, answered, joined, streamed, direct_to_control, proxy_stream,
  follow, serve_peeked, serve_connection, http_hello_world_response, http_invalid_host_response,
  http_error_locating_host_response, http_ok_response, http_error_proxying_tunnel_response, opened,
}

-- A whole HTTP response: the status, the length of the body, and the body.
pub record IsResponse (status t : Text) : Type 0 where
  pub body : Text
  pub written :
      t
      ≡ codes "HTTP/1.1 "
        ++ (status
            ++ (codes "\r\nContent-Length: " ++ (show (length body) ++ (codes "\r\n\r\n" ++ body))))

hello-IsResponse : IsResponse (codes "200 OK") http_hello_world_response
unfolding show show_onto
hello-IsResponse = record { body = codes "Hello World!"; written = refl }

invalid-IsResponse : IsResponse (codes "400") http_invalid_host_response
unfolding show show_onto
invalid-IsResponse = record { body = codes "Error: Invalid Hostname"; written = refl }

not_found-IsResponse : IsResponse (codes "404") http_not_found_response
unfolding show show_onto
not_found-IsResponse = record { body = codes "Error: Tunnel Not Found"; written = refl }

locating-IsResponse : IsResponse (codes "500") http_error_locating_host_response
unfolding show show_onto
locating-IsResponse = record { body = codes "Error: Error finding tunnel"; written = refl }

proxying-IsResponse : IsResponse (codes "500") http_error_proxying_tunnel_response
unfolding show show_onto
proxying-IsResponse = record { body = codes "Error: Error proxying tunnel"; written = refl }

ok-IsResponse : IsResponse (codes "200 OK") http_ok_response
unfolding show show_onto
ok-IsResponse = record { body = codes "ok"; written = refl }

module _ (config : Config) (connects : Peer → Bool) (stream_id : StreamId) (tx : Sender)
    (s : Server) where
  -- An answer of this status, and nothing else happens.
  abbrev pub Answered : Text → Connection × Server → Type 0
  Answered status out = (t : Text) × IsResponse status t × (out ≡ (answered t, s))

  -- The peer is joined if it can be connected to, and else `refused` holds.
  abbrev pub Joined : Peer → Type 0 → Connection × Server → Type 0
  Joined peer refused out =
      ((connects peer ≡ true) × (out ≡ (joined peer, s))) ⊎ ((connects peer ≡ false) × refused)

  -- A new stream of the client `c` is active with an empty channel, and the clients stay.
  pub record IsStreamed (c : ConnectedClient) (out : Connection × Server) : Type 0 where
    pub connection : out.0 ≡ streamed (record { id = stream_id; client = c; tx = tx })
    pub clients : out.1.clients ≡ s.clients
    pub hosts : out.1.hosts ≡ s.hosts
    pub active :
        Table.get stream_id out.1.active_streams
        ≡ some (record { id = stream_id; client = c; tx = tx })
    pub empty : out.1.pipes tx ≡ unbounded

  -- What a connection comes to, by where its host leads.
  abbrev pub IsRouted : Route → Connection × Server → Type 0
  IsRouted hello_world out = Answered (codes "200 OK") out
  IsRouted invalid_host out = Answered (codes "400") out
  IsRouted to_control out = Joined (control config.control_port) (out ≡ (closed, s)) out
  IsRouted not_found out = Answered (codes "404") out
  IsRouted error_locating out = Answered (codes "500") out
  IsRouted (to_instance i) out =
      Joined (Peer.instance_at i config.remote_port) (Answered (codes "500") out) out
  IsRouted (to_client c) out = IsStreamed c out

  -- What a connection comes to, by what is peeked.
  abbrev pub IsServed : Peeked → Connection × Server → Type 0
  IsServed dropped out = out ≡ (closed, s)
  IsServed healthy out = Answered (codes "200 OK") out
  IsServed (with_host host forwarded_for) out = IsRouted (route config host s) out

  abbrev opened_by : Route → Connection × Server
  opened_by r =
      let (stream, s') = open_route r stream_id tx s in (follow config connects r stream, s')

  opened_by-IsRouted : (r : Route) → IsRouted r (opened_by r)
  unfolding follow direct_to_control proxy_stream opened
  opened_by-IsRouted hello_world = (_, hello-IsResponse, refl)
  opened_by-IsRouted invalid_host = (_, invalid-IsResponse, refl)
  opened_by-IsRouted to_control = elim (Bool-cases (connects (control config.control_port))) [
    | inl up ↦ inl (up, ground arith)
    | inr down ↦ inr (down, ground arith)
  ]
  opened_by-IsRouted not_found = (_, not_found-IsResponse, refl)
  opened_by-IsRouted error_locating = (_, locating-IsResponse, refl)
  opened_by-IsRouted (to_instance i) =
      elim (Bool-cases (connects (Peer.instance_at i config.remote_port))) [
        | inl up ↦ inl (up, ground arith)
        | inr down ↦ inr (down, (_, proxying-IsResponse, ground arith))
      ]
  opened_by-IsRouted (to_client c) =
      let stream = (open_stream c stream_id tx s).0 in
      record {
        connection = refl;
        clients = refl;
        hosts = refl;
        active = ground (arith, Table.get-insert stream_id stream_id stream s.active_streams);
        empty = ground arith;
      }

  serve_peeked-IsServed :
      (p : Peeked) → IsServed p (serve_peeked config connects p stream_id tx s)
  unfolding serve_peeked accept_connection
  serve_peeked-IsServed (with_host host forwarded_for) = opened_by-IsRouted (route config host s)
  serve_peeked-IsServed healthy = (_, ok-IsResponse, refl)
  serve_peeked-IsServed dropped = refl

-- Whatever a user sends, and whoever can be connected to: a connection in which no host is found is
-- closed without an answer, and a health check is answered 200. Else what happens is as `route` says
-- of its host: the root is answered 200, an invalid host 400, an unknown one 404, a failed look-up
-- 500; one for the control server is joined to it, or closed if that is down; one for another
-- instance is joined to it, or answered 500 if that is down. Every answer is a whole response whose
-- length is that of its body, and in all these cases the state stays as it is. If the host leads to
-- a client, a new stream of that client, with an empty channel, is active, and no client is added or
-- removed.
pub serve_connection-IsServed :
    (config : Config) (connects : Peer → Bool) (u : Unicode) (parse : Text → Option Request)
    (bytes : Option Text) (stream_id : StreamId) (tx : Sender) (s : Server)
    → IsServed config connects stream_id tx s
        (peek_http_request_host u parse bytes)
        (serve_connection config connects u parse bytes stream_id tx s)
unfolding serve_connection
serve_connection-IsServed config connects u parse bytes stream_id tx s =
    serve_peeked-IsServed config connects stream_id tx s (peek_http_request_host u parse bytes)
