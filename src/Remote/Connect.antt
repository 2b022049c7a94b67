-- ===== src/Remote/Connect.antt =====
-- A connection of an end user as a whole: `accept_connection` with what it peeks, answers and joins,
-- `direct_to_control`, and neutun_server/src/network/proxy.rs.
pub mod Served
use neutun.Base.{
  ℕ, Text, if◌then◌else◌, Bool, true, false, Option, none, some, String, codes, List, [], ◌∷◌,
}
use neutun.Str.{Unicode}
use neutun.Channel.{Sender}
use neutun.Protocol.{StreamId}
use neutun.Network.{Instance}
use neutun.Server.{ConnectedClient, ActiveStream, Server}
use neutun.Server.Config.{Config}
use neutun.Remote.Peek.{Request, Peeked, with_host, healthy, dropped, peek_http_request_host}
use neutun.Remote.Accept.{
  Route, hello_world, invalid_host, to_control, not_found, error_locating, to_instance, to_client,
  accept_connection,
}
use neutun.Remote.Stream.{http_not_found_response}

abbrev pub http_hello_world_response : Text
http_hello_world_response = codes "HTTP/1.1 200 OK\r\nContent-Length: 12\r\n\r\nHello World!"

abbrev pub http_invalid_host_response : Text
http_invalid_host_response =
    codes "HTTP/1.1 400\r\nContent-Length: 23\r\n\r\nError: Invalid Hostname"

abbrev pub http_error_locating_host_response : Text
http_error_locating_host_response =
    codes "HTTP/1.1 500\r\nContent-Length: 27\r\n\r\nError: Error finding tunnel"

abbrev pub http_ok_response : Text
http_ok_response = codes "HTTP/1.1 200 OK\r\nContent-Length: 2\r\n\r\nok"

abbrev pub http_error_proxying_tunnel_response : Text
http_error_proxying_tunnel_response =
    codes "HTTP/1.1 500\r\nContent-Length: 28\r\n\r\nError: Error proxying tunnel"

-- Where a socket is connected to: the control server on this machine, or the remote port of another
-- instance.
pub data Peer : Type 0 where
  control : ℕ → Peer
  instance_at : Instance → ℕ → Peer

-- What becomes of a user's socket: it is closed with or without an answer, its bytes and those of
-- the peer are copied to each other, or it is a stream of a client.
pub data Connection : Type 0 where
  closed : Connection
  answered : Text → Connection
  joined : Peer → Connection
  streamed : ActiveStream → Connection

module _ (config : Config) (connects : Peer → Bool) where
  unfoldable pub direct_to_control : Connection
  direct_to_control =
      let peer = control config.control_port in if connects peer then joined peer else closed

  unfoldable pub proxy_stream : Instance → Connection
  proxy_stream i =
      let peer = instance_at i config.remote_port in
      if connects peer then joined peer else answered http_error_proxying_tunnel_response

  opened : Option ActiveStream → Connection
  opened none = closed
  opened (some stream) = streamed stream

  follow : Route → Option ActiveStream → Connection
  unfolding direct_to_control proxy_stream opened
  follow hello_world stream = answered http_hello_world_response
  follow invalid_host stream = answered http_invalid_host_response
  follow to_control stream = direct_to_control
  follow not_found stream = answered http_not_found_response
  follow error_locating stream = answered http_error_locating_host_response
  follow (to_instance i) stream = proxy_stream i
  follow (to_client client) stream = opened stream

  serve_peeked : Peeked → StreamId → Sender → Server → Connection × Server
  unfolding follow
  serve_peeked (with_host host forwarded_for) stream_id tx s =
      let (r, stream, s') = accept_connection config host stream_id tx s in (follow r stream, s')
  serve_peeked healthy stream_id tx s = (answered http_ok_response, s)
  serve_peeked dropped stream_id tx s = (closed, s)

  -- From the peeked bytes on.
  unfoldable pub serve_connection :
      Unicode
      → (Text → Option Request)
      → Option Text
      → StreamId
      → Sender
      → Server
      → Connection × Server
  unfolding serve_peeked
  serve_connection u parse peeked stream_id tx s =
      serve_peeked (peek_http_request_host u parse peeked) stream_id tx s
