-- ===== src/Client/Session.antt =====
-- `connect_to_wormhole`, the reading loop of `run_wormhole`, and `run_tunnel` of neutun/src/main.rs.
pub mod Keyless
pub mod Lost
use neutun.Base.{ℕ, Text, Bool, false, Option, none, some, Result, ok, err}
use neutun.Codecs.{Codecs}
use neutun.Channel.{Sender}
use neutun.Protocol.{ReconnectToken, ControlPacket}
use neutun.Protocol.Hello.{
  SecretKey, ClientHello, ClientType, anonymous, auth, generate, reconnect, ServerHello, success,
  sub_domain_in_use, invalid_sub_domain, auth_failed, error,
}
use neutun.Client.Config.{
  Config, Error, web_socket_error, authentication_failed, malformed_message_from_server,
  invalid_sub_domain as invalid, sub_domain_in_use as in_use, server_reply_invalid,
  no_response_from_server, timeout, server_error,
}
use neutun.Client.Tunnel.{Attempt, Client, FlowError, process_control_flow_message}

module _ (k : Codecs) (random : Text) where
  keyless_hello : Config → Option ReconnectToken → ClientHello
  unfolding generate reconnect
  keyless_hello config (some token) = reconnect k random token config.wildcard
  keyless_hello config none =
      generate k random config.sub_domain config.domain anonymous config.wildcard

  hello_of : Config → Option SecretKey → Option ReconnectToken → ClientHello
  unfolding keyless_hello
  hello_of config (some key) token =
      generate k random config.sub_domain config.domain (auth key) config.wildcard
  hello_of config none token = keyless_hello config token

  -- The hello of a client; the token is what `RECONNECT_TOKEN` holds.
  unfoldable pub client_hello : Config → Option ReconnectToken → ClientHello
  unfolding hello_of
  client_hello config token = hello_of config config.secret_key token

-- The sub-domain and the host name that the server gives.
unfoldable pub server_reply : ServerHello → Result (Text × Text) Error
server_reply (success sub_domain hostname client_id) = ok (sub_domain, hostname)
server_reply auth_failed = err authentication_failed
server_reply invalid_sub_domain = err invalid
server_reply sub_domain_in_use = err in_use
server_reply (error message) = err (server_error message)

parsed_reply : Option ServerHello → Result (Text × Text) Error
unfolding server_reply
parsed_reply none = err server_reply_invalid
parsed_reply (some hello) = server_reply hello

-- What the websocket yields: nothing at its end, an error, or a message.
pub data Reply : Type 0 where
  no_reply failed : Reply
  message : Text → Reply

unfoldable pub read_server_hello : (Text → Option ServerHello) → Reply → Result (Text × Text) Error
unfolding parsed_reply
read_server_hello from_slice no_reply = err no_response_from_server
read_server_hello from_slice failed = err web_socket_error
read_server_hello from_slice (message bytes) = parsed_reply (from_slice bytes)

-- What the websocket yields once the tunnel is open.
pub data Frame : Type 0 where
  close failed ended : Frame
  message : Text → Frame

-- A turn of the reading loop: it goes on, or `run_wormhole` returns.
pub data Flow : Type 0 where
  goes_on : Client → Flow
  returns : Result (Unit {0}) Error → Client → Flow

after_message : Result ControlPacket FlowError × Client → Flow
after_message (ok _, s) = goes_on s
after_message (err _, s) = returns (err malformed_message_from_server) s

unfoldable pub read_frame : Bool → Attempt → Sender → Sender → Frame → Client → Flow
unfolding after_message
read_frame use_tls attempt tx tunnel_tx close s = returns (ok tt) s
read_frame use_tls attempt tx tunnel_tx failed s = returns (err timeout) s
read_frame use_tls attempt tx tunnel_tx ended s = returns (err timeout) s
read_frame use_tls attempt tx tunnel_tx (message bytes) s =
    after_message (process_control_flow_message use_tls attempt tx tunnel_tx bytes s)

-- How one round of `run_tunnel` ends: `run_wormhole` returns or panics, or something comes from the
-- restart channel.
pub data Outcome : Type 0 where
  returned : Result (Unit {0}) Error → Outcome
  restarted : Option (Option Error) → Outcome
  panicked : Outcome

-- The next round begins after some seconds, or the program ends.
pub data Next : Type 0 where
  retry_after : ℕ → Next
  stop : Next

after_error : Error → Next
after_error web_socket_error = retry_after 5
after_error no_response_from_server = retry_after 5
after_error timeout = retry_after 5
after_error authentication_failed = stop
after_error _ = stop

unfoldable pub run_tunnel : Outcome → Next
unfolding after_error
run_tunnel (returned (err e)) = after_error e
run_tunnel (returned (ok _)) = retry_after 0
run_tunnel (restarted (some e)) = retry_after 3
run_tunnel (restarted none) = retry_after 0
run_tunnel panicked = stop
