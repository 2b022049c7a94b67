-- ===== src/Control/Ping.antt =====
-- The ping loop of a client, and the init message of a stream.
pub mod Tokens
use neutun.Base.{ℕ, ◌+◌, if◌then◌else◌, Bool, true, false, Option, none, some, Result, ok, err}
use neutun.Channel.{Channels, send}
use neutun.Protocol.{ReconnectToken, ControlPacket, init_stream, ping}
use neutun.Server.{ConnectedClient, ActiveStream, Server}
use neutun.Server.Connections.{remove}
use neutun.Auth.Token.{TokenError, ReconnectTokenPayload, into_token}
use neutun.Auth.Handshake.{Env}
use neutun.Control.Client.{Turn, stops, goes_on}

-- Two minutes, in nanoseconds.
abbrev pub token_life : ℕ
token_life = 120000000000

abbrev pub ok_of : Result ReconnectToken TokenError → Option ReconnectToken
ok_of (ok tok) = some tok
ok_of (err _) = none

unfoldable pub payload_of : ConnectedClient → ℕ → ReconnectTokenPayload
payload_of client now = record {
  sub_domain = client.host;
  client_id = client.id;
  expires = now + token_life;
}

-- Only anonymous clients get a reconnect token.
unfoldable pub reconnect_token : Env → ConnectedClient → ℕ → Option ReconnectToken
unfolding payload_of
reconnect_token env client now =
    if client.is_anonymous
    then ok_of
        (into_token env.codecs env.token_json (payload_of client now) env.config.master_sig_key)
    else none

abbrev pub sent : ConnectedClient → Bool × Channels ControlPacket → Server → Turn
sent client (true, controls) s = goes_on (record s { controls = controls })
sent client (false, controls) s = stops (remove client s)

-- One turn of the loop, up to the sleep of `PING_INTERVAL` seconds.
unfoldable pub send_ping : Env → ConnectedClient → ℕ → Server → Turn
send_ping env client now s =
    sent client (send client.tx (ping (reconnect_token env client now)) s.controls) s

abbrev pub init_sent : ConnectedClient → Bool × Channels ControlPacket → Server → Server
init_sent client (true, controls) s = record s { controls = controls }
init_sent client (false, controls) s = remove client s

unfoldable pub send_client_stream_init : ActiveStream → Server → Server
send_client_stream_init stream s =
    init_sent stream.client (send stream.client.tx (init_stream stream.id) s.controls) s
