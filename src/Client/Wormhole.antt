-- ===== src/Client/Wormhole.antt =====
-- `run_wormhole` of neutun/src/main.rs around its reading loop: the connection, what is saved and
-- shown, the task that writes to the websocket, and the rounds of `run_tunnel`.
pub mod Writing
pub mod Rounds
use neutun.Base.{
  ℕ, ◌+◌, ◌*◌, Text, if◌then◌else◌, Bool, true, false, not, Option, none, some, String, codes,
  List, [], ◌∷◌, ◌++◌, Result, ok, err,
}
use mathlib.Core.Option
use neutun.Channel.{Sender, Channel, Received, item, finished, pending, next, put, dropped}
use neutun.Protocol.{ControlPacket}
use neutun.Protocol.Hello.{ServerHello}
use neutun.Protocol.Wire.{serialize}
use neutun.Server.Config.{unwrap_or}
use neutun.Client.Config.{Config, Error, web_socket_error, timeout}
use neutun.Client.Tunnel.{Client}
use neutun.Client.Session.{
  Reply, read_server_hello, Outcome, returned, panicked, Next, retry_after, stop, run_tunnel,
}
use neutun.Client.Saved.{Files, SavedJson, save_last_session}
use neutun.Client.Options.{last_session}
use neutun.Client.Ui.{Screen, did_connect}

-- Whether the control server is connected to by TLS.
unfoldable pub connector : Config → Bool
connector config = not config.control_tls_off

-- Whether the server is reached, whether it takes the hello (the program panics if not), and what it
-- answers.
unfoldable pub connect_to_wormhole :
    (Text → Option ServerHello) → Bool → Bool → Reply → Option (Result (Text × Text) Error)
connect_to_wormhole from_slice false sent reply = some (err web_socket_error)
connect_to_wormhole from_slice true false reply = none
connect_to_wormhole from_slice true true reply = some (read_server_hello from_slice reply)

abbrev join_onto : Text → List Text → Text
join_onto separator [] = []
join_onto separator (t ∷ ts) = separator ++ t ++ join_onto separator ts

unfoldable pub join : Text → List Text → Text
join separator [] = []
join separator (t ∷ ts) = t ++ join_onto separator ts

-- From the answer of the server to the start of the two tasks: the screen, and the files with the
-- session saved. The list of taken domains may not come.
unfoldable pub open_wormhole :
    SavedJson
    → Config
    → ℕ
    → Option (List Text)
    → Result (Text × Text) Error
    → Files
    → Result (Option Screen) Error × Files
open_wormhole j config introspect_port taken (err e) f = (err e, f)
open_wormhole j config introspect_port taken (ok (sub_domain, hostname)) f = (
  ok (
      did_connect config introspect_port sub_domain hostname
        (unwrap_or (Option.map (join (codes ", ")) taken) [])),
  save_last_session j (last_session config) f,
)

-- A turn of the task that writes to the websocket. At its end it drops its receiver, and
-- `run_tunnel` is told the error.
pub data WriteTurn : Type 0 where
  waits : WriteTurn
  writes : Text → Client → WriteTurn
  restarts : Error → Client → WriteTurn

abbrev pub drop_receiver : Sender → Client → Client
drop_receiver tunnel_tx s = record s { tunnel = put tunnel_tx dropped s.tunnel }

unfoldable pub write_received : Sender → Bool → Received ControlPacket → Client → WriteTurn
write_received tunnel_tx taken pending s = waits
write_received tunnel_tx taken finished s = restarts timeout (drop_receiver tunnel_tx s)
write_received tunnel_tx true (item packet rest) s =
    writes (serialize packet) (record s { tunnel = put tunnel_tx rest s.tunnel })
write_received tunnel_tx false (item packet rest) s =
    restarts web_socket_error (drop_receiver tunnel_tx s)

-- `taken` says whether the websocket takes the message.
unfoldable pub write_packet : Sender → Bool → Client → WriteTurn
unfolding write_received
write_packet tunnel_tx taken s = write_received tunnel_tx taken (next (s.tunnel tunnel_tx)) s

-- A round of `run_tunnel`: what `connect_to_wormhole` gives, and how the round ends once the tunnel
-- is open.
abbrev pub Round : Type 0
Round = Option (Result (Text × Text) Error) × Outcome

-- How a round ends: a failed `expect` or error of `connect_to_wormhole` ends it at once.
abbrev pub outcome_of : Round → Outcome
outcome_of (none, later) = panicked
outcome_of (some (err e), later) = returned (err e)
outcome_of (some (ok _), later) = later

-- Whether the tunnel still runs, the configuration of the next round, and the milliseconds slept so
-- far.
pub record Progress : Type 0 where
  pub running : Bool
  pub config : Config
  pub slept : ℕ

after_round : Next → Config → Progress → Progress
after_round stop config rest = record { running = false; config = config; slept = 500 }
after_round (retry_after seconds) config rest = record rest {
  slept = 500 + 1000 * seconds + rest.slept;
}

-- The rounds of `run_tunnel`, each of which sleeps half a second before it connects.
unfoldable pub run_rounds : List Round → Config → Progress
unfolding after_round
run_rounds [] config = record { running = true; config = config; slept = 0 }
run_rounds (round ∷ rounds) config =
    let config' = record config { first_run = false } in
    let rest = run_rounds rounds config' in
    after_round (run_tunnel (outcome_of round)) config' rest
