-- ===== src/System/Exchange.antt =====
-- A request of an end user and its response, through the server and the client and back.
use neutun.Base.{
  ℕ, ◌+◌, ◌<◌, ◌≤◌, Text, Text-discrete, ◌≡◌, ◌≢◌, refl, sym, ap, ◌∙◌, Bool, true, some, none, List,
  [], ◌∷◌, ◌++◌, map, length, length-map, length-append, arith, All,
}
use neutun.Table
use neutun.Channel.{Sender, send}
use neutun.Protocol.{StreamId, ControlPacket, init_stream, stream_data, end_stream}
use neutun.Protocol.Wire.{serialize}
use neutun.Server.{ConnectedClient, ActiveStream, Server}
use neutun.Server.Config.{Config}
use neutun.Server.Connections.{get}
use neutun.Remote.Accept.{Route, to_client, route, open_stream, open_route, accept_connection}
use neutun.Remote.Stream.{bytes, ended}
use neutun.Remote.Stream.Upload.{
  IsOpenFor, queued, process_tcp_stream_all, process_tcp_stream_all-queued,
}
use neutun.Remote.Stream.Download.{write_all, concat}
use neutun.Control.Sink.Turns.{tunnel_client_all, left, tunnel_client_all-serialize}
use neutun.Control.Client.Forward.All.{process_client_messages}
use neutun.Client.Tunnel.{payload, close, Client, Attempt, process_messages, end_task}
use neutun.Client.Tunnel.Flow.{reaches}
use neutun.Client.Tunnel.Local.{read_local}
use neutun.Client.Introspect.Copies.{forward_all, forward_all-chunks}
use neutun.Client.Wormhole.Writing.{write_packets}
use neutun.System.Delivery.{process_messages-process_tcp_stream_all}
use neutun.System.Response.{write_all-read_local}

-- The end of the stream is queued behind its data.
pub end_task-queue :
    (sid : StreamId) (tx : Sender) (chunks : List Text) (s : Client)
    → s.streams tx ≡ record { queue = map payload chunks; is_open = true }
    → (end_task (some tx) sid s).streams tx
      ≡ record { queue = map payload chunks ++ close ∷ []; is_open = true }
unfolding end_task send
end_task-queue sid tx chunks s e = ground arith

accept_connection-to_client :
    (config : Config) (host : Text) (c : ConnectedClient) (sid : StreamId) (tx : Sender)
    (s : Server)
    → route config host s ≡ to_client c
    → accept_connection config host sid tx s
      ≡ (to_client c, some (open_stream c sid tx s).0, (open_stream c sid tx s).1)
unfolding accept_connection
accept_connection-to_client config host c sid tx s e =
    ap (λ (r : Route). (r, (open_route r sid tx s).0, (open_route r sid tx s).1)) e

module _ (c : ConnectedClient) (sid : StreamId) (tx : Sender) (s : Server) (chunk : Text)
    (chunks : List Text) where
  abbrev stream : ActiveStream
  stream = (open_stream c sid tx s).0

  abbrev started : Server
  started = (open_stream c sid tx s).1

  abbrev read : Server
  read = process_tcp_stream_all stream (map bytes (chunk ∷ chunks) ++ ended ∷ []) started

  abbrev packets : List ControlPacket
  packets = init_stream sid ∷ map (stream_data sid) (chunk ∷ chunks) ++ end_stream sid ∷ []

  packets-length : length packets ≡ length chunks + 3
  packets-length = omega (
    arith,
    length-append (map (stream_data sid) (chunk ∷ chunks)) (end_stream sid ∷ []),
    length-map (stream_data sid) (chunk ∷ chunks),
  )

  started-IsOpenFor :
      get c.id s ≢ none
      → s.controls c.tx ≡ record { queue = []; is_open = true }
      → IsOpenFor stream started
  unfolding get
  started-IsOpenFor known idle = (known, ap (λ q. q.is_open) idle)

  read-queued :
      get c.id s ≢ none
      → s.controls c.tx ≡ record { queue = []; is_open = true }
      → read ≡ queued stream packets started
  read-queued known idle =
      process_tcp_stream_all-queued stream (chunk ∷ chunks) started (started-IsOpenFor known idle)

  read-controls :
      get c.id s ≢ none
      → s.controls c.tx ≡ record { queue = []; is_open = true }
      → read.controls c.tx ≡ record { queue = packets; is_open = true }
  read-controls known idle =
      ap (λ t. t.controls c.tx) (read-queued known idle) ∙ ground (arith, idle)

  active : Table.get sid started.active_streams ≡ some stream
  unfolding Text-discrete
  active = ground (arith, Table.get-insert sid sid stream s.active_streams)

  waiting : started.pipes tx ≡ record { queue = []; is_open = true }
  waiting = ground arith

  read-tunnel_client_all :
      (sends : ℕ)
      → get c.id s ≢ none
      → s.controls c.tx ≡ record { queue = []; is_open = true }
      → length chunks + 3 ≤ sends
      → tunnel_client_all sends c read
        ≡ (map serialize (read.controls c.tx).queue, left c [] (queued stream packets started))
  read-tunnel_client_all sends known idle enough =
      let waits = read-controls known idle in
      tunnel_client_all-serialize c packets sends read (omega (arith, packets-length)) waits
      ∙ ap (λ ps. (map serialize ps, left c [] read)) (sym (ap (λ q. q.queue) waits))
      ∙ ap (λ t. (map serialize (read.controls c.tx).queue, left c [] t)) (read-queued known idle)

  -- A user whose host leads to a registered client gets a stream. All that the user sends, in one or
  -- more pieces before it ends, is sent on to the client and written to its local service; and all
  -- that the service answers, in any number of pieces before it ends, is written to the user; both in
  -- order and byte for byte, within so many turns of each task as the pieces need. That is if nothing
  -- else waits in the channel of the client and in its tunnel, the stream's id is new to the client,
  -- and the service can be reached.
  pub accept_connection-exchange :
      (config : Config) (host : Text) (use_tls : Bool) (attempt : Attempt)
      (local_tx tunnel_tx : Sender) (client : Client) (down : List Text)
      (sends local_turns written turns : ℕ)
      → route config host s ≡ to_client c
      → length sid ≡ 8
      → get c.id s ≢ none
      → s.controls c.tx ≡ record { queue = []; is_open = true }
      → Table.get sid client.active_streams ≡ none
      → client.tunnel tunnel_tx ≡ record { queue = []; is_open = true }
      → reaches use_tls attempt ≡ true
      → All (λ t. t ≢ []) down
      → length chunks + 3 ≤ sends
      → length chunks + 1 < local_turns
      → length down ≤ written
      → length down < turns
      → let accepted = accept_connection config host sid tx s in
        let user = map bytes (chunk ∷ chunks) ++ ended ∷ [] in
        let sent = tunnel_client_all sends c (process_tcp_stream_all stream user accepted.2) in
        let heard = process_messages use_tls attempt local_tx tunnel_tx sent.0 client in
        let known = Table.get sid heard.1.active_streams in
        let answer = read_local tunnel_tx sid (map some down ++ some [] ∷ []) heard.1 in
        let messages = write_packets written tunnel_tx answer in
        (accepted.1 ≡ some stream)
        × ((forward_all local_turns local_tx (end_task known sid heard.1)).0
            ≡ concat (chunk ∷ chunks))
        × ((write_all turns stream (process_client_messages c messages sent.1)).0 ≡ concat down)
  accept_connection-exchange config host use_tls attempt local_tx tunnel_tx client down sends
        local_turns written turns routed eight there idle fresh quiet up full e1 e2 e3 e4 =
      let (_, known, all, silent) =
        process_messages-process_tcp_stream_all stream chunk chunks started use_tls attempt local_tx
          tunnel_tx client eight (started-IsOpenFor there idle) (ap (λ q. q.queue) idle) fresh up in
      let heard =
        process_messages use_tls attempt local_tx tunnel_tx
          (map serialize (read.controls c.tx).queue) client in
      let behind = end_task (some local_tx) sid heard.1 in
      let waits = end_task-queue sid local_tx (chunk ∷ chunks) heard.1 all in
      let written_up =
        ap (λ r. r.0)
          (forward_all-chunks (chunk ∷ chunks) local_turns local_tx true behind (omega arith)
            waits) in
      let response =
        write_all-read_local down written turns tunnel_tx sid stream c heard.1
          (left c [] (queued stream packets started)) full e3 e4 eight
          (ap (λ q. q tunnel_tx) silent ∙ quiet) active waiting in
      rw
        (
          accept_connection-to_client config host c sid tx s routed,
          read-tunnel_client_all sends there idle e1,
          known,
        )
        (refl, written_up, response)
