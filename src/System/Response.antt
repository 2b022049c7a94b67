-- ===== src/System/Response.antt =====
-- What the local service answers, from the client's socket to the end user's.
use neutun.Base.{
  ℕ, ◌<◌, ◌≤◌, Text, ◌≡◌, ◌≢◌, ap, ◌∙◌, true, some, List, [], ◌∷◌, ◌++◌, map, length, length-map,
  arith, All,
}
use neutun.Table
use neutun.Channel.{Sender}
use neutun.Protocol.{StreamId, stream_data}
use neutun.Protocol.Wire.{serialize}
use neutun.Server.{ConnectedClient, ActiveStream, payload, Server}
use neutun.Control.Client.Forward.All.{process_client_messages, process_client_messages-stream_data}
use neutun.Remote.Stream.Download.{write_all, concat, write_all-open}
use neutun.Client.Tunnel.{Client}
use neutun.Client.Tunnel.Local.{read_local, read_local-stream_data}
use neutun.Client.Wormhole.Writing.{write_packets, write_packets-serialize}

-- What the local service writes in any number of pieces before it ends is read by the client,
-- written to the websocket by the client's writing task, read by the server and written to the
-- socket of the end user, in order and byte for byte, within as many turns of each writer as there
-- are pieces: if the client's tunnel is open and nothing waits in it, and the stream is active at
-- the server, its reader is there and nothing waits for it.
pub write_all-read_local :
    (chunks : List Text) (written turns : ℕ) (tunnel_tx : Sender) (sid : StreamId)
    (stream : ActiveStream) (client : ConnectedClient) (local : Client) (s : Server)
    → All (λ c. c ≢ []) chunks
    → length chunks ≤ written
    → length chunks < turns
    → length sid ≡ 8
    → local.tunnel tunnel_tx ≡ record { queue = []; is_open = true }
    → Table.get sid s.active_streams ≡ some stream
    → s.pipes stream.tx ≡ record { queue = []; is_open = true }
    → let local' = read_local tunnel_tx sid (map some chunks ++ some [] ∷ []) local in
      let messages = write_packets written tunnel_tx local' in
      (write_all turns stream (process_client_messages client messages s)).0 ≡ concat chunks
write_all-read_local chunks written turns tunnel_tx sid stream client local s full wrote enough
      eight idle known waiting =
    let local' = read_local tunnel_tx sid (map some chunks ++ some [] ∷ []) local in
    let packets =
      read_local-stream_data tunnel_tx sid chunks local full (ap (λ c. c.is_open) idle)
      ∙ ap (λ c. c.queue ++ map (stream_data sid) chunks) idle in
    let messages =
      write_packets-serialize (map (stream_data sid) chunks) written tunnel_tx
        (local'.tunnel tunnel_tx).is_open local'
        (omega (arith, length-map (stream_data sid) chunks))
        (λ i. record { queue = packets i; is_open = (local'.tunnel tunnel_tx).is_open }) in
    let heard =
      process_client_messages-stream_data client sid stream eight chunks s known
        (ap (λ c. c.is_open) waiting)
      ∙ ap (λ c. record { queue = c.queue ++ map payload chunks; is_open = true }) waiting in
    ap (λ q. (write_all turns stream (process_client_messages client q s)).0) messages
    ∙ write_all-open stream chunks turns
        (process_client_messages client (map serialize (map (stream_data sid) chunks)) s) heard
        enough
