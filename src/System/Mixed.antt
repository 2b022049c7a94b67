-- ===== src/System/Mixed.antt =====
-- Many streams at once over one websocket, in both directions.
use neutun.Base.{
  ℕ, ◌<◌, ◌≤◌, ◌≡◌, ◌≢◌, ap, ◌∙◌, Bool, true, none, some, List, [], ◌++◌, map, length, length-map,
  arith, All,
}
use neutun.Channel.{Sender}
use neutun.Protocol.{StreamId}
use neutun.Protocol.Pieces.{Piece, packet, data_of, length-data_of}
use neutun.Protocol.Wire.{serialize}
use neutun.Server.{ConnectedClient, ActiveStream, payload, Server}
use neutun.Server.Connections.{get}
use neutun.Remote.Stream.Mux.{Schedule, piece_of, sent_pieces, read_turns, read_turns-packet}
use neutun.Client.Tunnel.Mux.{local_turns, local_turns-packet}
use neutun.Remote.Stream.Download.{write_all, concat, write_all-open}
use neutun.Control.Sink.Turns.{tunnel_client_all, tunnel_client_all-serialize}
use neutun.Control.Client.Forward.All.{process_client_messages}
use neutun.Control.Client.Forward.Demux as Users
use neutun.Client.Tunnel as Local
use neutun.Client.Tunnel.{Client, Attempt, process_messages, end_task}
use neutun.Client.Tunnel.Demux as Locals
use neutun.Client.Introspect.Copies.{forward_all, forward_all-chunks}
use neutun.Client.Wormhole.Writing.{write_packets, write_packets-serialize}
use neutun.System.Exchange.{end_task-queue}

-- Whatever users of one client send at the same time, in whatever order their turns come: within as
-- many turns of the other tasks as there are pieces, each of its streams writes to the local service
-- exactly the bytes that the user of that stream sent, in order, up to the end of the stream, and no
-- message fails; if the client is registered, its channel is open and nothing waits in it, each
-- stream is known to the client and has a channel of its own, and nothing waits for the stream that
-- is looked at.
pub forward_all-read_turns :
    (at : StreamId → Sender) (sid : StreamId) (ts : Schedule) (c : ConnectedClient) (s : Server)
    (use_tls : Bool) (attempt : Attempt) (tx tunnel_tx : Sender) (client : Client) (sends turns : ℕ)
    → All (λ t. t.0.client ≡ c) ts
    → get c.id s ≢ none
    → s.controls c.tx ≡ record { queue = []; is_open = true }
    → All (Locals.Fits at sid client) (sent_pieces ts)
    → client.streams (at sid) ≡ record { queue = []; is_open = true }
    → length ts ≤ sends
    → length ts < turns
    → let sent = tunnel_client_all sends c (read_turns ts s) in
      let heard = process_messages use_tls attempt tx tunnel_tx sent.0 client in
      (heard.0 ≡ none)
      × ((forward_all turns (at sid) (end_task (some (at sid)) sid heard.1)).0
          ≡ concat (data_of sid (sent_pieces ts)))
forward_all-read_turns at sid ts c s use_tls attempt tx tunnel_tx client sends turns mine known
      waits fits idle e1 e2 =
    let ps = sent_pieces ts in
    let many = length-map piece_of ts in
    let heard =
      process_messages use_tls attempt tx tunnel_tx (map serialize (map packet ps)) client in
    let (fine, _, all) =
      Locals.process_messages-data_of at sid use_tls attempt tx tunnel_tx ps client fits in
    let queued = end_task-queue sid (at sid) (data_of sid ps) heard.1 (
      all
      ∙ ap
          (λ q. record {
            queue = q.queue ++ map Local.payload (data_of sid ps);
            is_open = q.is_open;
          })
          idle) in
    let written =
      forward_all-chunks (data_of sid ps) turns (at sid) true (end_task (some (at sid)) sid heard.1)
        (omega (arith, length-data_of sid ps, many)) queued in
    let sent =
      tunnel_client_all-serialize c (map packet ps) sends (read_turns ts s)
        (omega (arith, length-map packet ps, many))
        (read_turns-packet c ts [] s mine known waits) in
    rw sent (fine, ap (λ r. r.0) written)

-- Whatever the local service answers on many streams at the same time, in whatever order the turns
-- come: within as many turns of the other tasks as there are pieces, each user is written exactly the
-- bytes that were answered on their own stream, in order; if no piece is empty, the tunnel of the
-- client is open and nothing waits in it, each stream is active and has a channel of its own, and
-- nothing waits for the stream that is looked at.
pub write_all-local_turns :
    (named : StreamId → ActiveStream) (sid : StreamId) (ps : List Piece) (c : ConnectedClient)
    (s : Server) (tunnel_tx : Sender) (client : Client) (written turns : ℕ)
    → All (λ p. p.1 ≢ []) ps
    → client.tunnel tunnel_tx ≡ record { queue = []; is_open = true }
    → All (Users.Fits named sid s) ps
    → s.pipes (named sid).tx ≡ record { queue = []; is_open = true }
    → length ps ≤ written
    → length ps < turns
    → let messages = write_packets written tunnel_tx (local_turns tunnel_tx ps client) in
      (write_all turns (named sid) (process_client_messages c messages s)).0
      ≡ concat (data_of sid ps)
write_all-local_turns named sid ps c s tunnel_tx client written turns full waits fits idle e1 e2 =
    let messages =
      write_packets-serialize (map packet ps) written tunnel_tx true
        (local_turns tunnel_tx ps client) (omega (arith, length-map packet ps))
        (local_turns-packet tunnel_tx ps [] client full waits) in
    let heard =
      Users.process_client_messages-data_of named sid c ps s fits
      ∙ ap (λ q. record { queue = q.queue ++ map payload (data_of sid ps); is_open = q.is_open })
          idle in
    ap (λ ms. (write_all turns (named sid) (process_client_messages c ms s)).0) messages
    ∙ write_all-open (named sid) (data_of sid ps) turns
        (process_client_messages c (map serialize (map packet ps)) s) heard
        (omega (arith, length-data_of sid ps))
