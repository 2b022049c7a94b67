-- ===== src/System/Delivery.antt =====
-- What an end user sends, from the server's socket to the client's local service.
use neutun.Base.{
  Text, ◌≡◌, refl, ap, ◌∙◌, Bool, true, none, some, List, [], ◌∷◌, ◌++◌, map, length, arith,
}
use mathlib.Core.List.{map-append}
use neutun.Table
use neutun.Channel.{Sender}
use neutun.Protocol.{ControlPacket, init_stream, stream_data, end_stream}
use neutun.Protocol.Wire.{serialize}
use neutun.Server.{ActiveStream, Server}
use neutun.Remote.Stream.{bytes, ended}
use neutun.Remote.Stream.Upload.{IsOpenFor, process_tcp_stream_all, process_tcp_stream_all-queued}
use neutun.Client.Tunnel.{payload, Client, Attempt, process_messages}
use neutun.Client.Tunnel.Flow.{
  reaches, process_messages-stream, process_messages-append, process_messages-end,
}

module _ (stream : ActiveStream) (chunk : Text) (chunks : List Text) where
  -- The packets that the server queues for the client.
  abbrev pub upload : Server → Server
  upload s = process_tcp_stream_all stream (map bytes (chunk ∷ chunks) ++ ended ∷ []) s

  abbrev opening : List ControlPacket
  opening = init_stream stream.id ∷ map (stream_data stream.id) (chunk ∷ chunks)

  upload-queue :
      (s : Server)
      → IsOpenFor stream s
      → (s.controls stream.client.tx).queue ≡ []
      → ((upload s).controls stream.client.tx).queue ≡ opening ++ end_stream stream.id ∷ []
  upload-queue s o idle =
      let e = process_tcp_stream_all-queued stream (chunk ∷ chunks) s o in
      ap (λ t. (t.controls stream.client.tx).queue) e ∙ ground (arith, idle)

  -- What a user sends in one or more pieces, and then ends, is read from the user's socket, written
  -- to the websocket as packets, read by the client and queued for the local service, in order and
  -- byte for byte; no packet fails and the client sends nothing back: if the server's queue for the client is empty and open and
  -- the client is registered, and if the stream is new to the client and the local service can be
  -- reached.
  pub process_messages-process_tcp_stream_all :
      (s : Server) (use_tls : Bool) (attempt : Attempt) (tx tunnel_tx : Sender) (client : Client)
      → length stream.id ≡ 8
      → IsOpenFor stream s
      → (s.controls stream.client.tx).queue ≡ []
      → Table.get stream.id client.active_streams ≡ none
      → reaches use_tls attempt ≡ true
      → let sent = ((upload s).controls stream.client.tx).queue in
        let r = process_messages use_tls attempt tx tunnel_tx (map serialize sent) client in
        (r.0 ≡ none)
        × (Table.get stream.id r.1.active_streams ≡ some tx)
        × (r.1.streams tx ≡ record { queue = map payload (chunk ∷ chunks); is_open = true })
        × (r.1.tunnel ≡ client.tunnel)
  process_messages-process_tcp_stream_all s use_tls attempt tx tunnel_tx client eight o idle fresh
        up =
      let run = process_messages use_tls attempt tx tunnel_tx in
      let (fine, known, all, quiet) =
        process_messages-stream use_tls attempt tx tunnel_tx stream.id eight chunk chunks client
          fresh up in
      let middle = run (map serialize opening) client in
      let whole =
        ap (λ q. run (map serialize q) client) (upload-queue s o idle)
        ∙ ap (λ ms. run ms client) (map-append serialize opening (end_stream stream.id ∷ []))
        ∙ process_messages-append use_tls attempt tx tunnel_tx stream.id eight
            (map serialize opening) (serialize (end_stream stream.id) ∷ []) client fine
        ∙ process_messages-end use_tls attempt tx tunnel_tx stream.id eight middle.1 in
      rw whole (refl, known, all, quiet)
