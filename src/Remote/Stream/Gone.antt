-- ===== src/Remote/Stream/Gone.antt =====
-- A stream whose client is gone: both directions together.
use neutun.Base.{ℕ, ◌<◌, Text, ◌≡◌, ap, true, false, none, List, [], ◌++◌, map, length, arith}
use neutun.Table
use neutun.Server.{ActiveStream, payload, no_client_tunnel, Server}
use neutun.Server.Connections.{get}
use neutun.Control.Client.{after}
use neutun.Remote.Stream.{Read, process_tcp_stream, http_not_found_response}
use neutun.Remote.Stream.Upload.{process_tcp_stream-unregistered}
use neutun.Remote.Stream.Download.{write_all, concat, no_client, write_all-concat}

-- When the client of a stream is no longer registered and the reading task notices it, whatever it
-- reads, the user still gets all that the client sent before, then the 404 response, and the stream
-- is no longer active, within as many turns as there are messages.
pub write_all-process_tcp_stream :
    (stream : ActiveStream) (read : Read) (chunks : List Text) (turns : ℕ) (s : Server)
    → get stream.client.id s ≡ none
    → s.pipes stream.tx ≡ record { queue = map payload chunks; is_open = true }
    → length chunks < turns
    → let r = write_all turns stream (after (process_tcp_stream stream read s)) in
      (r.0 ≡ concat chunks ++ http_not_found_response)
      × (Table.get stream.id r.1.active_streams ≡ none)
write_all-process_tcp_stream stream read chunks turns s gone waiting enough =
    let e = process_tcp_stream-unregistered stream read s gone (ap (λ c. c.is_open) waiting) in
    rw e (
      write_all-concat stream chunks no_client_tunnel http_not_found_response [] false turns _
        no_client (ground (arith, waiting)) enough)
