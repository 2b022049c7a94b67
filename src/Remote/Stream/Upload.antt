-- ===== src/Remote/Stream/Upload.antt =====
-- From the user's socket to the client's channel.
use neutun.Base.{Text, ◌≡◌, ◌≢◌, ◌∙◌, ap, true, false, none, List, [], ◌∷◌, ◌++◌, map, arith}
use mathlib.Core.List.{append_assoc}
use mathlib.Core.Path.{fun_ext}
use neutun.Channel.{put, send, close_channel}
use neutun.Protocol.{ControlPacket, init_stream, stream_data, end_stream}
use neutun.Server.{ActiveStream, no_client_tunnel, Server}
use neutun.Server.Connections.{get}
use neutun.Control.Client.{stops, goes_on}
use neutun.Control.Ping.{send_client_stream_init}
use neutun.Remote.Stream.{Read, bytes, ended, process_tcp_stream}

-- The loop of `process_tcp_stream` over what the socket yields.
unfoldable pub read_all : ActiveStream → List Read → Server → Server
read_all stream [] s = s
read_all stream (r ∷ rs) s = elim (process_tcp_stream stream r s) [
  | stops s' ↦ s'
  | goes_on s' ↦ read_all stream rs s'
]

-- The whole task: the init message, and the loop.
unfoldable pub process_tcp_stream_all : ActiveStream → List Read → Server → Server
unfolding read_all
process_tcp_stream_all stream reads s = read_all stream reads (send_client_stream_init stream s)

abbrev pub IsOpenFor : ActiveStream → Server → Type 0
IsOpenFor stream s =
    (get stream.client.id s ≢ none) × ((s.controls stream.client.tx).is_open ≡ true)

-- The state with more packets in the client's channel.
abbrev pub queued : ActiveStream → List ControlPacket → Server → Server
queued stream ps s =
    let c = s.controls stream.client.tx in
    record s { controls = put stream.client.tx (record c { queue = c.queue ++ ps }) s.controls }

module _ (stream : ActiveStream) where
  pub turn_bytes :
      (chunk : Text) (s : Server)
      → IsOpenFor stream s
      → process_tcp_stream stream (bytes chunk) s
        ≡ goes_on (queued stream (stream_data stream.id chunk ∷ []) s)
  unfolding process_tcp_stream send
  turn_bytes chunk s (known, reads) = ground arith

  turn_ended :
      (s : Server)
      → IsOpenFor stream s
      → process_tcp_stream stream ended s ≡ stops (queued stream (end_stream stream.id ∷ []) s)
  unfolding process_tcp_stream send
  turn_ended s (known, reads) = ground arith

  init_queued :
      (s : Server)
      → IsOpenFor stream s
      → send_client_stream_init stream s ≡ queued stream (init_stream stream.id ∷ []) s
  unfolding send_client_stream_init send
  init_queued s (known, reads) = ground arith

  queued-IsOpenFor :
      (ps : List ControlPacket) (s : Server)
      → IsOpenFor stream s
      → IsOpenFor stream (queued stream ps s)
  unfolding get
  queued-IsOpenFor ps s (known, reads) = (known, ground arith)

  queued-queued :
      (ps qs : List ControlPacket) (s : Server)
      → queued stream qs (queued stream ps s) ≡ queued stream (ps ++ qs) s
  queued-queued ps qs s =
      ap (λ cs. record s { controls = cs })
        (fun_ext λ n. ground (arith, append_assoc (s.controls stream.client.tx).queue ps qs))

  read_all-goes_on :
      (r : Read) (rs : List Read) (s s' : Server)
      → process_tcp_stream stream r s ≡ goes_on s'
      → read_all stream (r ∷ rs) s ≡ read_all stream rs s'
  unfolding read_all
  read_all-goes_on r rs s s' e = rw (e, read_all)

  read_all-stops :
      (r : Read) (rs : List Read) (s s' : Server)
      → process_tcp_stream stream r s ≡ stops s'
      → read_all stream (r ∷ rs) s ≡ s'
  unfolding read_all
  read_all-stops r rs s s' e = rw (e, read_all)

  read_all-queued :
      (chunks : List Text) (s : Server)
      → IsOpenFor stream s
      → read_all stream (map bytes chunks ++ ended ∷ []) s
        ≡ queued stream (map (stream_data stream.id) chunks ++ end_stream stream.id ∷ []) s
  read_all-queued [] s o = read_all-stops ended [] s _ (turn_ended s o)
  read_all-queued (chunk ∷ chunks) s o =
      read_all-goes_on (bytes chunk) (map bytes chunks ++ ended ∷ []) s _ (turn_bytes chunk s o)
      ∙ read_all-queued chunks _ (queued-IsOpenFor (stream_data stream.id chunk ∷ []) s o)
      ∙ queued-queued (stream_data stream.id chunk ∷ []) _ s

  -- What a user sends, in however many pieces, is queued for the client of the stream, if that is
  -- registered and its channel open: an init packet, one data packet for each piece, in order and
  -- byte for byte, and an end packet. Nothing else changes.
  pub process_tcp_stream_all-queued :
      (chunks : List Text) (s : Server)
      → IsOpenFor stream s
      → process_tcp_stream_all stream (map bytes chunks ++ ended ∷ []) s
        ≡ queued stream
            (init_stream stream.id ∷ map (stream_data stream.id) chunks
              ++ end_stream stream.id ∷ [])
            s
  unfolding process_tcp_stream_all
  process_tcp_stream_all-queued chunks s o = rw (init_queued s o) (
      read_all-queued chunks _ (queued-IsOpenFor (init_stream stream.id ∷ []) s o)
      ∙ queued-queued (init_stream stream.id ∷ []) _ s)

  -- If the client is no longer registered, the task ends at its next turn, whatever it reads: the
  -- user's side is told that there is no tunnel, and its queue is closed behind that message.
  pub process_tcp_stream-unregistered :
      (read : Read) (s : Server)
      → get stream.client.id s ≡ none
      → (s.pipes stream.tx).is_open ≡ true
      → process_tcp_stream stream read s
        ≡ stops (record s {
          pipes =
              put stream.tx
                (record {
                  queue = (s.pipes stream.tx).queue ++ no_client_tunnel ∷ [];
                  is_open = false;
                })
                s.pipes;
        })
  unfolding process_tcp_stream send close_channel
  process_tcp_stream-unregistered read s gone reads =
      rw (gone, process_tcp_stream)
        (ap (λ ps. stops (record s { pipes = ps })) (fun_ext λ n. ground arith))
