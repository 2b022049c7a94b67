-- ===== src/Remote/Stream/Mux.antt =====
-- The turns of many users' tasks, in any order.
use neutun.Base.{Text, ◌≡◌, ◌≢◌, sym, ap, ◌∙◌, true, none, List, [], ◌∷◌, ◌++◌, map, arith, All}
use mathlib.Core.List.{append_assoc, append-nil}
use neutun.Protocol.{ControlPacket, stream_data}
use neutun.Protocol.Pieces.{Piece, packet}
use neutun.Server.{ConnectedClient, ActiveStream, Server}
use neutun.Server.Connections.{get}
use neutun.Control.Client.{after}
use neutun.Remote.Stream.{bytes, process_tcp_stream}
use neutun.Remote.Stream.Upload.{IsOpenFor, queued, turn_bytes}

-- Whose turn it is, and what its socket yields.
abbrev pub Schedule : Type 0
Schedule = List (ActiveStream × Text)

abbrev pub piece_of : ActiveStream × Text → Piece
piece_of (stream, chunk) = (stream.id, chunk)

abbrev pub sent_pieces : Schedule → List Piece
sent_pieces ts = map piece_of ts

unfoldable pub read_turns : Schedule → Server → Server
read_turns [] s = s
read_turns ((stream, chunk) ∷ ts) s =
    read_turns ts (after (process_tcp_stream stream (bytes chunk) s))

module _ (c : ConnectedClient) where
  open_for :
      (stream : ActiveStream) (ps : List ControlPacket) (s : Server)
      → stream.client ≡ c
      → get c.id s ≢ none
      → s.controls c.tx ≡ record { queue = ps; is_open = true }
      → IsOpenFor stream s
  open_for stream ps s mine known waits = (
    λ e. known (ap (λ x. get x.id s) (sym mine) ∙ e),
    ap (λ x. (s.controls x.tx).is_open) mine ∙ ap (λ q. q.is_open) waits,
  )

  queued-controls :
      (stream : ActiveStream) (ps qs : List ControlPacket) (s : Server)
      → stream.client ≡ c
      → s.controls c.tx ≡ record { queue = ps; is_open = true }
      → (queued stream qs s).controls c.tx ≡ record { queue = ps ++ qs; is_open = true }
  queued-controls stream ps qs s mine waits = ground (arith, mine, waits)

  -- All that the users of a client send is queued for it in the order of the turns.
  pub read_turns-packet :
      (ts : Schedule) (ps : List ControlPacket) (s : Server)
      → All (λ t. t.0.client ≡ c) ts
      → get c.id s ≢ none
      → s.controls c.tx ≡ record { queue = ps; is_open = true }
      → (read_turns ts s).controls c.tx
        ≡ record { queue = ps ++ map packet (sent_pieces ts); is_open = true }
  unfolding read_turns
  read_turns-packet [] ps s mine known waits =
      waits ∙ ap (λ q. record { queue = q; is_open = true }) (sym (append-nil ps))
  read_turns-packet ((stream, chunk) ∷ ts) ps s (mine, rest) known waits =
      let one = stream_data stream.id chunk ∷ [] in
      let s' = queued stream one s in
      let turn = turn_bytes stream chunk s (open_for stream ps s mine known waits) in
      ap (λ t. (read_turns ts (after t)).controls c.tx) turn
      ∙ read_turns-packet ts (ps ++ one) s' rest (unfold get in known)
          (queued-controls stream ps one s mine waits)
      ∙ ap (λ q. record { queue = q; is_open = true })
          (append_assoc ps one (map packet (sent_pieces ts)))
