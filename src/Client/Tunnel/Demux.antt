-- ===== src/Client/Tunnel/Demux.antt =====
-- Data packets of many streams, from the websocket to the local connections.
use neutun.Base.{
  Text, Text-discrete, ◌≡◌, refl, sym, ◌∙◌, Bool, none, List, [], ◌∷◌, ◌++◌, map, length, arith,
  All, All-map,
}
use mathlib.Core.List.{append_assoc, append-nil}
use neutun.Channel.{Sender}
use neutun.Protocol.{StreamId, stream_data}
use neutun.Protocol.Pieces.{Piece, packet, data_of}
use neutun.Protocol.Wire.{serialize}
use neutun.Client.Tunnel.{StreamMessage, payload, Client, Attempt, process_messages}
use neutun.Client.Tunnel.Flow.{IsKnown, queued, known_data, process_messages-ok}

-- `at` says at which place the channel of each stream is; `sid` is the stream that is looked at.
module _ (at : StreamId → Sender) (sid : StreamId) where
  -- The stream of a piece is known, its reader is there, and it shares its channel with no other.
  pub record Fits (s : Client) (p : Piece) : Type 0 where
    pub eight : length p.0 ≡ 8
    pub known : IsKnown p.0 (at p.0) s
    pub apart : at p.0 ≡ at sid → p.0 ≡ sid

  queued-Fits :
      (t : Sender) (ms : List StreamMessage) (s : Client) (p : Piece)
      → Fits s p
      → Fits (queued t ms s) p
  queued-Fits t ms s p h = record {
    eight = h.eight;
    known = record { known = h.known.known; reads = ground (arith, h.known.reads) };
    apart = h.apart;
  }

  abbrev queue : Client → List StreamMessage
  queue s = (s.streams (at sid)).queue

  queued-queue :
      (s : Client) (k : StreamId) (bytes : Text) (ps : List Piece)
      → Fits s (k, bytes)
      → queue (queued (at k) (payload bytes ∷ []) s) ++ map payload (data_of sid ps)
        ≡ queue s ++ map payload (data_of sid ((k, bytes) ∷ ps))
  unfolding data_of
  queued-queue s k bytes ps h = elim (Text-discrete k sid) [
    | yes same ↦
        ground
          (arith, same, append_assoc (queue s) (payload bytes ∷ []) (map payload (data_of sid ps)))
    | no other ↦ ground (arith, h.apart)
  ]

  queued-is_open :
      (s : Client) (k : StreamId) (bytes : Text)
      → ((queued (at k) (payload bytes ∷ []) s).streams (at sid)).is_open
        ≡ (s.streams (at sid)).is_open
  queued-is_open s k bytes = ground arith

  module _ (use_tls : Bool) (attempt : Attempt) (tx tunnel_tx : Sender) where
    -- However the pieces of many streams are mixed in what the server sends: if every stream is
    -- known to the client and has a channel of its own, no message fails, and each stream is queued
    -- exactly its own pieces, in order, behind what waits for it.
    pub process_messages-data_of :
        (ps : List Piece) (s : Client)
        → All (Fits s) ps
        → let r = process_messages use_tls attempt tx tunnel_tx (map serialize (map packet ps)) s in
          (r.0 ≡ none)
          × (r.1.active_streams ≡ s.active_streams)
          × (r.1.streams (at sid) ≡ record {
            queue = (s.streams (at sid)).queue ++ map payload (data_of sid ps);
            is_open = (s.streams (at sid)).is_open;
          })
    unfolding process_messages
    process_messages-data_of [] s h = (
      refl,
      refl,
      unfold data_of in
          (λ i. record {
            queue = sym (append-nil (queue s)) i;
            is_open = (s.streams (at sid)).is_open;
          }),
    )
    process_messages-data_of ((k, bytes) ∷ ps) s (here, h) =
        let s' = queued (at k) (payload bytes ∷ []) s in
        let step =
          process_messages-ok use_tls attempt tx tunnel_tx k here.eight
            (serialize (stream_data k bytes)) (map serialize (map packet ps)) s s'
            (stream_data k bytes)
            (known_data use_tls attempt tx tunnel_tx k here.eight (at k) bytes s here.known) in
        let later = All-map (Fits s) (Fits s') ps (queued-Fits (at k) (payload bytes ∷ []) s) h in
        let (fine, same, all) = process_messages-data_of ps s' later in
        rw step (
          fine,
          same,
          all ∙ (λ i. record {
            queue = queued-queue s k bytes ps here i;
            is_open = queued-is_open s k bytes i;
          }),
        )
