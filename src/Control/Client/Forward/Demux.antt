-- ===== src/Control/Client/Forward/Demux.antt =====
-- Data packets of many streams, from the socket of a client to the users' channels.
use neutun.Base.{
  Text, Text-discrete, ◌≡◌, sym, ap, ◌∙◌, true, some, List, [], ◌∷◌, ◌++◌, map, length, arith, All,
  All-map,
}
use mathlib.Core.List.{append_assoc, append-nil}
use neutun.Table
use neutun.Protocol.{StreamId, stream_data}
use neutun.Protocol.Pieces.{Piece, packet, data_of}
use neutun.Protocol.Wire.{serialize}
use neutun.Server.{ConnectedClient, ActiveStream, StreamMessage, payload, Server}
use neutun.Control.Client.Forward.All.{process_client_messages, piped, one_turn, messages-goes_on}

-- `named` says which stream has an id; `sid` is the stream that is looked at.
module _ (named : StreamId → ActiveStream) (sid : StreamId) where
  -- The stream of a piece is active, its reader is there, and it shares its channel with no other.
  pub record Fits (s : Server) (p : Piece) : Type 0 where
    pub eight : length p.0 ≡ 8
    pub active : Table.get p.0 s.active_streams ≡ some (named p.0)
    pub reads : (s.pipes (named p.0).tx).is_open ≡ true
    pub apart : (named p.0).tx ≡ (named sid).tx → p.0 ≡ sid

  piped-Fits :
      (stream : ActiveStream) (ms : List StreamMessage) (s : Server) (p : Piece)
      → Fits s p
      → Fits (piped stream ms s) p
  piped-Fits stream ms s p h = record {
    eight = h.eight;
    active = h.active;
    reads = ground (arith, h.reads);
    apart = h.apart;
  }

  abbrev queue : Server → List StreamMessage
  queue s = (s.pipes (named sid).tx).queue

  piped-queue :
      (s : Server) (k : StreamId) (bytes : Text) (ps : List Piece)
      → Fits s (k, bytes)
      → queue (piped (named k) (payload bytes ∷ []) s) ++ map payload (data_of sid ps)
        ≡ queue s ++ map payload (data_of sid ((k, bytes) ∷ ps))
  unfolding data_of
  piped-queue s k bytes ps h = elim (Text-discrete k sid) [
    | yes same ↦
        ground
          (arith, same, append_assoc (queue s) (payload bytes ∷ []) (map payload (data_of sid ps)))
    | no other ↦ ground (arith, h.apart)
  ]

  piped-is_open :
      (s : Server) (k : StreamId) (bytes : Text)
      → ((piped (named k) (payload bytes ∷ []) s).pipes (named sid).tx).is_open
        ≡ (s.pipes (named sid).tx).is_open
  piped-is_open s k bytes = ground arith

  -- However the pieces of many streams are mixed in what a client sends: if every stream is active
  -- and has a channel of its own, each user's channel gets exactly the pieces of its stream, in
  -- order, behind what waits in it.
  pub process_client_messages-data_of :
      (client : ConnectedClient) (ps : List Piece) (s : Server)
      → All (Fits s) ps
      → (process_client_messages client (map serialize (map packet ps)) s).pipes (named sid).tx
        ≡ record {
          queue = (s.pipes (named sid).tx).queue ++ map payload (data_of sid ps);
          is_open = (s.pipes (named sid).tx).is_open;
        }
  unfolding process_client_messages
  process_client_messages-data_of client [] s h =
      unfold data_of in
      (λ i. record {
        queue = sym (append-nil (queue s)) i;
        is_open = (s.pipes (named sid).tx).is_open;
      })
  process_client_messages-data_of client ((k, bytes) ∷ ps) s (here, h) =
      let s' = piped (named k) (payload bytes ∷ []) s in
      let later = All-map (Fits s) (Fits s') ps (piped-Fits (named k) (payload bytes ∷ []) s) h in
      ap (λ t. t.pipes (named sid).tx)
        (messages-goes_on client k (named k) here.eight (serialize (stream_data k bytes))
          (map serialize (map packet ps)) s s'
          (one_turn client k (named k) here.eight bytes s here.active here.reads))
      ∙ process_client_messages-data_of client ps s' later
      ∙ (λ i. record {
        queue = piped-queue s k bytes ps here i;
        is_open = piped-is_open s k bytes i;
      })
