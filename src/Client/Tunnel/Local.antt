-- ===== src/Client/Tunnel/Local.antt =====
-- From the local service to the websocket.
use neutun.Base.{
  ℕ, Text, ◌≡◌, ◌≢◌, refl, sym, ap, ◌∙◌, true, Option, some, List, [], ◌∷◌, ◌++◌, map, All, arith,
}
use mathlib.Core.List.{append_assoc, append-nil}
use neutun.Channel.{Sender, put, send}
use neutun.Protocol.{StreamId, ControlPacket, stream_data}
use neutun.Client.Tunnel.{Client, stops, goes_on, panics, send_tunnel, process_local_tcp}

-- The loop of `process_local_tcp` over what the local socket yields.
unfoldable pub read_local : Sender → StreamId → List (Option Text) → Client → Client
read_local tunnel_tx sid [] s = s
read_local tunnel_tx sid (r ∷ rs) s = elim (process_local_tcp tunnel_tx sid r s) [
  | stops s' ↦ s'
  | panics s' ↦ s'
  | goes_on s' ↦ read_local tunnel_tx sid rs s'
]

abbrev pub tunnelled : Sender → List ControlPacket → Client → Client
tunnelled tunnel_tx ps s =
    let c = s.tunnel tunnel_tx in
    record s { tunnel = put tunnel_tx (record c { queue = c.queue ++ ps }) s.tunnel }

module _ (tunnel_tx : Sender) (sid : StreamId) where
  pub one_turn :
      (b : ℕ) (bytes : Text) (s : Client)
      → (s.tunnel tunnel_tx).is_open ≡ true
      → process_local_tcp tunnel_tx sid (some (b ∷ bytes)) s
        ≡ goes_on (tunnelled tunnel_tx (stream_data sid (b ∷ bytes) ∷ []) s)
  unfolding process_local_tcp send_tunnel send
  one_turn b bytes s reads = ground arith

  read_local-goes_on :
      (r : Option Text) (rs : List (Option Text)) (s s' : Client)
      → process_local_tcp tunnel_tx sid r s ≡ goes_on s'
      → read_local tunnel_tx sid (r ∷ rs) s ≡ read_local tunnel_tx sid rs s'
  unfolding read_local
  read_local-goes_on r rs s s' e = rw (e, read_local) refl

  -- Every piece but the end is a data packet.
  pub read_local-stream_data :
      (chunks : List Text) (s : Client)
      → All (λ c. c ≢ []) chunks
      → (s.tunnel tunnel_tx).is_open ≡ true
      → ((read_local tunnel_tx sid (map some chunks ++ some [] ∷ []) s).tunnel tunnel_tx).queue
        ≡ (s.tunnel tunnel_tx).queue ++ map (stream_data sid) chunks
  unfolding read_local process_local_tcp
  read_local-stream_data [] s full reads = sym (append-nil (s.tunnel tunnel_tx).queue)
  read_local-stream_data ([] ∷ chunks) s full reads = absurd (full.0 refl)
  read_local-stream_data ((b ∷ bytes) ∷ chunks) s full reads =
      let s' = tunnelled tunnel_tx (stream_data sid (b ∷ bytes) ∷ []) s in
      ap (λ t. (t.tunnel tunnel_tx).queue)
        (read_local-goes_on (some (b ∷ bytes)) (map some chunks ++ some [] ∷ []) s s'
          (one_turn b bytes s reads))
      ∙ read_local-stream_data chunks s' full.1 (ground (arith, reads))
      ∙ ground (
        arith,
        append_assoc (s.tunnel tunnel_tx).queue (stream_data sid (b ∷ bytes) ∷ [])
            (map (stream_data sid) chunks),
      )
