-- ===== src/Client/Tunnel/Flow.antt =====
-- From the websocket to the local service.
use neutun.Base.{
  Result-cases, inl, inr, Text, ◌≡◌, refl, sym, ap, ◌∙◌, Bool, true, not, ◌&&◌, ◌||◌, none, some,
  List, [], ◌∷◌, ◌++◌, map, length, ok, arith,
}
use mathlib.Core.List.{append_assoc, append-nil}
use neutun.Table
use neutun.Channel.{Sender, unbounded, put, send}
use neutun.Protocol.{StreamId, ControlPacket, init_stream, stream_data, end_stream}
use neutun.Protocol.Wire.{serialize}
use neutun.Protocol.Wire.Laws.{deserialize-serialize}
use neutun.Client.Tunnel.{
  StreamMessage, payload, Client, Attempt, setup_new_stream, process_control_flow_message,
  process_messages,
}

-- The local service can be reached.
abbrev pub reaches : Bool → Attempt → Bool
reaches use_tls a = a.tcp_connects && (not use_tls || (a.name_is_valid && a.tls_connects))

-- The stream is known, and its reader is there.
pub record IsKnown (sid : StreamId) (t : Sender) (s : Client) : Type 0 where
  pub known : Table.get sid s.active_streams ≡ some t
  pub reads : (s.streams t).is_open ≡ true

abbrev pub queued : Sender → List StreamMessage → Client → Client
queued t ms s =
    let c = s.streams t in
    record s { streams = put t (record c { queue = c.queue ++ ms }) s.streams }

module _ (use_tls : Bool) (attempt : Attempt) (tx tunnel_tx : Sender) (sid : StreamId)
    (eight : length sid ≡ 8) where
  pub known_data :
      (t : Sender) (bytes : Text) (s : Client)
      → IsKnown sid t s
      → process_control_flow_message use_tls attempt tx tunnel_tx
          (serialize (stream_data sid bytes))
          s
        ≡ (ok (stream_data sid bytes), queued t (payload bytes ∷ []) s)
  unfolding process_control_flow_message send
  known_data t bytes s k =
      ground (arith, deserialize-serialize (stream_data sid bytes) eight, k.known, k.reads)

  abbrev opened : Text → Client → Client
  opened bytes s = record s {
    active_streams = Table.insert sid tx s.active_streams;
    streams = (send tx (payload bytes) (put tx unbounded s.streams)).1;
  }

  fresh_data :
      (bytes : Text) (s : Client)
      → Table.get sid s.active_streams ≡ none
      → reaches use_tls attempt ≡ true
      → process_control_flow_message use_tls attempt tx tunnel_tx
          (serialize (stream_data sid bytes))
          s
        ≡ (ok (stream_data sid bytes), opened bytes s)
  unfolding process_control_flow_message setup_new_stream send
  fresh_data bytes s fresh up = ground (
    arith,
    deserialize-serialize (stream_data sid bytes) eight,
    Table.get-insert sid sid tx s.active_streams,
  )

  opened-IsKnown : (bytes : Text) (s : Client) → IsKnown sid tx (opened bytes s)
  unfolding send
  opened-IsKnown bytes s = record {
    known = ground (arith, Table.get-insert sid sid tx s.active_streams);
    reads = ground arith;
  }

  opened-queue :
      (bytes : Text) (s : Client) → ((opened bytes s).streams tx).queue ≡ payload bytes ∷ []
  unfolding send
  opened-queue bytes s = ground arith

  queued-IsKnown :
      (t : Sender) (ms : List StreamMessage) (s : Client)
      → IsKnown sid t s
      → IsKnown sid t (queued t ms s)
  queued-IsKnown t ms s k = record { known = k.known; reads = ground (arith, k.reads) }

  pub process_messages-ok :
      (m : Text) (ms : List Text) (s s' : Client) (p : ControlPacket)
      → process_control_flow_message use_tls attempt tx tunnel_tx m s ≡ (ok p, s')
      → process_messages use_tls attempt tx tunnel_tx (m ∷ ms) s
        ≡ process_messages use_tls attempt tx tunnel_tx ms s'
  unfolding process_messages
  process_messages-ok m ms s s' p e = rw e refl

  known_messages :
      (t : Sender) (chunks : List Text) (s : Client)
      → IsKnown sid t s
      → let r =
          process_messages use_tls attempt tx tunnel_tx
            (map serialize (map (stream_data sid) chunks))
            s in
        (r.0 ≡ none)
        × (Table.get sid r.1.active_streams ≡ some t)
        × (r.1.streams t
            ≡ record { queue = (s.streams t).queue ++ map payload chunks; is_open = true })
        × (r.1.tunnel ≡ s.tunnel)
  unfolding process_messages
  known_messages t [] s k = (
    refl,
    k.known,
    λ i. record { queue = sym (append-nil (s.streams t).queue) i; is_open = k.reads i },
    refl,
  )
  known_messages t (chunk ∷ chunks) s k =
      let step =
        process_messages-ok (serialize (stream_data sid chunk))
          (map serialize (map (stream_data sid) chunks)) s (queued t (payload chunk ∷ []) s)
          (stream_data sid chunk) (known_data t chunk s k) in
      let (fine, still, all, quiet) =
        known_messages t chunks (queued t (payload chunk ∷ []) s)
          (queued-IsKnown t (payload chunk ∷ []) s k) in
      rw step (
        fine,
        still,
        all
            ∙ ground
                (arith, append_assoc (s.streams t).queue (payload chunk ∷ []) (map payload chunks)),
        quiet,
      )

  init_message :
      (s : Client)
      → process_control_flow_message use_tls attempt tx tunnel_tx (serialize (init_stream sid)) s
        ≡ (ok (init_stream sid), s)
  unfolding process_control_flow_message
  init_message s = ground (arith, deserialize-serialize (init_stream sid) eight)

  -- The messages of the server for a stream that the client does not know yet, an init packet and
  -- then data packets, at least one, open a connection to the local service, if that can be
  -- reached, and all data is queued for it, in order and byte for byte. No message fails, and
  -- nothing is sent back.
  pub process_messages-stream :
      (chunk : Text) (chunks : List Text) (s : Client)
      → Table.get sid s.active_streams ≡ none
      → reaches use_tls attempt ≡ true
      → let r =
          process_messages use_tls attempt tx tunnel_tx
            (map serialize (init_stream sid ∷ map (stream_data sid) (chunk ∷ chunks)))
            s in
        (r.0 ≡ none)
        × (Table.get sid r.1.active_streams ≡ some tx)
        × (r.1.streams tx ≡ record { queue = map payload (chunk ∷ chunks); is_open = true })
        × (r.1.tunnel ≡ s.tunnel)
  process_messages-stream chunk chunks s fresh up =
      let rest = map serialize (map (stream_data sid) chunks) in
      let s' = opened chunk s in
      let first =
        process_messages-ok (serialize (init_stream sid)) (serialize (stream_data sid chunk) ∷ rest)
          s s (init_stream sid) (init_message s) in
      let second =
        process_messages-ok (serialize (stream_data sid chunk)) rest s s' (stream_data sid chunk)
          (fresh_data chunk s fresh up) in
      let (fine, still, all, quiet) = known_messages tx chunks s' (opened-IsKnown chunk s) in
      let whole =
        all
        ∙ ap (λ q. record { queue = q ++ map payload chunks; is_open = true })
            (opened-queue chunk s) in
      rw (first, second) (fine, still, whole, quiet)

  end_message :
      (s : Client)
      → process_control_flow_message use_tls attempt tx tunnel_tx (serialize (end_stream sid)) s
        ≡ (ok (end_stream sid), s)
  unfolding process_control_flow_message
  end_message s = ground (arith, deserialize-serialize (end_stream sid) eight)

  -- An end packet may follow.
  pub process_messages-append :
      (ms ns : List Text) (s : Client)
      → (process_messages use_tls attempt tx tunnel_tx ms s).0 ≡ none
      → process_messages use_tls attempt tx tunnel_tx (ms ++ ns) s
        ≡ process_messages use_tls attempt tx tunnel_tx ns
            (process_messages use_tls attempt tx tunnel_tx ms s).1
  unfolding process_messages
  process_messages-append [] ns s e = refl
  process_messages-append (m ∷ ms) ns s e =
      let r = process_control_flow_message use_tls attempt tx tunnel_tx m s in
      elim (Result-cases r.0) [
        | inr (p, f) ↦ absurd (ground arith)
        | inl (p, f) ↦
            let q : r ≡ (ok p, r.1) = λ i. (f i, r.1) in
            let first = process_messages-ok m ms s r.1 p q in
            process_messages-ok m (ms ++ ns) s r.1 p q
            ∙ process_messages-append ms ns r.1 (ap (λ x. x.0) (sym first) ∙ e)
            ∙ ap (λ x. process_messages use_tls attempt tx tunnel_tx ns x.1) (sym first)
      ]

  pub process_messages-end :
      (s : Client)
      → process_messages use_tls attempt tx tunnel_tx (serialize (end_stream sid) ∷ []) s
        ≡ (none, s)
  unfolding process_messages
  process_messages-end s =
      process_messages-ok (serialize (end_stream sid)) [] s s (end_stream sid) (end_message s)
