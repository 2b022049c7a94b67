-- ===== src/Client/Introspect/Replay.antt =====
-- A replayed request reaches the local service as the first one did.
use neutun.Base.{
  ℕ, ◌<◌, Text, ◌≡◌, ◌≢◌, suc, ◌⊎◌, inl, inr, refl, sym, ap, ◌∙◌, true, false, Bool, none, some,
  Option-cases, Bool-cases, List, [], ◌∷◌, ◌++◌, map, length, All, arith,
}
use neutun.Table
use neutun.Table.{Table}
use neutun.Channel.{Sender, put, unbounded, send}
use neutun.Protocol.{StreamId}
use neutun.Remote.Stream.Download.{concat}
use neutun.Client.Tunnel.{payload, close, Client, Attempt, setup_new_stream, send_tunnel}
use neutun.Client.Tunnel.Flow.{reaches}
use neutun.Client.Introspect.{
  HttpParse, Request, Time, redirect_home, not_found, replay, replay_request, collect_stream,
  stored_request,
}
use neutun.Client.Introspect.Copies.{
  forward_all, forward_all-single, read_copies, collect_stream-copies,
}

module _ (use_tls : Bool) (attempt : Attempt) (tx tunnel_tx : Sender) (sid : StreamId) where
  -- The client after a replay of those bytes.
  abbrev replayed_to : Text → Client → Client
  replayed_to bytes s = record s {
    active_streams = Table.insert sid tx s.active_streams;
    streams = (send tx (payload bytes) (put tx unbounded s.streams)).1;
    tunnel = put tunnel_tx unbounded s.tunnel;
  }

  replay-some :
      (r : Request) (s : Client)
      → reaches use_tls attempt ≡ true
      → replay (some r) use_tls attempt tx tunnel_tx sid s
        ≡ (redirect_home, replayed_to r.entire_request s)
  unfolding replay setup_new_stream
  replay-some r s up = ground arith

  replay_request-some :
      (rid : Text) (requests : Table Request) (r : Request) (s : Client)
      → Table.get rid requests ≡ some r
      → reaches use_tls attempt ≡ true
      → let out = replay_request use_tls attempt tx tunnel_tx sid rid requests s in
        (out.0 ≡ redirect_home)
        × (Table.get sid out.1.active_streams ≡ some tx)
        × (out.1.streams tx ≡ record { queue = payload r.entire_request ∷ []; is_open = true })
  unfolding replay_request
  replay_request-some rid requests r s kept up =
      rw (kept, replay-some r s up)
        (
          refl,
          ground (arith, Table.get-insert sid sid tx s.active_streams),
          unfold send in ground arith,
        )

  -- What a refusal leaves alone.
  replay-unreached :
      (r : Request) (s : Client)
      → reaches use_tls attempt ≡ false
      → let out = replay (some r) use_tls attempt tx tunnel_tx sid s in
        (out.0 ≡ not_found)
        × (out.1.active_streams ≡ s.active_streams)
        × (out.1.streams ≡ s.streams)
  unfolding replay setup_new_stream send_tunnel
  replay-unreached r s down = ground arith

  -- A replay is answered with a redirection if a request is kept under the id and the local service
  -- can be reached, and it is then sent there on a new stream; in every other case the answer is
  -- that it was not found, no stream is opened and nothing is sent to one.
  pub replay_request-cases :
      (rid : Text) (requests : Table Request) (s : Client)
      → let out = replay_request use_tls attempt tx tunnel_tx sid rid requests s in
        ((r : Request) × (Table.get rid requests ≡ some r)
          × (reaches use_tls attempt ≡ true)
          × (out.0 ≡ redirect_home)
          × (Table.get sid out.1.active_streams ≡ some tx)
          × (out.1.streams tx ≡ record { queue = payload r.entire_request ∷ []; is_open = true }))
        ⊎ (((Table.get rid requests ≡ none) ⊎ (reaches use_tls attempt ≡ false))
            × (out.0 ≡ not_found)
            × (out.1.active_streams ≡ s.active_streams)
            × (out.1.streams ≡ s.streams))
  unfolding replay_request replay
  replay_request-cases rid requests s = elim (Option-cases (Table.get rid requests)) [
    | inl none_kept ↦ inr (inl none_kept, ground arith, ground arith, ground arith)
    | inr (r, kept) ↦ elim (Bool-cases (reaches use_tls attempt)) [
      | inl up ↦
          let (home, known, queue) = replay_request-some rid requests r s kept up in
          inl (r, kept, up, home, known, queue)
      | inr down ↦
          let (lost, same, still) = replay-unreached r s down in
          inr (inr down, ground arith, ground arith, ground arith)
    ]
  ]

-- The request of a stream that was served to the end and whose head was complete can be replayed
-- under its id, if the local service can be reached: then the service is written, on a new stream
-- that is known to the client, the same bytes as before, and nothing else.
pub replay_request-collect_stream :
    (http : HttpParse) (n turns later : ℕ) (id : Text) (started completed : Time)
    (up down : List Text) (tx tunnel_tx : Sender) (sid : StreamId) (is_open : Bool)
    (s s' s'' : Client) (requests : Table Request) (use_tls : Bool) (attempt : Attempt)
    (tx' tunnel_tx' : Sender) (sid' : StreamId)
    → (http.request (concat up)).complete ≡ some n
    → length up < turns
    → s.streams tx ≡ record { queue = map payload up ++ close ∷ []; is_open = is_open }
    → All (λ c. c ≢ []) down
    → (s'.tunnel tunnel_tx).is_open ≡ true
    → reaches use_tls attempt ≡ true
    → let written = forward_all turns tx s in
      let read = read_copies tunnel_tx sid (map some down ++ some [] ∷ []) s' in
      let kept = collect_stream http id started completed written.1 read requests in
      let out = replay_request use_tls attempt tx' tunnel_tx' sid' id kept s'' in
      (out.0 ≡ redirect_home)
      × (Table.get sid' out.1.active_streams ≡ some tx')
      × (forward_all (suc later) tx' out.1 ≡ (written.0, written.0 ∷ []))
unfolding stored_request
replay_request-collect_stream http n turns later id started completed up down tx tunnel_tx sid
      is_open s s' s'' requests use_tls attempt tx' tunnel_tx' sid' complete enough queue full reads
      up' =
    let written = forward_all turns tx s in
    let read = read_copies tunnel_tx sid (map some down ++ some [] ∷ []) s' in
    let kept = collect_stream http id started completed written.1 read requests in
    let out = replay_request use_tls attempt tx' tunnel_tx' sid' id kept s'' in
    let (all, stored) =
      collect_stream-copies http n turns id started completed up down tx tunnel_tx sid is_open s s'
        requests complete enough queue full reads in
    let (home, known, waiting) =
      replay_request-some use_tls attempt tx' tunnel_tx' sid' id kept
        (stored_request http id started completed (concat up) (concat down) n) s'' stored up' in
    (
      home,
      known,
      forward_all-single later tx' (concat up) out.1 waiting ∙ ap (λ w. (w, w ∷ [])) (sym all),
    )
