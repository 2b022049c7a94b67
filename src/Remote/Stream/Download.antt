-- ===== src/Remote/Stream/Download.antt =====
-- From the stream's queue to the user's socket.
use neutun.Base.{
  ℕ, zero, suc, ◌<◌, Text, ◌≡◌, sym, ◌∙◌, ap, Bool, true, none, some, List, [], ◌∷◌, ◌++◌, map,
  arith, length,
}
use mathlib.Core.List.{append_assoc}
use neutun.Table
use neutun.Channel.{put, next}
use neutun.Server.{ActiveStream, StreamMessage, payload, tunnel_refused, no_client_tunnel, Server}
use neutun.Control.Client.{stops, goes_on}
use neutun.Remote.Stream.{
  neutun_stream, finish_stream, http_tunnel_refused_response, http_not_found_response,
}

-- The loop of `neutun_stream` while the socket takes what is written, for so many turns at most or
-- until the queue is empty: the bytes that are written, and the state.
unfoldable pub write_all : ℕ → ActiveStream → Server → Text × Server
write_all zero stream s = ([], s)
write_all (suc turns) stream s = elim (neutun_stream stream true s) [
  | none ↦ ([], s)
  | some (out, stops s') ↦ (out, s')
  | some (out, goes_on s') ↦ let (rest, s'') = write_all turns stream s' in (out ++ rest, s'')
]

abbrev pub concat : List Text → Text
concat [] = []
concat (t ∷ ts) = t ++ concat ts

-- The last message, and what the user reads for it.
pub data IsLast : StreamMessage → Text → Type 0 where
  refusal : IsLast tunnel_refused http_tunnel_refused_response
  no_client : IsLast no_client_tunnel http_not_found_response

module _ (stream : ActiveStream) where
  turn_payload :
      (chunk : Text) (ms : List StreamMessage) (is_open : Bool) (s : Server)
      → s.pipes stream.tx ≡ record { queue = payload chunk ∷ ms; is_open = is_open }
      → neutun_stream stream true s
        ≡ some (
          chunk,
          goes_on (record s {
            pipes = put stream.tx (record { queue = ms; is_open = is_open }) s.pipes;
          }),
        )
  unfolding neutun_stream next
  turn_payload chunk ms is_open s e = ground arith

  turn_last :
      (last : StreamMessage) (out : Text) (ms : List StreamMessage) (is_open : Bool) (s : Server)
      → IsLast last out
      → s.pipes stream.tx ≡ record { queue = last ∷ ms; is_open = is_open }
      → neutun_stream stream true s ≡ some (out, stops (finish_stream stream s))
  unfolding neutun_stream next
  turn_last _ _ ms is_open s refusal e = ground arith
  turn_last _ _ ms is_open s no_client e = ground arith

  write_all-goes_on :
      (turns : ℕ) (s s' : Server) (out : Text)
      → neutun_stream stream true s ≡ some (out, goes_on s')
      → write_all (suc turns) stream s
        ≡ (out ++ (write_all turns stream s').0, (write_all turns stream s').1)
  unfolding write_all
  write_all-goes_on turns s s' out e = rw (e, write_all)

  write_all-stops :
      (turns : ℕ) (s s' : Server) (out : Text)
      → neutun_stream stream true s ≡ some (out, stops s')
      → write_all (suc turns) stream s ≡ (out, s')
  unfolding write_all
  write_all-stops turns s s' out e = rw (e, write_all)

  -- What the user reads is what the client sent, in order and byte for byte; after a refusal, or if
  -- the client is gone, the matching HTTP error follows, and the stream is no longer active. Later
  -- messages are dropped.
  pub write_all-concat :
      (chunks : List Text) (last : StreamMessage) (out : Text) (ms : List StreamMessage)
      (is_open : Bool) (turns : ℕ) (s : Server)
      → IsLast last out
      → s.pipes stream.tx ≡ record { queue = map payload chunks ++ last ∷ ms; is_open = is_open }
      → length chunks < turns
      → ((write_all turns stream s).0 ≡ concat chunks ++ out)
        × (Table.get stream.id (write_all turns stream s).1.active_streams ≡ none)
  write_all-concat chunks last out ms is_open zero s l e enough = absurd (omega arith)
  write_all-concat [] last out ms is_open (suc turns) s l e enough =
      let stop = write_all-stops turns s _ out (turn_last last out ms is_open s l e) in
      (
        ap (λ r. r.0) stop,
        ap (λ r. Table.get stream.id r.1.active_streams) stop
            ∙ ground (arith, Table.get-remove stream.id stream.id s.active_streams),
      )
  write_all-concat (chunk ∷ chunks) last out ms is_open (suc turns) s l e enough =
      let queue = map payload chunks ++ last ∷ ms in
      let s' : Server = record s {
        pipes = put stream.tx (record { queue = queue; is_open = is_open }) s.pipes;
      } in
      let step = write_all-goes_on turns s s' chunk (turn_payload chunk queue is_open s e) in
      let (same, gone) =
        write_all-concat chunks last out ms is_open turns s' l (ground arith) (omega arith) in
      (
        ap (λ r. r.0) step ∙ ap (◌++◌ chunk) same ∙ sym (append_assoc chunk (concat chunks) out),
        ap (λ r. Table.get stream.id r.1.active_streams) step ∙ gone,
      )

  turn_pending :
      (s : Server)
      → s.pipes stream.tx ≡ record { queue = []; is_open = true }
      → neutun_stream stream true s ≡ none
  unfolding neutun_stream next
  turn_pending s e = ground arith

  write_all-pending :
      (turns : ℕ) (s : Server)
      → neutun_stream stream true s ≡ none
      → write_all (suc turns) stream s ≡ ([], s)
  unfolding write_all
  write_all-pending turns s e = rw (e, write_all)

  -- While the stream is open the user reads what the client sent so far.
  pub write_all-open :
      (chunks : List Text) (turns : ℕ) (s : Server)
      → s.pipes stream.tx ≡ record { queue = map payload chunks; is_open = true }
      → length chunks < turns
      → (write_all turns stream s).0 ≡ concat chunks
  write_all-open chunks zero s e enough = absurd (omega arith)
  write_all-open [] (suc turns) s e enough =
      ap (λ r. r.0) (write_all-pending turns s (turn_pending s e))
  write_all-open (chunk ∷ chunks) (suc turns) s e enough =
      let s' : Server = record s {
        pipes = put stream.tx (record { queue = map payload chunks; is_open = true }) s.pipes;
      } in
      ap (λ r. r.0)
        (write_all-goes_on turns s s' chunk (turn_payload chunk (map payload chunks) true s e))
      ∙ ap (λ t. chunk ++ t) (write_all-open chunks turns s' (ground arith) (omega arith))
