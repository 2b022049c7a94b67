-- ===== src/Client/Introspect/Copies.antt =====
-- The copies that the two tasks of a local stream send to the dashboard (neutun/src/local.rs).
use neutun.Base.{
  ℕ, zero, suc, ◌<◌, Text, ◌≡◌, ◌≢◌, refl, sym, ap, ◌∙◌, true, Bool, Option, none, some, List, [],
  ◌∷◌, ◌++◌, map, length, All, arith,
}
use mathlib.Core.List.{append_assoc, append-nil}
use neutun.Table
use neutun.Table.{Table}
use neutun.Channel.{Sender, next, put, unbounded, send}
use neutun.Protocol.{StreamId, stream_data}
use neutun.Remote.Stream.Download.{concat}
use neutun.Client.Tunnel.{
  StreamMessage, payload, close, drop_reader, Client, LocalTurn, stops, goes_on, panics,
  process_local_tcp, send_tunnel, forward_to_local_tcp,
}
use neutun.Client.Introspect.{
  HttpParse, Request, Time, extend, stored_request, store_complete, collect_stream,
}

-- What is written by a turn of `forward_to_local_tcp` and by those after it, and what is copied.
after_forward : Option (Text × LocalTurn) → (Client → Text × List Text) → Text × List Text
after_forward none rest = ([], [])
after_forward (some (out, goes_on s)) rest =
    let (written, copies) = rest s in (out ++ written, out ∷ copies)
after_forward (some (out, stops s)) rest = (out, [])
after_forward (some (out, panics s)) rest = (out, [])

-- The loop of `forward_to_local_tcp` while the local service takes what is written, for so many
-- turns at most or until the queue is empty.
unfoldable pub forward_all : ℕ → Sender → Client → Text × List Text
unfolding after_forward
forward_all zero tx s = ([], [])
forward_all (suc turns) tx s = after_forward (forward_to_local_tcp tx true s) (forward_all turns tx)

after_read : Option Text → LocalTurn → (Client → List Text) → List Text
after_read none turn rest = []
after_read (some bytes) (goes_on s) rest = bytes ∷ rest s
after_read (some bytes) (stops s) rest = []
after_read (some bytes) (panics s) rest = []

-- The copies of the loop of `process_local_tcp` over what the local service yields.
unfoldable pub read_copies : Sender → StreamId → List (Option Text) → Client → List Text
unfolding after_read
read_copies tunnel_tx sid [] s = []
read_copies tunnel_tx sid (r ∷ rs) s =
    after_read r (process_local_tcp tunnel_tx sid r s) (read_copies tunnel_tx sid rs)

forward_payload :
    (tx : Sender) (chunk : Text) (ms : List StreamMessage) (is_open : Bool) (s : Client)
    → s.streams tx ≡ record { queue = payload chunk ∷ ms; is_open = is_open }
    → forward_to_local_tcp tx true s
      ≡ some (
        chunk,
        goes_on
            (record s { streams = put tx (record { queue = ms; is_open = is_open }) s.streams }),
      )
unfolding forward_to_local_tcp next
forward_payload tx chunk ms is_open s e = ground arith

forward_close :
    (tx : Sender) (is_open : Bool) (s : Client)
    → s.streams tx ≡ record { queue = close ∷ []; is_open = is_open }
    → forward_to_local_tcp tx true s ≡ some ([], stops (drop_reader tx s))
unfolding forward_to_local_tcp next
forward_close tx is_open s e = ground arith

forward_nothing :
    (tx : Sender) (s : Client)
    → s.streams tx ≡ record { queue = []; is_open = true }
    → forward_to_local_tcp tx true s ≡ none
unfolding forward_to_local_tcp next
forward_nothing tx s e = ground arith

-- All pieces are written and copied, until the end of the stream.
pub forward_all-chunks :
    (chunks : List Text) (turns : ℕ) (tx : Sender) (is_open : Bool) (s : Client)
    → length chunks < turns
    → s.streams tx ≡ record { queue = map payload chunks ++ close ∷ []; is_open = is_open }
    → forward_all turns tx s ≡ (concat chunks, chunks)
unfolding forward_all
forward_all-chunks chunks zero tx is_open s h e = absurd (omega arith)
forward_all-chunks [] (suc turns) tx is_open s h e =
    ap (λ r. after_forward r (forward_all turns tx)) (forward_close tx is_open s e)
forward_all-chunks (chunk ∷ chunks) (suc turns) tx is_open s h e =
    let ms = map payload chunks ++ close ∷ [] in
    let s' = record s { streams = put tx (record { queue = ms; is_open = is_open }) s.streams } in
    ap (λ r. after_forward r (forward_all turns tx)) (forward_payload tx chunk ms is_open s e)
    ∙ ap (λ r. (chunk ++ r.0, chunk ∷ r.1))
        (forward_all-chunks chunks turns tx is_open s' (omega arith) (ground arith))

forward_all-idle :
    (turns : ℕ) (tx : Sender) (s : Client)
    → s.streams tx ≡ record { queue = []; is_open = true }
    → forward_all turns tx s ≡ ([], [])
unfolding forward_all
forward_all-idle zero tx s e = refl
forward_all-idle (suc turns) tx s e =
    ap (λ r. after_forward r (forward_all turns tx)) (forward_nothing tx s e)

-- A message that comes alone is written alone, and the task waits for more.
pub forward_all-single :
    (turns : ℕ) (tx : Sender) (bytes : Text) (s : Client)
    → s.streams tx ≡ record { queue = payload bytes ∷ []; is_open = true }
    → forward_all (suc turns) tx s ≡ (bytes, bytes ∷ [])
unfolding forward_all
forward_all-single turns tx bytes s e =
    let s' = record s { streams = put tx unbounded s.streams } in
    ap (λ r. after_forward r (forward_all turns tx)) (forward_payload tx bytes [] true s e)
    ∙ ap (λ r. (bytes ++ r.0, bytes ∷ r.1)) (forward_all-idle turns tx s' (ground arith))
    ∙ ap (λ t. (t, bytes ∷ [])) (append-nil bytes)

read_chunk :
    (tunnel_tx : Sender) (sid : StreamId) (b : ℕ) (bytes : Text) (s : Client)
    → (s.tunnel tunnel_tx).is_open ≡ true
    → (s' : Client) × (process_local_tcp tunnel_tx sid (some (b ∷ bytes)) s ≡ goes_on s')
      × ((s'.tunnel tunnel_tx).is_open ≡ true)
unfolding process_local_tcp send_tunnel
read_chunk tunnel_tx sid b bytes s reads = (
  (send_tunnel tunnel_tx (stream_data sid (b ∷ bytes)) s).1,
  unfold send in ground arith,
  unfold send in ground arith,
)

-- All pieces are copied, until the local service ends.
pub read_copies-chunks :
    (tunnel_tx : Sender) (sid : StreamId) (chunks : List Text) (s : Client)
    → All (λ c. c ≢ []) chunks
    → (s.tunnel tunnel_tx).is_open ≡ true
    → read_copies tunnel_tx sid (map some chunks ++ some [] ∷ []) s ≡ chunks
unfolding read_copies process_local_tcp
read_copies-chunks tunnel_tx sid [] s full reads = refl
read_copies-chunks tunnel_tx sid ([] ∷ chunks) s full reads = absurd (full.0 refl)
read_copies-chunks tunnel_tx sid ((b ∷ bytes) ∷ chunks) s full reads =
    let rest = map some chunks ++ some [] ∷ [] in
    let (s', turn, still) = read_chunk tunnel_tx sid b bytes s reads in
    ap (λ t. after_read (some (b ∷ bytes)) t (read_copies tunnel_tx sid rest)) turn
    ∙ ap (◌∷◌ (b ∷ bytes)) (read_copies-chunks tunnel_tx sid chunks s' full.1 still)

extend-concat : (acc : Text) (ts : List Text) → extend acc ts ≡ acc ++ concat ts
unfolding extend
extend-concat acc [] = sym (append-nil acc)
extend-concat acc (t ∷ ts) = extend-concat (acc ++ t) ts ∙ append_assoc acc t (concat ts)

store_complete-some :
    (http : HttpParse) (o : Option ℕ) (n : ℕ) (id : Text) (started completed : Time)
    (request response : Text) (requests : Table Request)
    → o ≡ some n
    → Table.get id (store_complete http o id started completed request response requests)
      ≡ some (stored_request http id started completed request response n)
unfolding store_complete
store_complete-some http none n id started completed request response requests e =
    absurd (ground arith)
store_complete-some http (some m) n id started completed request response requests e = ground (
  arith,
  Table.get-insert id id (stored_request http id started completed request response m) requests,
)

-- A stream whose pieces, in both directions, are written and read to the end is kept with exactly
-- those bytes, if the head of the request is complete.
pub collect_stream-copies :
    (http : HttpParse) (n turns : ℕ) (id : Text) (started completed : Time) (up down : List Text)
    (tx tunnel_tx : Sender) (sid : StreamId) (is_open : Bool) (s s' : Client)
    (requests : Table Request)
    → (http.request (concat up)).complete ≡ some n
    → length up < turns
    → s.streams tx ≡ record { queue = map payload up ++ close ∷ []; is_open = is_open }
    → All (λ c. c ≢ []) down
    → (s'.tunnel tunnel_tx).is_open ≡ true
    → let written = forward_all turns tx s in
      let read = read_copies tunnel_tx sid (map some down ++ some [] ∷ []) s' in
      (written.0 ≡ concat up)
      × (Table.get id (collect_stream http id started completed written.1 read requests)
          ≡ some (stored_request http id started completed (concat up) (concat down) n))
unfolding collect_stream
collect_stream-copies http n turns id started completed up down tx tunnel_tx sid is_open s s'
      requests complete enough queue full reads =
    let written = forward_all-chunks up turns tx is_open s enough queue in
    let read = read_copies-chunks tunnel_tx sid down s' full reads in
    rw (written, read, extend-concat [] up, extend-concat [] down)
      (
        refl,
        store_complete-some http (http.request (concat up)).complete n id started completed
            (concat up) (concat down) requests complete,
      )
