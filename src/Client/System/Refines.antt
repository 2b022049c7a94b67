-- ===== src/Client/System/Refines.antt =====
-- Each turn of each task of the client is a short sequence of edits.
use neutun.Base.{
  Text, ◌≡◌, refl, subst, sym, Bool, true, false, Option, none, some, [], ◌∷◌, Result, ok, err,
  arith, Bool-cases, inl, inr, length,
}
use neutun.Table
use neutun.Table.{Table}
use neutun.Channel.{next, next-item, Received, item, finished, pending, Sender, put, unbounded}
use neutun.Protocol.{StreamId, ControlPacket, init_stream, stream_data, refused, end_stream, ping}
use neutun.Protocol.Wire.{WireError, deserialize}
use neutun.Protocol.Wire.Laws.{deserialize-Reads}
use neutun.Client.Tunnel.{
  StreamMessage, payload, close, Client, Attempt, refuse, open_local, setup_new_stream, forward,
  ensure_stream, keep_token, answered, send_tunnel, handle_control_packet,
  process_control_flow_message, end_task, LocalTurn, sent_turn, process_local_tcp, local_turn,
  forward_to_local_tcp,
}
use neutun.Client.Tunnel.Mux.{after_local}
use neutun.Client.Wormhole.{write_packet, write_received}
use neutun.Client.Introspect.{Request, replay, replay_to, replay_request}
use neutun.Client.System.{
  after_write, Step, connects, hears, ends, reads, writes_local, sends, replays,
}
use neutun.Client.System.Edits.{
  queues, opens, drops, takes, tells, opens_stream, ends_stream, Edits, none_yet, one, both,
}

setup_new_stream-Edits :
    (use_tls : Bool) (attempt : Attempt) (tx tunnel_tx : Sender) (sid : StreamId) (s : Client)
    → length sid ≡ 8
    → Edits s (setup_new_stream use_tls attempt tx tunnel_tx sid s).1
unfolding setup_new_stream send_tunnel
setup_new_stream-Edits use_tls attempt tx tunnel_tx sid s l =
    let refuses : Edits s (refuse tunnel_tx sid s).1 =
      one (queues tunnel_tx (refused sid) l refl) in
    let opened : Edits s (open_local sid tx s).1 = one (opens_stream sid tx _ l refl) in
    elim (Bool-cases attempt.tcp_connects) [
      | inr e ↦ rw e refuses
      | inl e ↦ rw e (elim (Bool-cases use_tls) [
        | inr f ↦ rw f opened
        | inl f ↦ rw f (elim (Bool-cases attempt.name_is_valid) [
          | inr g ↦ rw g none_yet
          | inl g ↦ rw g (elim (Bool-cases attempt.tls_connects) [
            | inr h ↦ rw h refuses
            | inl h ↦ rw h opened
          ])
        ])
      ])
    ]

ensure_stream-Edits :
    (o : Option Sender) (use_tls : Bool) (attempt : Attempt) (tx tunnel_tx : Sender)
    (sid : StreamId) (s : Client)
    → length sid ≡ 8
    → Edits s (ensure_stream o use_tls attempt tx tunnel_tx sid s)
unfolding ensure_stream
ensure_stream-Edits (some _) use_tls attempt tx tunnel_tx sid s l = none_yet
ensure_stream-Edits none use_tls attempt tx tunnel_tx sid s l =
    setup_new_stream-Edits use_tls attempt tx tunnel_tx sid s l

answered-state : (p : ControlPacket) (r : Bool × Client) → (answered p r).1 ≡ r.1
answered-state p (true, s) = refl
answered-state p (false, s) = refl

forward-Edits :
    (o : Option Sender) (tunnel_tx : Sender) (sid : StreamId) (bytes : Text) (s : Client)
    → length sid ≡ 8
    → Edits s (forward o tunnel_tx sid bytes s).1
unfolding forward send_tunnel
forward-Edits (some tx) tunnel_tx sid bytes s l =
    subst (Edits s) (sym (answered-state _ _)) (one (tells _ s.reconnect_token refl))
forward-Edits none tunnel_tx sid bytes s l =
    subst (Edits s) (sym (answered-state _ _)) (one (queues tunnel_tx (refused sid) l refl))

keep_token-Edits : (tok : Option Text) (s : Client) → Edits s (keep_token tok s)
keep_token-Edits none s = none_yet
keep_token-Edits (some tok) s = one (tells s.streams (some tok) refl)

module _ (use_tls : Bool) (attempt : Attempt) (tx tunnel_tx : Sender) where
  handle_control_packet-Edits :
      (bytes : Text) (r : Result ControlPacket WireError) (s : Client)
      → deserialize bytes ≡ r
      → Edits s (handle_control_packet use_tls attempt tx tunnel_tx r s).1
  unfolding handle_control_packet send_tunnel
  handle_control_packet-Edits bytes (err _) s e = none_yet
  handle_control_packet-Edits bytes (ok (init_stream _)) s e = none_yet
  handle_control_packet-Edits bytes (ok (ping tok)) s e =
      both (keep_token-Edits tok s) (one (queues tunnel_tx (ping none) tt refl))
  handle_control_packet-Edits bytes (ok (refused _)) s e = none_yet
  handle_control_packet-Edits bytes (ok (end_stream _)) s e = none_yet
  handle_control_packet-Edits bytes (ok (stream_data sid chunk)) s e =
      let l : length sid ≡ 8 = (deserialize-Reads bytes (stream_data sid chunk) e).1 in
      both
        (ensure_stream-Edits (Table.get sid s.active_streams) use_tls attempt tx tunnel_tx sid s l)
        (forward-Edits _ tunnel_tx sid chunk _ l)

  process_control_flow_message-Edits :
      (bytes : Text) (s : Client)
      → Edits s (process_control_flow_message use_tls attempt tx tunnel_tx bytes s).1
  unfolding process_control_flow_message
  process_control_flow_message-Edits bytes s =
      handle_control_packet-Edits bytes (deserialize bytes) s refl

end_task-Edits : (o : Option Sender) (sid : StreamId) (s : Client) → Edits s (end_task o sid s)
unfolding end_task
end_task-Edits none sid s = none_yet
end_task-Edits (some tx) sid s = one (ends_stream sid _ refl)

sent_turn-state : (r : Bool × Client) → after_local (sent_turn r) ≡ r.1
sent_turn-state (true, s) = refl
sent_turn-state (false, s) = refl

process_local_tcp-Edits :
    (tunnel_tx : Sender) (sid : StreamId) (read : Option Text) (s : Client)
    → length sid ≡ 8
    → Edits s (after_local (process_local_tcp tunnel_tx sid read s))
unfolding process_local_tcp send_tunnel
process_local_tcp-Edits tunnel_tx sid none s l = none_yet
process_local_tcp-Edits tunnel_tx sid (some []) s l = one (ends_stream sid s.streams refl)
process_local_tcp-Edits tunnel_tx sid (some (b ∷ bytes)) s l =
    subst (Edits s) (sym (sent_turn-state _))
      (one (queues tunnel_tx (stream_data sid (b ∷ bytes)) l refl))

turned :
    {s : Client} {a b : Text} {t u : LocalTurn}
    → ◌≡◌ {A = Option (Text × LocalTurn)} (some (a, t)) (some (b, u))
    → Edits s (after_local t)
    → Edits s (after_local u)
turned {s = s} {t = t} {u = u} e edits =
    subst (λ x. Edits s (after_local x)) {x = t} {y = u} (ground arith) edits

local_turn-Edits :
    (tx : Sender) (written : Bool) (r : Received StreamMessage) (s : Client) (out : Text)
    (t : LocalTurn)
    → local_turn tx written r s ≡ some (out, t)
    → Edits s (after_local t)
local_turn-Edits tx written pending s out t e = absurd (ground arith)
local_turn-Edits tx written finished s out t e = turned e (one (tells _ s.reconnect_token refl))
local_turn-Edits tx written (item close rest) s out t e =
    turned e (one (tells _ s.reconnect_token refl))
local_turn-Edits tx true (item (payload bytes) rest) s out t e =
    turned e (one (tells _ s.reconnect_token refl))
local_turn-Edits tx false (item (payload bytes) rest) s out t e =
    turned e (one (tells _ s.reconnect_token refl))

forward_to_local_tcp-Edits :
    (tx : Sender) (written : Bool) (s : Client) (out : Text) (t : LocalTurn)
    → forward_to_local_tcp tx written s ≡ some (out, t)
    → Edits s (after_local t)
unfolding forward_to_local_tcp
forward_to_local_tcp-Edits tx written s out t e =
    local_turn-Edits tx written (next (s.streams tx)) s out t e

write_received-Edits :
    (tunnel_tx : Sender) (taken : Bool) (r : Received ControlPacket) (s : Client)
    → next (s.tunnel tunnel_tx) ≡ r
    → Edits s (after_write s (write_received tunnel_tx taken r s))
unfolding write_received
write_received-Edits tunnel_tx taken pending s e = none_yet
write_received-Edits tunnel_tx taken finished s e = one (drops tunnel_tx refl)
write_received-Edits tunnel_tx true (item p rest) s e =
    one (takes tunnel_tx p rest.queue rest.is_open (next-item (s.tunnel tunnel_tx) p rest e).0 refl)
write_received-Edits tunnel_tx false (item p rest) s e = one (drops tunnel_tx refl)

write_packet-Edits :
    (tunnel_tx : Sender) (taken : Bool) (s : Client)
    → Edits s (after_write s (write_packet tunnel_tx taken s))
unfolding write_packet
write_packet-Edits tunnel_tx taken s =
    write_received-Edits tunnel_tx taken (next (s.tunnel tunnel_tx)) s refl

replay_to-Edits : (o : Option Sender) (bytes : Text) (s : Client) → Edits s (replay_to o bytes s).1
unfolding replay_to
replay_to-Edits none bytes s = none_yet
replay_to-Edits (some tx) bytes s = one (tells _ s.reconnect_token refl)

replay-Edits :
    (o : Option Request) (use_tls : Bool) (attempt : Attempt) (tx tunnel_tx : Sender)
    (sid : StreamId) (s : Client)
    → length sid ≡ 8
    → Edits s (replay o use_tls attempt tx tunnel_tx sid s).1
unfolding replay
replay-Edits none use_tls attempt tx tunnel_tx sid s l = none_yet
replay-Edits (some r) use_tls attempt tx tunnel_tx sid s l =
    let s' = record s { tunnel = put tunnel_tx unbounded s.tunnel } in
    both (one (opens tunnel_tx refl)) (
      both (setup_new_stream-Edits use_tls attempt tx tunnel_tx sid s' l)
        (replay_to-Edits _ r.entire_request _))

pub Step-Edits : (s s' : Client) → Step s s' → Edits s s'
unfolding replay_request
Step-Edits s s' (connects tunnel_tx e) = subst (Edits s) (sym e) (one (opens tunnel_tx refl))
Step-Edits s s' (hears use_tls attempt tx tunnel_tx message e) =
    subst (Edits s) (sym e)
      (process_control_flow_message-Edits use_tls attempt tx tunnel_tx message s)
Step-Edits s s' (ends tx sid e) = subst (Edits s) (sym e) (end_task-Edits tx sid s)
Step-Edits s s' (reads tunnel_tx sid read l e) =
    subst (Edits s) (sym e) (process_local_tcp-Edits tunnel_tx sid read s l)
Step-Edits s s' (writes_local tx written out t q e) =
    subst (Edits s) (sym e) (forward_to_local_tcp-Edits tx written s out t q)
Step-Edits s s' (sends tunnel_tx taken e) =
    subst (Edits s) (sym e) (write_packet-Edits tunnel_tx taken s)
Step-Edits s s' (replays use_tls attempt tx tunnel_tx sid rid requests l e) =
    subst (Edits s) (sym e)
      (replay-Edits (Table.get rid requests) use_tls attempt tx tunnel_tx sid s l)
