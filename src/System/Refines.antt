-- ===== src/System/Refines.antt =====
-- Each turn of each task is a short sequence of edits.
use neutun.Base.{
  Text, ◌≡◌, refl, subst, sym, Bool, true, false, Option, none, some, [], ◌∷◌, Result, ok, err,
  arith, Option-cases, inl, inr, length,
}
use neutun.Channel.{next, next-item, Received, item, finished, pending, Sender}
use neutun.Protocol.{ControlPacket, StreamId, init_stream, stream_data, refused, end_stream, ping}
use neutun.Protocol.Wire.{WireError}
use neutun.Server.{
  ConnectedClient, ActiveStream, Server, StreamMessage, payload, tunnel_refused, no_client_tunnel,
}
use neutun.Server.Config.{Config, IpAddr}
use neutun.Server.Connections.{get}
use neutun.Auth.Handshake.{Env, Moment}
use neutun.Control.Open.{register, handle_new_connection, new_client}
use neutun.Control.Open.Opened.{handle_new_connection-IsOpened, handle_new_connection-failed}
use neutun.Control.Client.{
  Incoming, binary, text, Turn, after, deliver, handle_packet, process_client_message,
}
use neutun.Control.Sink.{tunnel_client, tunnel_received}
use neutun.Remote.Accept.{
  Route, hello_world, invalid_host, to_control, not_found, error_locating, to_instance, to_client,
  open_stream, open_route, accept_connection, route,
}
use neutun.Remote.Stream.{
  Read, bytes, ended, failed, forwarded, read_turn, registered_turn, user_turn, process_tcp_stream,
  neutun_stream,
}
use neutun.System.{Step, connects, hears, pings, drains, accepts, inits, reads, writes}
use neutun.System.Sending.{TextTokens, send-Edits, send_ping-Edits, send_client_stream_init-Edits}
use neutun.System.Edits.{
  adds, removes, queues, opens, drops, takes, pipes, opens_stream, ends_stream, Edits, none_yet,
  one, two,
}

deliver-Edits :
    (st : Option ActiveStream) (msg : StreamMessage) (s : Server) → Edits s (deliver st msg s)
unfolding deliver
deliver-Edits none msg s = none_yet
deliver-Edits (some st) msg s = one (pipes _ refl)

handle_packet-Edits :
    (c : ConnectedClient) (p : Result ControlPacket WireError) (s : Server)
    → Edits s (handle_packet c p s)
unfolding handle_packet
handle_packet-Edits c (err _) s = none_yet
handle_packet-Edits c (ok (stream_data sid chunk)) s = deliver-Edits _ _ s
handle_packet-Edits c (ok (refused sid)) s = deliver-Edits _ _ s
handle_packet-Edits c (ok (init_stream _)) s = none_yet
handle_packet-Edits c (ok (end_stream _)) s = none_yet
handle_packet-Edits c (ok (ping _)) s = one (adds c refl)

process_client_message-Edits :
    (c : ConnectedClient) (i : Incoming) (s : Server)
    → Edits s (after (process_client_message c i s))
unfolding process_client_message
process_client_message-Edits c (binary []) s = one (removes c refl)
process_client_message-Edits c (binary (b ∷ message)) s = handle_packet-Edits c _ s
process_client_message-Edits c (text []) s = one (removes c refl)
process_client_message-Edits c (text (b ∷ message)) s = handle_packet-Edits c _ s
process_client_message-Edits c _ s = one (removes c refl)

handle_new_connection-Edits :
    (env : Env) (m : Moment) (ip : IpAddr) (message : Option Text) (delivered : Bool) (tx : Sender)
    (s : Server)
    → Edits s (handle_new_connection env m ip message delivered tx s).2
unfolding register
handle_new_connection-Edits env m ip message delivered tx s =
    let r = handle_new_connection env m ip message delivered tx s in
    elim (Option-cases r.1) [
      | inl e ↦
          subst (Edits s)
            (sym (
              handle_new_connection-failed env m ip message delivered tx s r.0 r.2
                (λ i. (r.0, e i, r.2))))
            none_yet
      | inr (c, e) ↦
          let o =
            handle_new_connection-IsOpened env m ip message delivered tx s r.0 c r.2
              (λ i. (r.0, e i, r.2)) in
          subst (Edits s) (sym o.registered)
            (two (opens tx refl) (adds (new_client o.handshake tx) refl))
    ]

turned :
    {A : Type 0} {s : Server} {a : A} {b : A} {t u : Turn}
    → ◌≡◌ {A = Option (A × Turn)} (some (a, t)) (some (b, u))
    → Edits s (after t)
    → Edits s (after u)
turned {s = s} {t = t} {u = u} e edits =
    subst (λ x. Edits s (after x)) {x = t} {y = u} (ground arith) edits

-- A task whose receiver yields an item takes it; the other turns drop the queue.
tunnel_received-Edits :
    (c : ConnectedClient) (delivered : Bool) (r : Received ControlPacket) (s : Server)
    (out : Option Text) (t : Turn)
    → next (s.controls c.tx) ≡ r
    → tunnel_received c delivered r s ≡ some (out, t)
    → Edits s (after t)
tunnel_received-Edits c delivered pending s out t q e = absurd (ground arith)
tunnel_received-Edits c delivered finished s out t q e = turned e (one (drops c.tx refl))
tunnel_received-Edits c true (item p rest) s out t q e =
    turned e
      (one (takes c.tx p rest.queue rest.is_open (next-item (s.controls c.tx) p rest q).0 refl))
tunnel_received-Edits c false (item p rest) s out t q e =
    turned e (two (removes c refl) (drops c.tx refl))

tunnel_client-Edits :
    (c : ConnectedClient) (delivered : Bool) (s : Server) (out : Option Text) (t : Turn)
    → tunnel_client c delivered s ≡ some (out, t)
    → Edits s (after t)
unfolding tunnel_client
tunnel_client-Edits c delivered s out t e =
    tunnel_received-Edits c delivered (next (s.controls c.tx)) s out t refl e

open_route-Edits :
    (r : Route) (id : StreamId) (tx : Sender) (s : Server)
    → length id ≡ 8
    → Edits s (open_route r id tx s).1
open_route-Edits r id tx s l = elim r as (λ k. Edits s (open_route k id tx s).1) [
  | hello_world ↦ none_yet
  | invalid_host ↦ none_yet
  | to_control ↦ none_yet
  | not_found ↦ none_yet
  | error_locating ↦ none_yet
  | to_instance _ ↦ none_yet
  | to_client c ↦ one (opens_stream (open_stream c id tx s).0 _ l refl)
]

accept_connection-Edits :
    (config : Config) (host : Text) (id : StreamId) (tx : Sender) (s : Server)
    → length id ≡ 8
    → Edits s (accept_connection config host id tx s).2
unfolding accept_connection
accept_connection-Edits config host id tx s l = open_route-Edits (route config host s) id tx s l

read_turn-Edits :
    (st : ActiveStream) (r : Read) (s : Server)
    → length st.id ≡ 8
    → Edits s (after (read_turn st r s))
read_turn-Edits st failed s l = none_yet
read_turn-Edits st ended s l = one (queues st.client.tx (end_stream st.id) l refl)
read_turn-Edits st (bytes chunk) s l =
    send-Edits st.client (stream_data st.id chunk) s (λ x. forwarded st.client x s) l (λ _. refl)
      (λ _. refl)

registered_turn-Edits :
    (c : Option ConnectedClient) (st : ActiveStream) (r : Read) (s : Server)
    → length st.id ≡ 8
    → Edits s (after (registered_turn c st r s))
registered_turn-Edits none st r s l = one (pipes _ refl)
registered_turn-Edits (some _) st r s l = read_turn-Edits st r s l

process_tcp_stream-Edits :
    (st : ActiveStream) (r : Read) (s : Server)
    → length st.id ≡ 8
    → Edits s (after (process_tcp_stream st r s))
unfolding process_tcp_stream
process_tcp_stream-Edits st r s l = registered_turn-Edits (get st.client.id s) st r s l

user_turn-Edits :
    (st : ActiveStream) (written : Bool) (r : Received StreamMessage) (s : Server) (out : Text)
    (t : Turn)
    → user_turn st written r s ≡ some (out, t)
    → Edits s (after t)
user_turn-Edits st written pending s out t e = absurd (ground arith)
user_turn-Edits st written finished s out t e = turned e (one (ends_stream st.id _ refl))
user_turn-Edits st written (item tunnel_refused rest) s out t e =
    turned e (one (ends_stream st.id _ refl))
user_turn-Edits st written (item no_client_tunnel rest) s out t e =
    turned e (one (ends_stream st.id _ refl))
user_turn-Edits st true (item (payload chunk) rest) s out t e = turned e (one (pipes _ refl))
user_turn-Edits st false (item (payload chunk) rest) s out t e = turned e (one (pipes _ refl))

neutun_stream-Edits :
    (st : ActiveStream) (written : Bool) (s : Server) (out : Text) (t : Turn)
    → neutun_stream st written s ≡ some (out, t)
    → Edits s (after t)
unfolding neutun_stream
neutun_stream-Edits st written s out t e =
    user_turn-Edits st written (next (s.pipes st.tx)) s out t e

pub Step-Edits : (env : Env) (s s' : Server) → TextTokens env.codecs → Step env s s' → Edits s s'
Step-Edits env s s' texts (connects m ip message delivered tx e) =
    subst (Edits s) (sym e) (handle_new_connection-Edits env m ip message delivered tx s)
Step-Edits env s s' texts (hears c i e) =
    subst (Edits s) (sym e) (process_client_message-Edits c i s)
Step-Edits env s s' texts (pings c now e) =
    subst (Edits s) (sym e) (send_ping-Edits env c now s texts)
Step-Edits env s s' texts (drains c delivered out t q e) =
    subst (Edits s) (sym e) (tunnel_client-Edits c delivered s out t q)
Step-Edits env s s' texts (accepts host id tx l e) =
    subst (Edits s) (sym e) (accept_connection-Edits env.config host id tx s l)
Step-Edits env s s' texts (inits st l e) =
    subst (Edits s) (sym e) (send_client_stream_init-Edits st s l)
Step-Edits env s s' texts (reads st r l e) =
    subst (Edits s) (sym e) (process_tcp_stream-Edits st r s l)
Step-Edits env s s' texts (writes st written out t q e) =
    subst (Edits s) (sym e) (neutun_stream-Edits st written s out t q)
