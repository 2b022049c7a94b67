-- ===== src/System/Edits.antt =====
-- The edits of the shared state that the tasks are made of, and what they keep.
use neutun.Base.{All-snoc, length, ◌≡◌, subst, sym, Bool, List, ◌∷◌, All, eqb, Bool-cases, inl, inr}
use neutun.Table
use neutun.Table.{Table}
use neutun.Protocol.{StreamId}
use neutun.Channel.{Channel, Channels, Sender, unbounded, put, dropped, send, close_channel}
use neutun.Protocol.{ControlPacket}
use neutun.Protocol.Wire.Laws.{IsWellFormed}
use neutun.Server.{ConnectedClient, ActiveStream, StreamMessage, Server}
use neutun.Server.Connections.{add, remove}
use neutun.Server.Invariant.{
  IsStreamed, insert-IsStreamed, remove-IsStreamed, IsKeyed, add-IsKeyed, remove-IsKeyed,
}

-- What the tasks may do: register and unregister clients, open, close and empty channels, queue
-- well-formed packets, take the oldest one, open and end streams, and anything with their channels.
pub data Edit (s s' : Server) : Type 0 where
  adds : (c : ConnectedClient) → s' ≡ add c s → Edit s s'
  removes : (c : ConnectedClient) → s' ≡ remove c s → Edit s s'
  queues :
      (tx : Sender) (p : ControlPacket)
      → IsWellFormed p
      → s' ≡ record s { controls = (send tx p s.controls).1 }
      → Edit s s'
  opens : (tx : Sender) → s' ≡ record s { controls = put tx unbounded s.controls } → Edit s s'
  drops : (tx : Sender) → s' ≡ record s { controls = put tx dropped s.controls } → Edit s s'
  takes :
      (tx : Sender) (p : ControlPacket) (rest : List ControlPacket) (is_open : Bool)
      → (s.controls tx).queue ≡ p ∷ rest
      → s' ≡ record s { controls = put tx (record { queue = rest; is_open = is_open }) s.controls }
      → Edit s s'
  pipes : (ps : Channels StreamMessage) → s' ≡ record s { pipes = ps } → Edit s s'
  opens_stream :
      (st : ActiveStream) (ps : Channels StreamMessage)
      → length st.id ≡ 8
      → s' ≡ record s { pipes = ps; active_streams = Table.insert st.id st s.active_streams }
      → Edit s s'
  ends_stream :
      (sid : StreamId) (ps : Channels StreamMessage)
      → s' ≡ record s { pipes = ps; active_streams = Table.remove sid s.active_streams }
      → Edit s s'

pub data Edits (s : Server) : Server → Type 0 where
  none_yet : Edits s s
  then_edit : {t u : Server} → Edits s t → Edit t u → Edits s u

pub one : {s s' : Server} → Edit s s' → Edits s s'
one e = then_edit none_yet e

pub two : {s t u : Server} → Edit s t → Edit t u → Edits s u
two e f = then_edit (then_edit none_yet e) f

-- Every packet that waits for a client can be read by it.
abbrev pub IsReadable : Server → Type 0
IsReadable s = (n : Sender) → All IsWellFormed (s.controls n).queue

pub record Inv (s : Server) : Type 0 where
  pub keyed : IsKeyed s
  pub readable : IsReadable s
  pub streamed : IsStreamed s

put-IsReadable :
    (s : Server) (tx : Sender) (c : Channel ControlPacket)
    → IsReadable s
    → All IsWellFormed c.queue
    → IsReadable (record s { controls = put tx c s.controls })
put-IsReadable s tx c h w n = elim (Bool-cases (eqb tx n)) [ inl e ↦ rw e w | inr e ↦ rw e (h n) ]

send-IsReadable :
    (s : Server) (tx : Sender) (p : ControlPacket)
    → IsReadable s
    → IsWellFormed p
    → IsReadable (record s { controls = (send tx p s.controls).1 })
unfolding send
send-IsReadable s tx p h w n = elim (Bool-cases (s.controls tx).is_open) [
  | inl o ↦
      rw o (put-IsReadable s tx _ h (All-snoc IsWellFormed (s.controls tx).queue p (h tx) w) n)
  | inr o ↦ rw o (h n)
]

Edit-IsReadable : {s s' : Server} → Edit s s' → IsReadable s → IsReadable s'
unfolding add remove close_channel
Edit-IsReadable {s} (adds c e) h = subst IsReadable (sym e) h
Edit-IsReadable {s} (removes c e) h =
    subst IsReadable (sym e) (λ n. put-IsReadable s c.tx _ h (h c.tx) n)
Edit-IsReadable {s} (queues tx p w e) h = subst IsReadable (sym e) (send-IsReadable s tx p h w)
Edit-IsReadable {s} (opens tx e) h = subst IsReadable (sym e) (put-IsReadable s tx _ h tt)
Edit-IsReadable {s} (drops tx e) h = subst IsReadable (sym e) (put-IsReadable s tx _ h tt)
Edit-IsReadable {s} (takes tx p rest is_open q e) h =
    subst IsReadable (sym e) (put-IsReadable s tx _ h (subst (All IsWellFormed) q (h tx)).1)
Edit-IsReadable {s} (pipes ps e) h = subst IsReadable (sym e) h
Edit-IsReadable {s} (opens_stream st ps l e) h = subst IsReadable (sym e) h
Edit-IsReadable {s} (ends_stream sid ps e) h = subst IsReadable (sym e) h

-- `IsKeyed` is about the two tables only.
abbrev keep_tables :
    {s : Server} {ps : Channels StreamMessage} {cs : Channels ControlPacket}
    {m : Table ActiveStream}
    → IsKeyed s
    → IsKeyed (record s { pipes = ps; controls = cs; active_streams = m })
keep_tables h = record {
  by_id = h.by_id;
  by_host = h.by_host;
  unique_ids = h.unique_ids;
  unique_hosts = h.unique_hosts;
}

Edit-IsKeyed : {s s' : Server} → Edit s s' → IsKeyed s → IsKeyed s'
Edit-IsKeyed {s} (adds c e) h = subst IsKeyed (sym e) (add-IsKeyed c s h)
Edit-IsKeyed {s} (removes c e) h = subst IsKeyed (sym e) (remove-IsKeyed c s h)
Edit-IsKeyed {s} (queues tx p w e) h = subst IsKeyed (sym e) (keep_tables h)
Edit-IsKeyed {s} (opens tx e) h = subst IsKeyed (sym e) (keep_tables h)
Edit-IsKeyed {s} (drops tx e) h = subst IsKeyed (sym e) (keep_tables h)
Edit-IsKeyed {s} (takes tx p rest o q e) h = subst IsKeyed (sym e) (keep_tables h)
Edit-IsKeyed {s} (pipes ps e) h = subst IsKeyed (sym e) (keep_tables h)
Edit-IsKeyed {s} (opens_stream st ps l e) h = subst IsKeyed (sym e) (keep_tables h)
Edit-IsKeyed {s} (ends_stream sid ps e) h = subst IsKeyed (sym e) (keep_tables h)

-- `IsStreamed` is about the table of streams only.
abbrev keep_streams :
    {s : Server} {ps : Channels StreamMessage} {cs : Channels ControlPacket}
    {clients hosts : Table ConnectedClient}
    → IsStreamed s
    → IsStreamed (record s { pipes = ps; controls = cs; clients = clients; hosts = hosts })
keep_streams h = record { by_stream_id = h.by_stream_id; unique_streams = h.unique_streams }

Edit-IsStreamed : {s s' : Server} → Edit s s' → IsStreamed s → IsStreamed s'
unfolding add remove
Edit-IsStreamed {s} (adds c e) h = subst IsStreamed (sym e) (keep_streams h)
Edit-IsStreamed {s} (removes c e) h = subst IsStreamed (sym e) (keep_streams h)
Edit-IsStreamed {s} (queues tx p w e) h = subst IsStreamed (sym e) (keep_streams h)
Edit-IsStreamed {s} (opens tx e) h = subst IsStreamed (sym e) (keep_streams h)
Edit-IsStreamed {s} (drops tx e) h = subst IsStreamed (sym e) (keep_streams h)
Edit-IsStreamed {s} (takes tx p rest o q e) h = subst IsStreamed (sym e) (keep_streams h)
Edit-IsStreamed {s} (pipes ps e) h = subst IsStreamed (sym e) (keep_streams h)
Edit-IsStreamed {s} (opens_stream st ps l e) h =
    subst IsStreamed (sym e) (insert-IsStreamed st ps s l h)
Edit-IsStreamed {s} (ends_stream sid ps e) h =
    subst IsStreamed (sym e) (remove-IsStreamed sid ps s h)

pub Edits-Inv : {s s' : Server} → Edits s s' → Inv s → Inv s'
Edits-Inv none_yet i = i
Edits-Inv (then_edit es e) i =
    let j = Edits-Inv es i in
    record {
      keyed = Edit-IsKeyed e j.keyed;
      readable = Edit-IsReadable e j.readable;
      streamed = Edit-IsStreamed e j.streamed;
    }
