-- ===== src/Client/System/Edits.antt =====
-- The edits of the client's state that its tasks are made of, and what they keep.
use neutun.Base.{
  All-snoc, ◌≡◌, subst, sym, Bool, Bool-cases, inl, inr, Option, List, ◌∷◌, All, eqb, length,
}
use neutun.Table
use neutun.Channel.{Channel, Channels, Sender, unbounded, put, dropped, send}
use neutun.Protocol.{StreamId, ReconnectToken, ControlPacket}
use neutun.Protocol.Wire.Laws.{IsWellFormed}
use neutun.Client.Tunnel.{StreamMessage, Client}

-- What the tasks may do: queue well-formed packets, open, close and empty tunnels, open and end
-- streams, and anything with their channels and the token.
pub data Edit (s s' : Client) : Type 0 where
  queues :
      (tx : Sender) (p : ControlPacket)
      → IsWellFormed p
      → s' ≡ record s { tunnel = (send tx p s.tunnel).1 }
      → Edit s s'
  opens : (tx : Sender) → s' ≡ record s { tunnel = put tx unbounded s.tunnel } → Edit s s'
  drops : (tx : Sender) → s' ≡ record s { tunnel = put tx dropped s.tunnel } → Edit s s'
  takes :
      (tx : Sender) (p : ControlPacket) (rest : List ControlPacket) (is_open : Bool)
      → (s.tunnel tx).queue ≡ p ∷ rest
      → s' ≡ record s { tunnel = put tx (record { queue = rest; is_open = is_open }) s.tunnel }
      → Edit s s'
  tells :
      (cs : Channels StreamMessage) (token : Option ReconnectToken)
      → s' ≡ record s { streams = cs; reconnect_token = token }
      → Edit s s'
  opens_stream :
      (sid : StreamId) (tx : Sender) (cs : Channels StreamMessage)
      → length sid ≡ 8
      → s' ≡ record s { active_streams = Table.insert sid tx s.active_streams; streams = cs }
      → Edit s s'
  ends_stream :
      (sid : StreamId) (cs : Channels StreamMessage)
      → s' ≡ record s { active_streams = Table.remove sid s.active_streams; streams = cs }
      → Edit s s'

pub data Edits (s : Client) : Client → Type 0 where
  none_yet : Edits s s
  then_edit : {t u : Client} → Edits s t → Edit t u → Edits s u

pub one : {s s' : Client} → Edit s s' → Edits s s'
one e = then_edit none_yet e

pub both : {s t u : Client} → Edits s t → Edits t u → Edits s u
both es none_yet = es
both es (then_edit fs f) = then_edit (both es fs) f

-- Every packet that waits for the server can be read by it.
abbrev pub IsSendable : Client → Type 0
IsSendable s = (n : Sender) → All IsWellFormed (s.tunnel n).queue

pub record Inv (s : Client) : Type 0 where
  pub sendable : IsSendable s
  pub by_stream_id : Table.All (λ k _. length k ≡ 8) s.active_streams
  pub unique_streams : Table.IsUnique s.active_streams

put-IsSendable :
    (s : Client) (tx : Sender) (c : Channel ControlPacket)
    → IsSendable s
    → All IsWellFormed c.queue
    → IsSendable (record s { tunnel = put tx c s.tunnel })
put-IsSendable s tx c h w n = elim (Bool-cases (eqb tx n)) [ inl e ↦ rw e w | inr e ↦ rw e (h n) ]

send-IsSendable :
    (s : Client) (tx : Sender) (p : ControlPacket)
    → IsSendable s
    → IsWellFormed p
    → IsSendable (record s { tunnel = (send tx p s.tunnel).1 })
unfolding send
send-IsSendable s tx p h w n = elim (Bool-cases (s.tunnel tx).is_open) [
  | inl o ↦ rw o (put-IsSendable s tx _ h (All-snoc IsWellFormed (s.tunnel tx).queue p (h tx) w) n)
  | inr o ↦ rw o (h n)
]

-- Only the tunnel changes, and stays sendable.
retunnelled :
    {s : Client} {cs : Channels ControlPacket}
    → Inv s
    → IsSendable (record s { tunnel = cs })
    → Inv (record s { tunnel = cs })
retunnelled i h = record {
  sendable = h;
  by_stream_id = i.by_stream_id;
  unique_streams = i.unique_streams;
}

Edit-Inv : {s s' : Client} → Edit s s' → Inv s → Inv s'
Edit-Inv {s} (queues tx p w e) i =
    subst Inv (sym e) (retunnelled i (send-IsSendable s tx p i.sendable w))
Edit-Inv {s} (opens tx e) i =
    subst Inv (sym e) (retunnelled i (put-IsSendable s tx _ i.sendable tt))
Edit-Inv {s} (drops tx e) i =
    subst Inv (sym e) (retunnelled i (put-IsSendable s tx _ i.sendable tt))
Edit-Inv {s} (takes tx p rest is_open q e) i = subst Inv (sym e) (
    retunnelled i (put-IsSendable s tx _ i.sendable (subst (All IsWellFormed) q (i.sendable tx)).1))
Edit-Inv {s} (tells cs token e) i = subst Inv (sym e) (record {
  sendable = i.sendable;
  by_stream_id = i.by_stream_id;
  unique_streams = i.unique_streams;
})
Edit-Inv {s} (opens_stream sid tx cs l e) i = subst Inv (sym e) (record {
  sendable = i.sendable;
  by_stream_id = Table.insert-All _ sid tx s.active_streams l i.by_stream_id;
  unique_streams = Table.insert-IsUnique sid tx s.active_streams i.unique_streams;
})
Edit-Inv {s} (ends_stream sid cs e) i = subst Inv (sym e) (record {
  sendable = i.sendable;
  by_stream_id = Table.remove-All _ sid s.active_streams i.by_stream_id;
  unique_streams = Table.remove-IsUnique sid s.active_streams i.unique_streams;
})

pub Edits-Inv : {s s' : Client} → Edits s s' → Inv s → Inv s'
Edits-Inv none_yet i = i
Edits-Inv (then_edit es e) i = Edit-Inv e (Edits-Inv es i)
