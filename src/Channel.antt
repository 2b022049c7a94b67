-- ===== src/Channel.antt =====
-- `futures::channel::mpsc`: unbounded channels, and the store in which their senders share them.
use neutun.Base.{ℕ, eqb, if◌then◌else◌, ◌≡◌, Bool, true, false, List, [], ◌∷◌, ◌++◌, arith}

-- The items that the receiver has not taken yet. A channel is closed by `close_channel`, or when its
-- receiver is dropped.
pub record Channel {ℓ} (A : Type ℓ) : Type ℓ where
  pub queue : List A
  pub is_open : Bool

-- A sender is the place of its channel in the store.
abbrev pub Sender : Type 0
Sender = ℕ

abbrev pub Channels {ℓ} : Type ℓ → Type ℓ
Channels A = Sender → Channel A

module _ {ℓ} {A : Type ℓ} where
  abbrev pub unbounded : Channel A
  unbounded = record { queue = []; is_open = true }

  abbrev pub put : Sender → Channel A → Channels A → Channels A
  put n c cs m = if eqb n m then c else cs m

  -- The answer of `send`: whether it succeeded. On a closed channel it fails and changes nothing.
  unfoldable pub send : Sender → A → Channels A → Bool × Channels A
  send n a cs =
      if (cs n).is_open
      then (true, put n (record (cs n) { queue = (cs n).queue ++ a ∷ [] }) cs)
      else (false, cs)

  unfoldable pub close_channel : Sender → Channels A → Channels A
  close_channel n cs = put n (record (cs n) { is_open = false }) cs

-- What the receiver of a channel gets: the oldest item, the end of a closed channel, or nothing yet.
pub data Received (A : Type 0) : Type 0 where
  item : A → Channel A → Received A
  finished : Received A
  pending : Received A

next_of : {A : Type 0} → List A → Bool → Received A
next_of (a ∷ rest) is_open = item a (record { queue = rest; is_open = is_open })
next_of [] true = pending
next_of [] false = finished

unfoldable pub next : {A : Type 0} → Channel A → Received A
unfolding next_of
next c = next_of c.queue c.is_open

next_of-item :
    {A : Type 0} (bs : List A) (is_open : Bool) (a : A) (rest : Channel A)
    → next_of bs is_open ≡ item a rest
    → (bs ≡ a ∷ rest.queue) × (is_open ≡ rest.is_open)
unfolding next_of
next_of-item (b ∷ bs) o a rest e = (ground arith, ground arith)
next_of-item [] true a rest e = absurd (ground arith)
next_of-item [] false a rest e = absurd (ground arith)

-- An item that is received was the oldest one.
pub next-item :
    {A : Type 0} (c : Channel A) (a : A) (rest : Channel A)
    → next c ≡ item a rest
    → (c.queue ≡ a ∷ rest.queue) × (c.is_open ≡ rest.is_open)
unfolding next
next-item c a rest e = next_of-item c.queue c.is_open a rest e

-- The channel after its receiver is dropped.
abbrev pub dropped {ℓ} : {A : Type ℓ} → Channel A
dropped = record { queue = []; is_open = false }
