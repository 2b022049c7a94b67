-- ===== src/Examples/Mixture.antt =====
-- Two streams over one websocket, at concrete packets.
use neutun.Base.{
  Text-discrete, ◌==◌, if◌then◌else◌, ◌≡◌, refl, false, none, some, codes, List, [], ◌∷◌, arith,
  All,
}
use neutun.Table
use neutun.Channel.{Sender}
use neutun.Protocol.{StreamId}
use neutun.Protocol.Pieces.{Piece, data_of}
use neutun.Server.{ActiveStream, Server}
use neutun.Remote.Stream.Download.{write_all}
use neutun.Control.Sink.Turns.{tunnel_client_all}
use neutun.Control.Client.Forward.All.{process_client_messages}
use neutun.Control.Client.Forward.Demux as Users
use neutun.Client.Tunnel.{Client, process_messages, end_task}
use neutun.Client.Tunnel.Demux as Locals
use neutun.Client.Introspect.Copies.{forward_all}
use neutun.Client.Wormhole.Writing.{write_packets}
use neutun.Base.{◌≢◌}
use neutun.Server.Connections.{get}
use neutun.Remote.Stream.Mux.{Schedule, read_turns}
use neutun.Client.Tunnel.Mux.{local_turns}
use neutun.System.Mixed.{forward_all-read_turns, write_all-local_turns}
use neutun.Examples.{server, old_client, stream, stream_id}
use neutun.Examples.Clientside.{idle, up}

abbrev other_id : StreamId
other_id = 9 ∷ 9 ∷ 9 ∷ 9 ∷ 9 ∷ 9 ∷ 9 ∷ 9 ∷ []

abbrev pieces : List Piece
pieces = (stream_id, codes "A") ∷ (other_id, codes "X") ∷ (stream_id, codes "B") ∷ []

abbrev at : StreamId → Sender
at k = if k == stream_id then 4 else 5

abbrev client : Client
client = record idle { active_streams = (stream_id, 4) ∷ (other_id, 5) ∷ [] }

first_local : Locals.Fits at stream_id client (stream_id, codes "A")
unfolding Table.get Text-discrete
first_local = record {
  eight = refl;
  known = record { known = refl; reads = refl };
  apart = λ _. refl;
}

other_local : Locals.Fits at stream_id client (other_id, codes "X")
unfolding Table.get Text-discrete
other_local = record {
  eight = refl;
  known = record { known = refl; reads = refl };
  apart = λ e. absurd (omega arith);
}

last_local : Locals.Fits at stream_id client (stream_id, codes "B")
unfolding Table.get Text-discrete
last_local = record {
  eight = refl;
  known = record { known = refl; reads = refl };
  apart = λ _. refl;
}

abbrev other_stream : ActiveStream
other_stream = record { id = other_id; client = old_client; tx = 8 }

abbrev schedule : Schedule
schedule = (stream, codes "A") ∷ (other_stream, codes "X") ∷ (stream, codes "B") ∷ []

registered : get (codes "id0") server ≢ none
unfolding get Table.get Text-discrete
registered = λ e. absurd (ground arith)

forward_all-read_turns_example :
    let sent = tunnel_client_all 3 old_client (read_turns schedule server) in
    let heard = process_messages false up 6 0 sent.0 client in
    (heard.0 ≡ none) × ((forward_all 4 4 (end_task (some 4) stream_id heard.1)).0 ≡ codes "AB")
unfolding data_of Text-discrete
forward_all-read_turns_example =
    forward_all-read_turns at stream_id schedule old_client server false up 6 0 client 3 4
      (refl, (refl, (refl, tt))) registered refl (first_local, (other_local, (last_local, tt))) refl
      (omega arith) (omega arith)

abbrev named : StreamId → ActiveStream
named k = if k == stream_id then stream else other_stream

abbrev active : Server
active = record server { active_streams = (stream_id, stream) ∷ (other_id, other_stream) ∷ [] }

first_user : Users.Fits named stream_id active (stream_id, codes "A")
unfolding Table.get Text-discrete
first_user = record { eight = refl; active = refl; reads = refl; apart = λ _. refl }

other_user : Users.Fits named stream_id active (other_id, codes "X")
unfolding Table.get Text-discrete
other_user = record { eight = refl; active = refl; reads = refl; apart = λ e. absurd (omega arith) }

last_user : Users.Fits named stream_id active (stream_id, codes "B")
unfolding Table.get Text-discrete
last_user = record { eight = refl; active = refl; reads = refl; apart = λ _. refl }

full : All (λ p. p.1 ≢ []) pieces
full = (λ e. absurd (ground arith), (λ e. absurd (ground arith), (λ e. absurd (ground arith), tt)))

write_all-local_turns_example :
    let messages = write_packets 3 0 (local_turns 0 pieces idle) in
    (write_all 4 stream (process_client_messages old_client messages active)).0 ≡ codes "AB"
unfolding data_of Text-discrete
write_all-local_turns_example =
    write_all-local_turns named stream_id pieces old_client active 0 idle 3 4 full refl
      (first_user, (other_user, (last_user, tt))) refl (omega arith) (omega arith)
