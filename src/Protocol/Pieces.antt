-- ===== src/Protocol/Pieces.antt =====
-- Data packets of many streams in one sequence, and the data of one of them.
use neutun.Base.{◌≤◌, Text, ◌==◌, if◌then◌else◌, List, [], ◌∷◌, length, arith}
use neutun.Protocol.{StreamId, ControlPacket, stream_data}

abbrev pub Piece : Type 0
Piece = StreamId × Text

abbrev pub packet : Piece → ControlPacket
packet (sid, bytes) = stream_data sid bytes

-- The pieces of one stream, in order.
unfoldable pub data_of : StreamId → List Piece → List Text
data_of sid [] = []
data_of sid ((k, bytes) ∷ ps) = let rest = data_of sid ps in if k == sid then bytes ∷ rest else rest

pub length-data_of : (sid : StreamId) (ps : List Piece) → length (data_of sid ps) ≤ length ps
unfolding data_of
length-data_of sid [] = omega arith
length-data_of sid ((k, bytes) ∷ ps) = let ih = length-data_of sid ps in ground (arith, ih)
