-- ===== src/Protocol.antt =====
-- neutun_lib/src/lib.rs: the control packets, their bytes, and the client's hello.
pub mod Wire
pub mod Hello
pub mod Pieces
use neutun.Base.{Text, Option, none, some, String, codes, List, [], ◌∷◌}

-- `[u8; 8]`
abbrev pub StreamId : Type 0
StreamId = Text

abbrev pub ClientId : Type 0
ClientId = Text

-- `ReconnectToken(String)`
abbrev pub ReconnectToken : Type 0
ReconnectToken = Text

pub data ControlPacket : Type 0 where
  init_stream : StreamId → ControlPacket
  stream_data : StreamId → Text → ControlPacket
  refused : StreamId → ControlPacket
  end_stream : StreamId → ControlPacket
  ping : Option ReconnectToken → ControlPacket

abbrev pub packet_type : ControlPacket → Text
packet_type (ping _) = codes "PING"
packet_type (init_stream _) = codes "INIT STREAM"
packet_type (stream_data _ _) = codes "STREAM DATA"
packet_type (refused _) = codes "REFUSED"
packet_type (end_stream _) = codes "END STREAM"

abbrev pub empty_stream : StreamId
empty_stream = 0xF ∷ 0 ∷ 0 ∷ 0 ∷ 0 ∷ 0 ∷ 0 ∷ 0 ∷ []

abbrev pub token_stream : StreamId
token_stream = 0xF ∷ 0 ∷ 0 ∷ 0 ∷ 0 ∷ 0 ∷ 0 ∷ 1 ∷ []
