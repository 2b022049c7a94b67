-- ===== src/Protocol/Wire.antt =====
-- `ControlPacket::serialize` and `ControlPacket::deserialize`.
pub mod Laws
use neutun.Base.{
  ℕ, Text, ◌==◌, eqb, ltb, if◌then◌else◌, Option, none, some, List, [], ◌∷◌, ◌++◌, length, take,
  drop, get_or, Result, ok, err,
}
use neutun.Utf8.{from_utf8_lossy}
use neutun.Protocol.{
  StreamId, ReconnectToken, ControlPacket, init_stream, stream_data, refused, end_stream, ping,
  empty_stream, token_stream,
}

abbrev ping_data : Option ReconnectToken → Text
ping_data none = empty_stream
ping_data (some t) = token_stream ++ t

unfoldable pub serialize : ControlPacket → Text
serialize (init_stream sid) = (0x01 ∷ []) ++ sid
serialize (stream_data sid bytes) = (0x02 ∷ []) ++ sid ++ bytes
serialize (refused sid) = (0x03 ∷ []) ++ sid
serialize (end_stream sid) = (0x04 ∷ []) ++ sid
serialize (ping tok) = (0x05 ∷ []) ++ ping_data tok

pub data WireError : Type 0 where
  missing_stream_id invalid_control_byte : WireError

-- The packet of a control byte, a stream id and the bytes after it.
packet_of : ℕ → StreamId → Text → Result ControlPacket WireError
packet_of b sid rest =
    if eqb b 0x01
    then ok (init_stream sid)
    else if eqb b 0x02
    then ok (stream_data sid rest)
    else if eqb b 0x03
    then ok (refused sid)
    else if eqb b 0x04
    then ok (end_stream sid)
    else if eqb b 0x05
    then (if sid == empty_stream then ok (ping none) else ok (ping (some (from_utf8_lossy rest))))
    else err invalid_control_byte

unfoldable pub deserialize : Text → Result ControlPacket WireError
unfolding packet_of
deserialize bytes =
    if ltb (length bytes) 9
    then err missing_stream_id
    else packet_of (get_or bytes 0 0) (take 8 (drop 1 bytes)) (drop 9 bytes)
