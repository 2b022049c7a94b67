-- ===== src/Examples/Wire.antt =====
-- The wire format at concrete packets.
use neutun.Base.{◌≡◌, refl, some, codes, ◌∷◌, ok}
use neutun.Protocol.{stream_data, ControlPacket}
use neutun.Protocol.Wire.{serialize, deserialize, missing_stream_id, invalid_control_byte}
use neutun.Protocol.Wire.Laws.{
  Reads, error_of, deserialize-serialize, deserialize-Reads, error_of-deserialize,
}
use neutun.Examples.{stream_id}

abbrev packet : ControlPacket
packet = stream_data stream_id (codes "GET")

deserialize-serialize_example : deserialize (serialize packet) ≡ ok packet
deserialize-serialize_example = deserialize-serialize packet refl

deserialize-serialize_run : deserialize (serialize packet) ≡ ok packet
unfolding deserialize serialize
deserialize-serialize_run = refl

deserialize-Reads_example : Reads (serialize packet) packet
deserialize-Reads_example = deserialize-Reads (serialize packet) packet deserialize-serialize_run

error_of-deserialize_example : error_of (deserialize (9 ∷ stream_id)) ≡ some invalid_control_byte
error_of-deserialize_example = error_of-deserialize (9 ∷ stream_id)

short_run : error_of (deserialize stream_id) ≡ some missing_stream_id
unfolding deserialize
short_run = refl
