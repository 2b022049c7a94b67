-- ===== src/Protocol/Wire/Laws.antt =====
-- The two directions of the wire format.
use neutun.Base.{
  ℕ, ◌≤◌, ◌≡◌, refl, ap, ◌∙◌, sym, Text, Text-discrete, ltb, if◌then◌else◌, Option, none, some, [],
  ◌∷◌, ◌++◌, length, take, drop, get_or, Result, ok, err, arith, take-append, drop-append,
  length-append, take-append-drop, length-take, ◌≢◌, leb, ◌&&◌,
}
use mathlib.Core.List.{append-nil}
use neutun.Utf8.{IsUtf8, from_utf8_lossy}
use neutun.Utf8.Roundtrip.{from_utf8_lossy_lem}
use neutun.Protocol.{
  ControlPacket, init_stream, stream_data, refused, end_stream, ping, empty_stream, token_stream,
}
use neutun.Protocol.Wire.{
  serialize, deserialize, packet_of, missing_stream_id, invalid_control_byte,
}

-- A stream id is eight bytes, and a token is a `String`.
abbrev pub IsWellFormed : ControlPacket → Type 0
IsWellFormed (init_stream sid) = length sid ≡ 8
IsWellFormed (stream_data sid bytes) = length sid ≡ 8
IsWellFormed (refused sid) = length sid ≡ 8
IsWellFormed (end_stream sid) = length sid ≡ 8
IsWellFormed (ping none) = Unit
IsWellFormed (ping (some t)) = IsUtf8 t

-- A message of a control byte, eight bytes of stream id and a rest.
deserialize_parts :
    (b : ℕ) (sid rest : Text)
    → length sid ≡ 8
    → deserialize (b ∷ sid ++ rest) ≡ packet_of b sid rest
unfolding deserialize
deserialize_parts b sid rest h =
    ground (arith, length-append sid rest, take-append 8 sid rest, drop-append 8 sid rest)

deserialize_bare :
    (b : ℕ) (sid : Text) → length sid ≡ 8 → deserialize (b ∷ sid) ≡ packet_of b sid []
deserialize_bare b sid h =
    ap (λ t. deserialize (b ∷ t)) (sym (append-nil sid)) ∙ deserialize_parts b sid [] h

packet_of-token : (t : Text) → IsUtf8 t → packet_of 0x05 token_stream t ≡ ok (ping (some t))
unfolding packet_of Text-discrete
packet_of-token t u = ap (λ s. ok (ping (some s))) (from_utf8_lossy_lem t u)

-- Every packet whose stream id has eight bytes, and whose token if any is a `String`, is read back
-- from its bytes.
pub deserialize-serialize : (p : ControlPacket) → IsWellFormed p → deserialize (serialize p) ≡ ok p
unfolding serialize packet_of Text-discrete
deserialize-serialize (init_stream sid) h = deserialize_bare 1 sid h
deserialize-serialize (stream_data sid bytes) h = deserialize_parts 2 sid bytes h
deserialize-serialize (refused sid) h = deserialize_bare 3 sid h
deserialize-serialize (end_stream sid) h = deserialize_bare 4 sid h
deserialize-serialize (ping none) h = deserialize_bare 5 empty_stream refl
deserialize-serialize (ping (some t)) h =
    deserialize_parts 5 token_stream t refl ∙ packet_of-token t h

-- What the bytes say of the packet that is read from them.
abbrev pub Reads : Text → ControlPacket → Type 0
Reads bytes (stream_data sid rest) = (bytes ≡ serialize (stream_data sid rest)) × (length sid ≡ 8)
Reads bytes (ping none) = take 9 bytes ≡ serialize (ping none)
Reads bytes (ping (some t)) =
    (take 1 bytes ≡ 0x05 ∷ [])
    × (take 8 (drop 1 bytes) ≢ empty_stream)
    × (t ≡ from_utf8_lossy (drop 9 bytes))
Reads bytes (init_stream sid) =
    (bytes ≡ serialize (init_stream sid) ++ drop 9 bytes) × (length sid ≡ 8)
Reads bytes (refused sid) = (bytes ≡ serialize (refused sid) ++ drop 9 bytes) × (length sid ≡ 8)
Reads bytes (end_stream sid) =
    (bytes ≡ serialize (end_stream sid) ++ drop 9 bytes) × (length sid ≡ 8)

packet_of-Reads :
    (b : ℕ) (rest : Text) (p : ControlPacket)
    → 8 ≤ length rest
    → packet_of b (take 8 rest) (drop 8 rest) ≡ ok p
    → Reads (b ∷ rest) p
unfolding packet_of serialize
packet_of-Reads b rest (init_stream sid) h e =
    ground (arith, take-append-drop 8 rest, length-take 8 rest)
packet_of-Reads b rest (stream_data sid bytes) h e =
    ground (arith, take-append-drop 8 rest, length-take 8 rest)
packet_of-Reads b rest (refused sid) h e =
    ground (arith, take-append-drop 8 rest, length-take 8 rest)
packet_of-Reads b rest (end_stream sid) h e =
    ground (arith, take-append-drop 8 rest, length-take 8 rest)
packet_of-Reads b rest (ping none) h e = ground (arith, take-append-drop 8 rest, length-take 8 rest)
packet_of-Reads b rest (ping (some t)) h e =
    ground (arith, take-append-drop 8 rest, length-take 8 rest)

-- A message that is accepted consists of the packet's own bytes: a data packet is the message,
-- byte for byte; an init, refused or end packet is its first nine bytes, and the rest is dropped;
-- a ping without a token has the empty stream's id, and a ping with one has another id and
-- carries the lossy text of the rest.
pub deserialize-Reads :
    (bytes : Text) (p : ControlPacket) → deserialize bytes ≡ ok p → Reads bytes p
unfolding deserialize
deserialize-Reads [] p e = ground arith
deserialize-Reads (b ∷ rest) p e = packet_of-Reads b rest p (ground arith) (ground arith)

abbrev pub error_of : {A E : Type 0} → Result A E → Option E
error_of (ok _) = none
error_of (err e) = some e

-- A message is accepted exactly when it has at least nine bytes and starts with a control byte 1
-- to 5; a shorter one fails for its missing stream id, any other for its control byte.
pub error_of-deserialize :
    (bytes : Text)
    → error_of (deserialize bytes) ≡ (
        if ltb (length bytes) 9
        then some missing_stream_id
        else if leb 1 (get_or bytes 0 0) && leb (get_or bytes 0 0) 5
        then none
        else some invalid_control_byte)
unfolding deserialize packet_of
error_of-deserialize bytes = ground arith
