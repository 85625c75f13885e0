-- ===== src/Frame/Wire.antt =====
-- frame.cpp: the little-endian helpers, `write_header`, `decode_header` and `set_hop_count`.
-- A run of consecutive stores `buf[o] = ...` is the list of the bytes stored. The bits that the
-- readers join by `|` are disjoint, so `|` is a sum there.
pub mod Transfer
pub mod HeaderLaws
use nocturnation_stickc.Prelude.{
  ℕ, ◌+◌, ◌*◌, ◌/◌, ◌%◌, ◌^◌, ◌||◌, [], ◌∷◌, none, some, length, get_or, set, ltb, ◌!=◌,
  if◌then◌else◌,
}
use nocturnation_stickc.Frame.Types.{
  Bytes, magic0, magic1, protocol_version, header_size, hop_count_offset, MessageType, to_byte,
  known_message_type, Header, DecodeResult, ok, buffer_too_short, invalid_magic,
  invalid_protocol_version, invalid_message_type,
}

-- src[o]
abbrev pub byte : Bytes → ℕ → ℕ
byte src o = get_or src o 0

unfoldable pub write_u16_le : ℕ → Bytes
write_u16_le v = (v % 2 ^ 8) ∷ (v / 2 ^ 8 % 2 ^ 8) ∷ []

unfoldable pub write_u24_le : ℕ → Bytes
write_u24_le v = (v % 2 ^ 8) ∷ (v / 2 ^ 8 % 2 ^ 8) ∷ (v / 2 ^ 16 % 2 ^ 8) ∷ []

unfoldable pub write_u32_le : ℕ → Bytes
write_u32_le v =
    (v % 2 ^ 8) ∷ (v / 2 ^ 8 % 2 ^ 8) ∷ (v / 2 ^ 16 % 2 ^ 8) ∷ (v / 2 ^ 24 % 2 ^ 8) ∷ []

-- read_u16_le(src + o)
unfoldable pub read_u16_le : Bytes → ℕ → ℕ
read_u16_le src o = byte src o + byte src (o + 1) * 2 ^ 8

unfoldable pub read_u24_le : Bytes → ℕ → ℕ
read_u24_le src o = byte src o + byte src (o + 1) * 2 ^ 8 + byte src (o + 2) * 2 ^ 16

unfoldable pub read_u32_le : Bytes → ℕ → ℕ
read_u32_le src o =
    byte src o + byte src (o + 1) * 2 ^ 8 + byte src (o + 2) * 2 ^ 16 + byte src (o + 3) * 2 ^ 24

unfoldable pub write_header : Header → MessageType → ℕ → Bytes
write_header hdr message_type payload_len =
    magic0
    ∷ magic1
    ∷ protocol_version
    ∷ (hdr.source_id % 2 ^ 8)
    ∷ (hdr.source_id / 2 ^ 8 % 2 ^ 8)
    ∷ hdr.sequence_number
    ∷ hdr.hop_count
    ∷ to_byte message_type
    ∷ payload_len
    ∷ []

unfoldable pub decode_header : Bytes → ℕ → Header → DecodeResult × Header
decode_header buf buf_len out =
    if ltb buf_len header_size
    then (buffer_too_short, out)
    else if byte buf 0 != magic0 || byte buf 1 != magic1
    then (invalid_magic, out)
    else if byte buf 2 != protocol_version
    then (invalid_protocol_version, out)
    else elim (known_message_type (byte buf 7)) [
      | none ↦ (invalid_message_type, out)
      | some t ↦ if ltb buf_len (header_size + byte buf 8) then (buffer_too_short, out) else (
        ok,
        record {
          version = byte buf 2;
          source_id = read_u16_le buf 3;
          sequence_number = byte buf 5;
          hop_count = byte buf 6;
          message_type = t;
          payload_len = byte buf 8;
        },
      )
    ]

-- `buf` is no null pointer here.
unfoldable pub set_hop_count : Bytes → ℕ → Bytes
set_hop_count buf new_hops =
    if ltb (length buf) header_size then buf else set buf hop_count_offset new_hops
