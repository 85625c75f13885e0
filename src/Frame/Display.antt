-- ===== src/Frame/Display.antt =====
-- frame.h and frame.cpp: TEXT_DISPLAY, BITMAP_PLANE and CLEAR_SCREEN. A fixed array of the C++ is a
-- list of that length, of which a shorter memcpy keeps the tail.
pub mod RoundTrip
pub mod PlaneRoundTrip
use nocturnation_stickc.Prelude.{
  ℕ, ◌+◌, ◌-◌, ◌≡◌, ◌%◌, ◌^◌, ◌||◌, not, [], ◌∷◌, ◌++◌, length, take, drop, memcpy, store, ltb,
  ◌==◌, ◌!=◌, if◌then◌else◌,
}
use nocturnation_stickc.Frame.Types.{
  Bytes, IsWord, header_size, max_payload_size, text_display, bitmap_plane, clear_screen, same_type,
  Header, DecodeResult, ok, invalid_message_type, payload_len_mismatch,
}
use nocturnation_stickc.Frame.Wire.{byte, write_u16_le, read_u16_le, write_header}

abbrev pub text_display_max_header_len : ℕ
text_display_max_header_len = 64

abbrev pub text_display_max_body_len : ℕ
text_display_max_body_len = 128

abbrev pub text_display_fixed_prefix_len : ℕ
text_display_fixed_prefix_len = 7

abbrev pub text_display_min_payload_len : ℕ
text_display_min_payload_len = text_display_fixed_prefix_len + 1 + 1

-- TextDisplayPayload
pub record TextDisplayPayload : Type 0 where
  pub target_group : ℕ
  pub r : ℕ
  pub g : ℕ
  pub b : ℕ
  pub ttl_ms : ℕ
  pub header_len : ℕ
  pub header : Bytes
  pub body_len : ℕ
  pub body : Bytes

-- The ranges of the field types and the sizes of the arrays.
pub record IsTextDisplay (p : TextDisplayPayload) : Type 0 where
  pub target_group_range : IsWord p.target_group
  pub ttl_ms_range : IsWord p.ttl_ms
  pub header_array : length p.header ≡ text_display_max_header_len
  pub body_array : length p.body ≡ text_display_max_body_len

-- The payload bytes that the encoder stores behind the header.
unfoldable pub text_display_bytes : TextDisplayPayload → Bytes
text_display_bytes p =
    write_u16_le p.target_group
    ++ (p.r
        ∷ p.g
        ∷ p.b
        ∷ (write_u16_le p.ttl_ms
            ++ (p.header_len
                ∷ (take p.header_len p.header ++ (p.body_len ∷ take p.body_len p.body)))))

unfoldable pub encode_text_display : Bytes → Header → TextDisplayPayload → ℕ × Bytes
encode_text_display buf hdr p =
    let payload_len = text_display_min_payload_len + p.header_len + p.body_len in
    let total = header_size + payload_len in
    if ltb text_display_max_header_len p.header_len
    then (0, buf)
    else if ltb text_display_max_body_len p.body_len
    then (0, buf)
    else if ltb max_payload_size payload_len
    then (0, buf)
    else if ltb (length buf) total
    then (0, buf)
    else (
      total,
      store buf (write_header hdr text_display (payload_len % 2 ^ 8) ++ text_display_bytes p),
    )

-- The part of `decode_text_display` behind `body_len = payload[body_len_offset]`.
unfoldable pub decode_text_body :
    Bytes → ℕ → ℕ → TextDisplayPayload → DecodeResult × TextDisplayPayload
decode_text_body payload payload_len body_len_offset out =
    let body_len = byte payload body_len_offset in
    let body_start = body_len_offset + 1 in
    if ltb text_display_max_body_len body_len
    then (payload_len_mismatch, out)
    else if payload_len != body_start + body_len
    then (payload_len_mismatch, out)
    else (
      ok,
      record out { body_len = body_len; body = memcpy out.body (drop body_start payload) body_len },
    )

-- The part of `decode_text_display` behind the fixed prefix, from `header_len = payload[7]` on.
unfoldable pub decode_text_strings :
    Bytes → ℕ → TextDisplayPayload → DecodeResult × TextDisplayPayload
decode_text_strings payload payload_len out =
    let header_len = byte payload 7 in
    let body_len_offset = 8 + header_len in
    if ltb text_display_max_header_len header_len
    then (payload_len_mismatch, out)
    else if ltb payload_len (body_len_offset + 1)
    then (payload_len_mismatch, out)
    else decode_text_body payload payload_len body_len_offset (record out {
      header_len = header_len;
      header = memcpy out.header (drop 8 payload) header_len;
    })

unfoldable pub decode_text_display :
    Header → Bytes → ℕ → TextDisplayPayload → DecodeResult × TextDisplayPayload
decode_text_display hdr payload payload_len out =
    if not (same_type hdr.message_type text_display)
    then (invalid_message_type, out)
    else if hdr.payload_len != payload_len
    then (payload_len_mismatch, out)
    else if ltb payload_len text_display_min_payload_len
    then (payload_len_mismatch, out)
    else decode_text_strings payload payload_len (record out {
      target_group = read_u16_le payload 0;
      r = byte payload 2;
      g = byte payload 3;
      b = byte payload 4;
      ttl_ms = read_u16_le payload 5;
    })

abbrev pub bitmap_plane_fixed_prefix_len : ℕ
bitmap_plane_fixed_prefix_len = 6

abbrev pub bitmap_plane_max_data_len : ℕ
bitmap_plane_max_data_len = max_payload_size - bitmap_plane_fixed_prefix_len

-- BitmapPlanePayload; the field `data` of the C++ is `plane_data`.
pub record BitmapPlanePayload : Type 0 where
  pub target_group : ℕ
  pub plane_index : ℕ
  pub byte_offset : ℕ
  pub data_len : ℕ
  pub plane_data : Bytes

-- The ranges of the field types and the size of the array.
pub record IsBitmapPlane (p : BitmapPlanePayload) : Type 0 where
  pub target_group_range : IsWord p.target_group
  pub byte_offset_range : IsWord p.byte_offset
  pub plane_data_size : length p.plane_data ≡ bitmap_plane_max_data_len

-- The payload bytes that the encoder stores behind the header.
unfoldable pub bitmap_plane_bytes : BitmapPlanePayload → Bytes
bitmap_plane_bytes p =
    write_u16_le p.target_group
    ++ (p.plane_index ∷ (write_u16_le p.byte_offset ++ (p.data_len ∷ take p.data_len p.plane_data)))

unfoldable pub encode_bitmap_plane : Bytes → Header → BitmapPlanePayload → ℕ × Bytes
encode_bitmap_plane buf hdr p =
    let payload_len = bitmap_plane_fixed_prefix_len + p.data_len in
    let total = header_size + payload_len in
    if ltb bitmap_plane_max_data_len p.data_len
    then (0, buf)
    else if ltb max_payload_size payload_len
    then (0, buf)
    else if ltb (length buf) total
    then (0, buf)
    else (
      total,
      store buf (write_header hdr bitmap_plane (payload_len % 2 ^ 8) ++ bitmap_plane_bytes p),
    )

unfoldable pub decode_bitmap_plane :
    Header → Bytes → ℕ → BitmapPlanePayload → DecodeResult × BitmapPlanePayload
decode_bitmap_plane hdr payload payload_len out =
    let data_len = byte payload 5 in
    let prefix = record out {
      target_group = read_u16_le payload 0;
      plane_index = byte payload 2;
      byte_offset = read_u16_le payload 3;
    } in
    if not (same_type hdr.message_type bitmap_plane)
    then (invalid_message_type, out)
    else if hdr.payload_len != payload_len
    then (payload_len_mismatch, out)
    else if ltb payload_len bitmap_plane_fixed_prefix_len
    then (payload_len_mismatch, out)
    else if ltb bitmap_plane_max_data_len data_len
    then (payload_len_mismatch, prefix)
    else if payload_len != bitmap_plane_fixed_prefix_len + data_len
    then (payload_len_mismatch, prefix)
    else (
      ok,
      record prefix {
        data_len = data_len;
        plane_data = memcpy out.plane_data (drop 6 payload) data_len;
      },
    )

abbrev pub clear_screen_payload_len : ℕ
clear_screen_payload_len = 4

-- ClearScreenPayload
pub record ClearScreenPayload : Type 0 where
  pub target_group : ℕ
  pub clear_text : ℕ
  pub clear_bitmap : ℕ

-- `flag ? 1 : 0`
abbrev pub as_flag : ℕ → ℕ
as_flag v = if v == 0 then 0 else 1

unfoldable pub encode_clear_screen : Bytes → Header → ClearScreenPayload → ℕ × Bytes
encode_clear_screen buf hdr p =
    let total = header_size + clear_screen_payload_len in
    if ltb (length buf) total then (0, buf) else (
      total,
      store buf (
          write_header hdr clear_screen clear_screen_payload_len
          ++ (write_u16_le p.target_group ++ (as_flag p.clear_text ∷ as_flag p.clear_bitmap ∷ []))),
    )

unfoldable pub decode_clear_screen :
    Header → Bytes → ℕ → ClearScreenPayload → DecodeResult × ClearScreenPayload
decode_clear_screen hdr payload payload_len out =
    if not (same_type hdr.message_type clear_screen)
    then (invalid_message_type, out)
    else if hdr.payload_len != clear_screen_payload_len || payload_len != clear_screen_payload_len
    then (payload_len_mismatch, out)
    else (
      ok,
      record {
        target_group = read_u16_le payload 0;
        clear_text = byte payload 2;
        clear_bitmap = byte payload 3;
      },
    )
