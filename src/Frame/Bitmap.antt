-- ===== src/Frame/Bitmap.antt =====
-- frame.h and frame.cpp: BITMAP_HEADER. `colours[8][3]` is a list of eight triples.
pub mod RoundTrip
use nocturnation_stickc.Prelude.{
  ℕ, zero, suc, ◌+◌, ◌≤◌, ◌≡◌, ◌||◌, Bool, not, List, [], ◌∷◌, ◌++◌, length, drop, store, ltb, ◌==◌,
  ◌!=◌, if◌then◌else◌,
}
use nocturnation_stickc.Frame.Types.{
  Bytes, IsWord, IsDword, header_size, bitmap_header, same_type, Header, DecodeResult, ok,
  invalid_message_type, payload_len_mismatch,
}
use nocturnation_stickc.Frame.Wire.{
  byte, write_u16_le, write_u32_le, read_u16_le, read_u32_le, write_header,
}

abbrev pub bitmap_max_planes : ℕ
bitmap_max_planes = 8

abbrev pub bitmap_max_dimension : ℕ
bitmap_max_dimension = 64

abbrev pub bitmap_header_payload_len : ℕ
bitmap_header_payload_len = 38

-- One row of `colours`.
pub record Colour : Type 0 where
  pub red : ℕ
  pub green : ℕ
  pub blue : ℕ

-- BitmapHeaderPayload
pub record BitmapHeaderPayload : Type 0 where
  pub target_group : ℕ
  pub width : ℕ
  pub height : ℕ
  pub plane_count : ℕ
  pub colours : List Colour
  pub fit : ℕ
  pub zoom_pct : ℕ
  pub overwrite : ℕ
  pub checksum : ℕ
  pub ttl_ms : ℕ

-- The ranges of the field types, the size of the array, and the values that both ends accept.
pub record IsBitmapHeader (p : BitmapHeaderPayload) : Type 0 where
  pub target_group_range : IsWord p.target_group
  pub checksum_range : IsDword p.checksum
  pub ttl_ms_range : IsWord p.ttl_ms
  pub colours_size : length p.colours ≡ bitmap_max_planes
  pub plane_count_min : 1 ≤ p.plane_count
  pub plane_count_max : p.plane_count ≤ bitmap_max_planes
  pub width_min : 1 ≤ p.width
  pub width_max : p.width ≤ bitmap_max_dimension
  pub height_min : 1 ≤ p.height
  pub height_max : p.height ≤ bitmap_max_dimension

-- The loop that stores the rows of `colours`.
unfoldable pub write_colours : List Colour → Bytes
write_colours [] = []
write_colours (c ∷ cs) = c.red ∷ c.green ∷ c.blue ∷ write_colours cs

-- The loop that reads `n` rows.
unfoldable pub read_colours : Bytes → ℕ → List Colour
read_colours src zero = []
read_colours src (suc n) =
    record { red = byte src 0; green = byte src 1; blue = byte src 2 } ∷ read_colours (drop 3 src) n

unfoldable pub bitmap_header_bytes : BitmapHeaderPayload → Bytes
bitmap_header_bytes p =
    write_u16_le p.target_group
    ++ (p.width
        ∷ p.height
        ∷ p.plane_count
        ∷ (write_colours p.colours
            ++ (p.fit
                ∷ p.zoom_pct
                ∷ p.overwrite
                ∷ (write_u32_le p.checksum ++ write_u16_le p.ttl_ms))))

-- `count == 0 || count > most`
abbrev pub outside : ℕ → ℕ → Bool
outside most count = count == 0 || ltb most count

unfoldable pub encode_bitmap_header : Bytes → Header → BitmapHeaderPayload → ℕ × Bytes
encode_bitmap_header buf hdr p =
    let total = header_size + bitmap_header_payload_len in
    if outside bitmap_max_planes p.plane_count
    then (0, buf)
    else if outside bitmap_max_dimension p.width
    then (0, buf)
    else if outside bitmap_max_dimension p.height
    then (0, buf)
    else if ltb (length buf) total
    then (0, buf)
    else (
      total,
      store buf (write_header hdr bitmap_header bitmap_header_payload_len ++ bitmap_header_bytes p),
    )

unfoldable pub decode_bitmap_header :
    Header → Bytes → ℕ → BitmapHeaderPayload → DecodeResult × BitmapHeaderPayload
decode_bitmap_header hdr payload payload_len out =
    let size = record out {
      target_group = read_u16_le payload 0;
      width = byte payload 2;
      height = byte payload 3;
      plane_count = byte payload 4;
    } in
    if not (same_type hdr.message_type bitmap_header)
    then (invalid_message_type, out)
    else if hdr.payload_len != bitmap_header_payload_len || payload_len != bitmap_header_payload_len
    then (payload_len_mismatch, out)
    else if outside bitmap_max_planes (byte payload 4)
    then (payload_len_mismatch, size)
    else if outside bitmap_max_dimension (byte payload 2)
        || outside bitmap_max_dimension (byte payload 3)
    then (payload_len_mismatch, size)
    else (
      ok,
      record size {
        colours = read_colours (drop 5 payload) bitmap_max_planes;
        fit = byte payload 29;
        zoom_pct = byte payload 30;
        overwrite = byte payload 31;
        checksum = read_u32_le payload 32;
        ttl_ms = read_u16_le payload 36;
      },
    )
