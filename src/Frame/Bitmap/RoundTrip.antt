-- ===== src/Frame/Bitmap/RoundTrip.antt =====
-- frame.cpp: BITMAP_HEADER from encoder to decoder.
use nocturnation_stickc.Frame.Wire.Transfer.{stamped, Delivers, Delivers-sent, sent}
use nocturnation_stickc.Frame.Wire.{write_u16_le, write_u32_le, read_u16_le, read_u32_le}
use nocturnation_stickc.Prelude.{
  List, length, ◌≡◌, ◌++◌, ◌*◌, ◌∷◌, arith, ap, length-append, ℕ, get_or-append_add, ◌+◌, refl, [],
  le→ltb, ◌≤◌, false,
}
use nocturnation_stickc.Frame.Types.{Header, Bytes, bitmap_header, ok, IsHeader, header_size}
use nocturnation_stickc.Frame.Bitmap.{
  write_colours, read_colours, BitmapHeaderPayload, Colour, IsBitmapHeader, bitmap_header_bytes,
  bitmap_header_payload_len, decode_bitmap_header, outside, encode_bitmap_header,
}

length-write_colours : (cs : List Colour) → length (write_colours cs) ≡ 3 * length cs
unfolding write_colours
length-write_colours [] = refl
length-write_colours (c ∷ cs) = omega (arith, length-write_colours cs)

read-write_colours :
    (cs : List Colour) (rest : Bytes) → read_colours (write_colours cs ++ rest) (length cs) ≡ cs
unfolding write_colours read_colours
read-write_colours [] rest = refl
read-write_colours (c ∷ cs) rest = ap (◌∷◌ c) (read-write_colours cs rest)

outside_no : (most n : ℕ) → 1 ≤ n → n ≤ most → outside most n ≡ false
outside_no most n lo hi = ground arith

module _ (hdr : Header) (p old : BitmapHeaderPayload) (v : IsBitmapHeader p) where
  length-bitmap_header_bytes : length (bitmap_header_bytes p) ≡ bitmap_header_payload_len
  unfolding bitmap_header_bytes write_u16_le write_u32_le
  length-bitmap_header_bytes = omega (
    arith,
    length-append (write_colours p.colours)
        (p.fit ∷ p.zoom_pct ∷ p.overwrite ∷ (write_u32_le p.checksum ++ write_u16_le p.ttl_ms)),
    length-write_colours p.colours,
  )

  decode-bitmap_header_bytes :
      decode_bitmap_header (stamped hdr bitmap_header 38) (bitmap_header_bytes p) 38 old ≡ (ok, p)
  unfolding bitmap_header_bytes write_u16_le read_u16_le write_u32_le read_u32_le
      decode_bitmap_header
  decode-bitmap_header_bytes =
      let rest =
        p.fit ∷ p.zoom_pct ∷ p.overwrite ∷ (write_u32_le p.checksum ++ write_u16_le p.ttl_ms) in
      let rows = write_colours p.colours in
      let at = λ (j k : ℕ) (e : j ≡ length rows + k). get_or-append_add j k rows rest 0 e in
      let size : length rows ≡ 24 = omega (arith, length-write_colours p.colours) in
      let eight : read_colours (rows ++ rest) 8 ≡ p.colours =
        rw (v.colours_size) at (read-write_colours p.colours rest) in
      rw
        (
          at 24 0 (omega arith),
          at 25 1 (omega arith),
          at 26 2 (omega arith),
          at 27 3 (omega arith),
          at 28 4 (omega arith),
          at 29 5 (omega arith),
          at 30 6 (omega arith),
          at 31 7 (omega arith),
          at 32 8 (omega arith),
          eight,
        )
        (ground arith)

-- A BITMAP_HEADER frame with one to eight planes and sides of 1 to 64, sent from any buffer with room
-- for it, is received with the header as stamped and the payload unchanged.
pub bitmap_header-Delivers :
    (buf : Bytes) (hdr : Header) (p : BitmapHeaderPayload) (old_hdr : Header)
    (old : BitmapHeaderPayload)
    → IsHeader hdr
    → IsBitmapHeader p
    → header_size + bitmap_header_payload_len ≤ length buf
    → Delivers
        (sent (encode_bitmap_header buf hdr p))
        decode_bitmap_header
        hdr
        bitmap_header
        bitmap_header_payload_len
        p
        old_hdr
        old
unfolding encode_bitmap_header
bitmap_header-Delivers buf hdr p old_hdr old h v room =
    let size : length (bitmap_header_bytes p) ≡ 38 = length-bitmap_header_bytes hdr p old v in
    rw
      (
        outside_no 8 p.plane_count v.plane_count_min v.plane_count_max,
        outside_no 64 p.width v.width_min v.width_max,
        outside_no 64 p.height v.height_min v.height_max,
        le→ltb (length buf) 47 room,
      )
      (Delivers-sent decode_bitmap_header buf hdr bitmap_header 38 (bitmap_header_bytes p) p old_hdr
        old h size (decode-bitmap_header_bytes hdr p old v))
