-- ===== src/Frame/Display/PlaneRoundTrip.antt =====
-- frame.cpp: BITMAP_PLANE and CLEAR_SCREEN from encoder to decoder.
use nocturnation_stickc.Frame.Wire.Transfer.{stamped, Delivers, sent, Delivers-sent}
use nocturnation_stickc.Frame.Types.{
  Bytes, Header, IsHeader, IsWord, header_size, bitmap_plane, ok, clear_screen,
}
use nocturnation_stickc.Frame.Wire.{write_u16_le, read_u16_le}
use nocturnation_stickc.Prelude.{
  memcpy, ◌≤◌, ◌+◌, ◌≡◌, length, take, le→ltb, length-take, take_all, ◌%◌, ◌^◌, refl, arith,
}
use nocturnation_stickc.Frame.Display.{
  BitmapPlanePayload, ClearScreenPayload, bitmap_plane_bytes, encode_bitmap_plane,
  encode_clear_screen, as_flag, decode_clear_screen, decode_bitmap_plane, IsBitmapPlane,
  bitmap_plane_max_data_len, bitmap_plane_fixed_prefix_len, clear_screen_payload_len,
}

-- What a receiver holds after BITMAP_PLANE `p`: the data in front of its array's old tail.
abbrev pub placed : BitmapPlanePayload → BitmapPlanePayload → BitmapPlanePayload
placed old p = record p { plane_data = memcpy old.plane_data p.plane_data p.data_len }

-- The flags of CLEAR_SCREEN as the encoder sends them.
abbrev pub flagged : ClearScreenPayload → ClearScreenPayload
flagged p = record p { clear_text = as_flag p.clear_text; clear_bitmap = as_flag p.clear_bitmap }

decode-bitmap_plane_bytes :
    (hdr : Header) (p old : BitmapPlanePayload)
    → IsBitmapPlane p
    → p.data_len ≤ bitmap_plane_max_data_len
    → decode_bitmap_plane
        (stamped hdr bitmap_plane (6 + p.data_len))
        (bitmap_plane_bytes p)
        (6 + p.data_len)
        old
      ≡ (ok, placed old p)
unfolding bitmap_plane_bytes write_u16_le read_u16_le decode_bitmap_plane
decode-bitmap_plane_bytes hdr p old v fits =
    let size : length (take p.data_len p.plane_data) ≡ p.data_len =
      omega (arith, length-take p.data_len p.plane_data) in
    rw
      (
        le→ltb (6 + p.data_len) 6 (omega arith),
        le→ltb 235 p.data_len fits,
        take_all p.data_len (take p.data_len p.plane_data) (omega arith),
      )
      (ground arith)

-- A BITMAP_PLANE frame sent from any buffer with room for it, with at most 235 bytes of data, is
-- received with the header as stamped and every field of the payload, the data in front of what the
-- receiver's array held before.
pub bitmap_plane-Delivers :
    (buf : Bytes) (hdr : Header) (p : BitmapPlanePayload) (old_hdr : Header)
    (old : BitmapPlanePayload)
    → IsHeader hdr
    → IsBitmapPlane p
    → p.data_len ≤ bitmap_plane_max_data_len
    → header_size + (bitmap_plane_fixed_prefix_len + p.data_len) ≤ length buf
    → Delivers
        (sent (encode_bitmap_plane buf hdr p))
        decode_bitmap_plane
        hdr
        bitmap_plane
        (bitmap_plane_fixed_prefix_len + p.data_len)
        (placed old p)
        old_hdr
        old
unfolding encode_bitmap_plane bitmap_plane_bytes write_u16_le
bitmap_plane-Delivers buf hdr p old_hdr old h v fits room =
    let n = 6 + p.data_len in
    let wraps : n % 2 ^ 8 ≡ n = omega arith in
    let size : length (bitmap_plane_bytes p) ≡ n =
      omega (arith, length-take p.data_len p.plane_data) in
    rw
      (
        le→ltb 235 p.data_len fits,
        le→ltb 241 n (omega arith),
        le→ltb (length buf) (9 + n) room,
        wraps,
      )
      (Delivers-sent decode_bitmap_plane buf hdr bitmap_plane n (bitmap_plane_bytes p)
        (placed old p) old_hdr old h size (decode-bitmap_plane_bytes hdr p old v fits))

-- A CLEAR_SCREEN frame sent from any buffer with room for it is received with the header as stamped,
-- the group unchanged and each flag as 0 or 1.
pub clear_screen-Delivers :
    (buf : Bytes) (hdr : Header) (p : ClearScreenPayload) (old_hdr : Header)
    (old : ClearScreenPayload)
    → IsHeader hdr
    → IsWord p.target_group
    → header_size + clear_screen_payload_len ≤ length buf
    → Delivers
        (sent (encode_clear_screen buf hdr p))
        decode_clear_screen
        hdr
        clear_screen
        clear_screen_payload_len
        (flagged p)
        old_hdr
        old
unfolding encode_clear_screen decode_clear_screen write_u16_le read_u16_le
clear_screen-Delivers buf hdr p old_hdr old h v room =
    rw (le→ltb (length buf) 13 room, encode_clear_screen)
      (Delivers-sent decode_clear_screen buf hdr clear_screen 4 _ (flagged p) old_hdr old h refl
        (ground arith))
