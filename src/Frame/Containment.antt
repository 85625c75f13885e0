-- ===== src/Frame/Containment.antt =====
-- frame.cpp: the encoders of variable length and their buffer.
use nocturnation_stickc.Frame.Config.RoundTrip.{clamp_le}
use nocturnation_stickc.Frame.Wire.{write_u32_le, write_u16_le, write_header}
use nocturnation_stickc.Prelude.{
  if◌then◌else◌, ltb→le, length, take, length-append, length-take, store, length-store, ℕ, ◌+◌, ◌%◌,
  ◌≤◌, ◌<◌, ◌≡◌, refl, Bool, true, false, ◌∷◌, ◌++◌, arith, ltb, ◌^◌, ◌⊎◌, inl, inr,
}
use nocturnation_stickc.Frame.Display.{
  TextDisplayPayload, IsTextDisplay, BitmapPlanePayload, IsBitmapPlane, encode_text_display,
  encode_bitmap_plane, text_display_bytes, bitmap_plane_bytes,
}
use nocturnation_stickc.Frame.Types.{
  Bytes, Header, max_frame_size, text_display, bitmap_plane, uid_announce, config_write,
}
use nocturnation_stickc.Frame.Config.{
  UidAnnouncePayload, IsUidAnnounce, ConfigWritePayload, IsConfigWrite, encode_uid_announce,
  encode_config_write, clamp,
}

-- What the caller of an encoder relies on: the frame fits ESP-NOW's 250 bytes and the buffer, no byte
-- is stored outside the buffer, and with 0 returned the buffer is as it was.
pub record IsContained (buf : Bytes) (r : ℕ × Bytes) : Type 0 where
  pub within_frame : r.0 ≤ max_frame_size
  pub within_buffer : r.0 ≤ length buf
  pub same_length : length r.1 ≡ length buf
  pub untouched : (0 < r.0) ⊎ (r.1 ≡ buf)

contained :
    (buf frame : Bytes) (n : ℕ)
    → 0 < n
    → length frame ≡ n
    → n ≤ length buf
    → n ≤ max_frame_size
    → IsContained buf (n, store buf frame)
contained buf frame n pos e room small = record {
  within_frame = small;
  within_buffer = room;
  same_length = length-store buf frame (omega arith);
  untouched = inl pos;
}

-- A guard of an encoder: it returns 0, or goes on with the guard's test known to fail.
guarded :
    (buf : Bytes) (test : Bool) {r : ℕ × Bytes}
    → (test ≡ false → IsContained buf r)
    → IsContained buf (if test then (0, buf) else r)
guarded buf true k = record {
  within_frame = omega arith;
  within_buffer = omega arith;
  same_length = refl;
  untouched = inr refl;
}
guarded buf false k = k refl

module _ (buf : Bytes) (hdr : Header) where
  encode_text_display-IsContained :
      (p : TextDisplayPayload) → IsTextDisplay p → IsContained buf (encode_text_display buf hdr p)
  unfolding encode_text_display text_display_bytes write_u16_le write_header
  encode_text_display-IsContained p v =
      let n = 9 + p.header_len + p.body_len in
      let frame = write_header hdr text_display (n % 2 ^ 8) ++ text_display_bytes p in
      let size = length-append (take p.header_len p.header) (p.body_len ∷ take p.body_len p.body) in
      guarded buf (ltb 64 p.header_len) λ h. guarded buf (ltb 128 p.body_len) λ b.
        let hs = ltb→le 64 p.header_len h in
        let bs = ltb→le 128 p.body_len b in
        guarded buf (ltb 241 n) λ m. guarded buf (ltb (length buf) (9 + n)) λ r.
          contained buf frame (9 + n) (omega arith)
            (omega (arith, size, length-take p.header_len p.header, length-take p.body_len p.body))
            (ltb→le (length buf) (9 + n) r) (omega arith)

  encode_bitmap_plane-IsContained :
      (p : BitmapPlanePayload) → IsBitmapPlane p → IsContained buf (encode_bitmap_plane buf hdr p)
  unfolding encode_bitmap_plane bitmap_plane_bytes write_u16_le write_header
  encode_bitmap_plane-IsContained p v =
      let n = 6 + p.data_len in
      let frame = write_header hdr bitmap_plane (n % 2 ^ 8) ++ bitmap_plane_bytes p in
      guarded buf (ltb 235 p.data_len) λ d. guarded buf (ltb 241 n) λ m.
        guarded buf (ltb (length buf) (9 + n)) λ r.
          let ds = ltb→le 235 p.data_len d in
          contained buf frame (9 + n) (omega arith)
            (omega (arith, length-take p.data_len p.plane_data)) (ltb→le (length buf) (9 + n) r)
            (omega arith)

  encode_uid_announce-IsContained :
      (p : UidAnnouncePayload) → IsUidAnnounce p → IsContained buf (encode_uid_announce buf hdr p)
  unfolding encode_uid_announce write_u32_le write_header
  encode_uid_announce-IsContained p v =
      let n = clamp 20 p.friendly_name_len in
      let fits : n ≤ 20 = clamp_le 20 p.friendly_name_len in
      let rest = p.role ∷ p.host ∷ n ∷ take n p.friendly_name in
      let total = 9 + (23 + n) % 2 ^ 8 in
      let frame =
        write_header hdr uid_announce ((23 + n) % 2 ^ 8)
        ++ (write_u32_le p.uid ++ (take 16 p.secret ++ rest)) in
      let size : length frame ≡ total = omega (
        arith,
        length-append (take 16 p.secret) rest,
        length-take 16 p.secret,
        length-take n p.friendly_name,
      ) in
      guarded buf (ltb (length buf) total) λ r.
        contained buf frame total (omega arith) size (ltb→le (length buf) total r) (omega arith)

  encode_config_write-IsContained :
      (p : ConfigWritePayload) → IsConfigWrite p → IsContained buf (encode_config_write buf hdr p)
  unfolding encode_config_write write_u32_le write_header
  encode_config_write-IsContained p v =
      let n = clamp 220 p.bag_len in
      let fits : n ≤ 220 = clamp_le 220 p.bag_len in
      let tail = take n p.bag_tlv ++ take 8 p.hmac in
      let m = (21 + n) % 2 ^ 16 in
      let frame =
        write_header hdr config_write (m % 2 ^ 8)
        ++ (write_u32_le p.target_uid ++ (take 8 p.numonce ++ (n ∷ tail))) in
      let size : length frame ≡ 9 + m = omega (
        arith,
        length-append (take 8 p.numonce) (n ∷ tail),
        length-append (take n p.bag_tlv) (take 8 p.hmac),
        length-take 8 p.numonce,
        length-take n p.bag_tlv,
        length-take 8 p.hmac,
      ) in
      guarded buf (ltb (length buf) (9 + m)) λ r.
        contained buf frame (9 + m) (omega arith) size (ltb→le (length buf) (9 + m) r) (omega arith)

-- The four encoders of variable length, on payloads whose arrays have their declared sizes: the frame
-- fits 250 bytes and the buffer, the buffer keeps its length, and a return of 0 leaves it unchanged.
pub encoders-IsContained :
    (buf : Bytes) (hdr : Header) (t : TextDisplayPayload) (b : BitmapPlanePayload)
    (u : UidAnnouncePayload) (c : ConfigWritePayload)
    → IsTextDisplay t
    → IsBitmapPlane b
    → IsUidAnnounce u
    → IsConfigWrite c
    → IsContained buf (encode_text_display buf hdr t)
      × IsContained buf (encode_bitmap_plane buf hdr b)
      × IsContained buf (encode_uid_announce buf hdr u)
      × IsContained buf (encode_config_write buf hdr c)
encoders-IsContained buf hdr t b u c vt vb vu vc = (
  encode_text_display-IsContained buf hdr t vt,
  encode_bitmap_plane-IsContained buf hdr b vb,
  encode_uid_announce-IsContained buf hdr u vu,
  encode_config_write-IsContained buf hdr c vc,
)
