-- ===== src/Frame/Display/RoundTrip.antt =====
-- frame.cpp: TEXT_DISPLAY from encoder to decoder.
use nocturnation_stickc.Frame.Wire.{write_u16_le, read_u16_le}
use nocturnation_stickc.Frame.Wire.Transfer.{Delivers, sent, Delivers-sent, stamped}
use nocturnation_stickc.Prelude.{
  ℕ, ◌+◌, ◌≤◌, ◌≡◌, ◌∷◌, ◌++◌, arith, length, drop, memcpy, le→ltb, get_or-append, take_all,
  drop-append_add, take-append, ◌%◌, refl, ◌^◌, length-append, take, length-take, ◌/◌,
}
use nocturnation_stickc.Frame.Types.{Bytes, ok, Header, IsHeader, header_size, text_display}
use nocturnation_stickc.Frame.Display.{
  text_display_max_body_len, TextDisplayPayload, decode_text_body, decode_text_strings,
  encode_text_display, text_display_max_header_len, IsTextDisplay, text_display_min_payload_len,
  decode_text_display, text_display_bytes,
}

-- What a receiver holds after TEXT_DISPLAY `p`: the strings in front of its arrays' old tails.
abbrev pub shown : TextDisplayPayload → TextDisplayPayload → TextDisplayPayload
shown old p = record p {
  header = memcpy old.header p.header p.header_len;
  body = memcpy old.body p.body p.body_len;
}

decode_text_body-append :
    (pre b : Bytes) (bl o n : ℕ) (out : TextDisplayPayload)
    → length pre ≡ o
    → length b ≡ bl
    → bl ≤ text_display_max_body_len
    → n ≡ o + 1 + bl
    → decode_text_body (pre ++ bl ∷ b) n o out
      ≡ (ok, record out { body_len = bl; body = b ++ drop bl out.body })
unfolding decode_text_body
decode_text_body-append pre b bl o n out e size short total =
    let after : drop (o + 1) (pre ++ bl ∷ b) ≡ b =
      drop-append_add (o + 1) 1 pre (bl ∷ b) (omega arith) in
    rw (get_or-append o pre (bl ∷ b) 0 e)
      (rw (le→ltb 128 bl short, after) (ground (arith, take_all bl b)))

-- The strings `h` and `b` behind the fixed prefix.
decode_text_strings-append :
    (p0 p1 p2 p3 p4 p5 p6 : ℕ) (h b : Bytes) (hl bl n : ℕ) (out : TextDisplayPayload)
    → length h ≡ hl
    → length b ≡ bl
    → hl ≤ text_display_max_header_len
    → bl ≤ text_display_max_body_len
    → n ≡ 9 + hl + bl
    → decode_text_strings (p0 ∷ p1 ∷ p2 ∷ p3 ∷ p4 ∷ p5 ∷ p6 ∷ hl ∷ (h ++ bl ∷ b)) n out ≡ (
      ok,
      record out {
        header_len = hl;
        header = h ++ drop hl out.header;
        body_len = bl;
        body = b ++ drop bl out.body;
      },
    )
unfolding decode_text_strings
decode_text_strings-append p0 p1 p2 p3 p4 p5 p6 h b hl bl n out eh eb hs bs total =
    rw (le→ltb 64 hl hs, le→ltb n (8 + hl + 1) (omega arith), take-append hl h (bl ∷ b) eh)
      (decode_text_body-append (p0 ∷ p1 ∷ p2 ∷ p3 ∷ p4 ∷ p5 ∷ p6 ∷ hl ∷ h) b bl (8 + hl) n
        (record out { header_len = hl; header = h ++ drop hl out.header }) (omega arith) eb bs
        (omega arith))

module _ (p : TextDisplayPayload) (v : IsTextDisplay p)
    (hs : p.header_len ≤ text_display_max_header_len)
    (bs : p.body_len ≤ text_display_max_body_len) where
  length-text_display_bytes :
      length (text_display_bytes p) ≡ text_display_min_payload_len + p.header_len + p.body_len
  unfolding text_display_bytes write_u16_le
  length-text_display_bytes = omega (
    arith,
    length-append (take p.header_len p.header) (p.body_len ∷ take p.body_len p.body),
    length-take p.header_len p.header,
    length-take p.body_len p.body,
  )

  decode-text_display_bytes :
      (hdr : Header) (n : ℕ) (old : TextDisplayPayload)
      → n ≡ text_display_min_payload_len + p.header_len + p.body_len
      → decode_text_display (stamped hdr text_display n) (text_display_bytes p) n old
        ≡ (ok, shown old p)
  unfolding text_display_bytes write_u16_le read_u16_le decode_text_display
  decode-text_display_bytes hdr n old e = rw (le→ltb n 9 (omega arith)) (
      ground (
        arith,
        decode_text_strings-append (p.target_group % 256) (p.target_group / 256 % 256) p.r p.g p.b
            (p.ttl_ms % 256) (p.ttl_ms / 256 % 256) (take p.header_len p.header)
            (take p.body_len p.body) p.header_len p.body_len n
            (record old {
              target_group = p.target_group;
              r = p.r;
              g = p.g;
              b = p.b;
              ttl_ms = p.ttl_ms;
            }),
        length-take p.header_len p.header,
        length-take p.body_len p.body,
      ))

-- A TEXT_DISPLAY frame sent from any buffer with room for it, with strings of at most 64 and 128
-- bytes, is received with the header as stamped and every field of the payload, the strings in front
-- of what the receiver's arrays held before.
pub text_display-Delivers :
    (buf : Bytes) (hdr : Header) (p : TextDisplayPayload) (old_hdr : Header)
    (old : TextDisplayPayload)
    → IsHeader hdr
    → IsTextDisplay p
    → p.header_len ≤ text_display_max_header_len
    → p.body_len ≤ text_display_max_body_len
    → header_size + (text_display_min_payload_len + p.header_len + p.body_len) ≤ length buf
    → Delivers
        (sent (encode_text_display buf hdr p))
        decode_text_display
        hdr
        text_display
        (text_display_min_payload_len + p.header_len + p.body_len)
        (shown old p)
        old_hdr
        old
unfolding encode_text_display
text_display-Delivers buf hdr p old_hdr old h v hs bs room =
    let n = 9 + p.header_len + p.body_len in
    let wraps : n % 2 ^ 8 ≡ n = omega arith in
    rw
      (
        le→ltb 64 p.header_len hs,
        le→ltb 128 p.body_len bs,
        le→ltb 241 n (omega arith),
        le→ltb (length buf) (9 + n) room,
        wraps,
      )
      (Delivers-sent decode_text_display buf hdr text_display n (text_display_bytes p) (shown old p)
        old_hdr old h (length-text_display_bytes p v hs bs)
        (decode-text_display_bytes p v hs bs hdr n old refl))
