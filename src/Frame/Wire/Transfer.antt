-- ===== src/Frame/Wire/Transfer.antt =====
-- frame.cpp: the header on its way from `write_header` to `decode_header`.
use nocturnation_stickc.Prelude.{
  ℕ, ◌+◌, ◌≤◌, ◌≡◌, refl, ◌++◌, some, arith, length, take, drop, store, take-append, le→ltb,
}
use nocturnation_stickc.Frame.Types.{
  Bytes, protocol_version, header_size, MessageType, heartbeat, to_byte, known_message_type, Header,
  IsHeader, DecodeResult, ok,
}
use nocturnation_stickc.Frame.Wire.{read_u16_le, write_header, decode_header}

-- The frame on the air: as many bytes of the buffer as the encoder returned.
abbrev pub sent : ℕ × Bytes → Bytes
sent r = take r.0 r.1

-- A header as the encoder of type `t` puts it on the wire.
abbrev pub stamped : Header → MessageType → ℕ → Header
stamped hdr t n = record hdr { version = protocol_version; message_type = t; payload_len = n }

-- A receiver of `frame` reads header `hdr` with type `t`, then the `n` bytes of payload as `p`.
abbrev pub Delivers :
    {P : Type 0}
    → Bytes
    → (Header → Bytes → ℕ → P → DecodeResult × P)
    → Header
    → MessageType
    → ℕ
    → P
    → Header
    → P
    → Type 0
Delivers frame decode hdr t n p old_hdr old =
    (decode_header frame (length frame) old_hdr ≡ (ok, stamped hdr t n))
    × (decode (stamped hdr t n) (drop header_size frame) n old ≡ (ok, p))

pub sent-store : (buf frame : Bytes) (n : ℕ) → length frame ≡ n → take n (store buf frame) ≡ frame
sent-store buf frame n h = take-append n frame (drop (length frame) buf) h

pub known_message_type-to_byte : (t : MessageType) → known_message_type (to_byte t) ≡ some t
unfolding known_message_type
known_message_type-to_byte heartbeat = refl
known_message_type-to_byte _ = refl

pub length-write_header :
    (hdr : Header) (t : MessageType) (n : ℕ) (rest : Bytes)
    → length (write_header hdr t n ++ rest) ≡ header_size + length rest
unfolding write_header
length-write_header hdr t n rest = omega arith

pub drop-write_header :
    (hdr : Header) (t : MessageType) (n : ℕ) (rest : Bytes)
    → drop header_size (write_header hdr t n ++ rest) ≡ rest
unfolding write_header
drop-write_header hdr t n rest = refl

-- `decode_header` reads back what `write_header` wrote, if the payload is all there.
pub decode_header-write_header :
    (hdr : Header) (t : MessageType) (n : ℕ) (rest : Bytes) (old : Header)
    → IsHeader hdr
    → n ≤ length rest
    → decode_header (write_header hdr t n ++ rest) (header_size + length rest) old
      ≡ (ok, stamped hdr t n)
unfolding decode_header write_header read_u16_le
decode_header-write_header hdr t n rest old h fits =
    rw
      (
        le→ltb (header_size + length rest) header_size (omega arith),
        known_message_type-to_byte t,
        le→ltb (header_size + length rest) (header_size + n) (omega arith),
      )
      (ground arith)

-- The common part of the round trips: the header comes back, and the payload decoder is handed the
-- payload as it was encoded.
pub Delivers-sent :
    {P : Type 0} (decode : Header → Bytes → ℕ → P → DecodeResult × P) (buf : Bytes) (hdr : Header)
    (t : MessageType) (n : ℕ) (rest : Bytes) (p : P) (old_hdr : Header) (old : P)
    → IsHeader hdr
    → length rest ≡ n
    → decode (stamped hdr t n) rest n old ≡ (ok, p)
    → Delivers
        (sent (header_size + n, store buf (write_header hdr t n ++ rest)))
        decode
        hdr
        t
        n
        p
        old_hdr
        old
Delivers-sent decode buf hdr t n rest p old_hdr old h e d =
    let size = length-write_header hdr t n rest in
    rw (sent-store buf (write_header hdr t n ++ rest) (header_size + n) (omega arith), size)
      (decode_header-write_header hdr t n rest old_hdr h (omega arith), rw drop-write_header d)
