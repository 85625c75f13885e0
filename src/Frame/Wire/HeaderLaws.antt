-- ===== src/Frame/Wire/HeaderLaws.antt =====
-- frame.cpp: `decode_header` on arbitrary bytes, and `set_hop_count` on a frame to relay.
use nocturnation_stickc.Frame.Wire.Transfer.{known_message_type-to_byte}
use nocturnation_stickc.Frame.Wire.{decode_header, byte, set_hop_count, read_u16_le}
use nocturnation_stickc.Prelude.{
  length, drop, ℕ, ◌+◌, ◌≤◌, ◌≡◌, ◌≢◌, ◌↔◌, some, ◌∷◌, arith, le→ltb, Option-cases, inl, inr,
}
use nocturnation_stickc.Frame.Types.{
  Bytes, MessageType, Header, known_message_type, header_size, to_byte, ok, magic0, magic1,
  protocol_version,
}

pub known_message_type_sound :
    (raw : ℕ) (t : MessageType) → known_message_type raw ≡ some t → to_byte t ≡ raw
unfolding known_message_type
known_message_type_sound raw t e = ground arith

-- What the wire must hold for `decode_header` to accept `n` bytes of `buf`.
pub record IsFrame (buf : Bytes) (n : ℕ) : Type 0 where
  pub room : header_size ≤ n
  pub first_magic : byte buf 0 ≡ magic0
  pub second_magic : byte buf 1 ≡ magic1
  pub version_byte : byte buf 2 ≡ protocol_version
  pub kind : MessageType
  pub kind_byte : to_byte kind ≡ byte buf 7
  pub payload_room : header_size + byte buf 8 ≤ n

accepted-IsFrame :
    (buf : Bytes) (n : ℕ) (out : Header) → (decode_header buf n out).0 ≡ ok → IsFrame buf n
unfolding decode_header
accepted-IsFrame buf n out e = elim (Option-cases (known_message_type (byte buf 7))) [
  | inl unknown ↦ absurd (ground (arith, unknown))
  | inr (t, known) ↦ record {
    room = ground (arith, known);
    first_magic = ground (arith, known);
    second_magic = ground (arith, known);
    version_byte = ground (arith, known);
    kind = t;
    kind_byte = known_message_type_sound (byte buf 7) t known;
    payload_room = ground (arith, known);
  }
]

IsFrame-accepted :
    (buf : Bytes) (n : ℕ) (out : Header) → IsFrame buf n → (decode_header buf n out).0 ≡ ok
unfolding decode_header
IsFrame-accepted buf n out f =
    let known : known_message_type (byte buf 7) ≡ some f.kind =
      rw (← f.kind_byte) (known_message_type-to_byte f.kind) in
    rw (known, le→ltb n 9 f.room, le→ltb n (9 + byte buf 8) f.payload_room) (ground arith)

-- `decode_header` accepts exactly the buffers that hold at least nine bytes, the two magic bytes, the
-- protocol version, a known message type, and the whole payload that byte 8 announces.
pub decode_header_iff :
    (buf : Bytes) (n : ℕ) (out : Header) → ((decode_header buf n out).0 ≡ ok) ↔ IsFrame buf n
decode_header_iff buf n out = (accepted-IsFrame buf n out, IsFrame-accepted buf n out)

-- A buffer that `decode_header` does not accept leaves the caller's header as it was.
pub decode_header_rejects :
    (buf : Bytes) (n : ℕ) (out : Header)
    → (decode_header buf n out).0 ≢ ok
    → (decode_header buf n out).1 ≡ out
unfolding decode_header
decode_header_rejects buf n out h = ground arith

-- A relayed frame: after `set_hop_count` an accepted frame is accepted with the same header but for
-- the hop count, and its length and its payload are unchanged.
pub decode_header-set_hop_count :
    (buf : Bytes) (hops : ℕ) (old hdr : Header)
    → decode_header buf (length buf) old ≡ (ok, hdr)
    → (decode_header (set_hop_count buf hops) (length buf) old
        ≡ (ok, record hdr { hop_count = hops }))
      × (length (set_hop_count buf hops) ≡ length buf)
      × (drop header_size (set_hop_count buf hops) ≡ drop header_size buf)
unfolding decode_header set_hop_count read_u16_le
decode_header-set_hop_count (b0 ∷ b1 ∷ b2 ∷ b3 ∷ b4 ∷ b5 ∷ b6 ∷ b7 ∷ b8 ∷ rest) hops old hdr e =
    ground arith
decode_header-set_hop_count _ hops old hdr e = cc
