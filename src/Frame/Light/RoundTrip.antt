-- ===== src/Frame/Light/RoundTrip.antt =====
-- frame.cpp: the LIGHT_* family from encoder to decoder.
use nocturnation_stickc.Prelude.{◌+◌, ◌≤◌, refl, arith, length, le→ltb}
use nocturnation_stickc.Frame.Types.{
  Bytes, header_size, Header, IsHeader, light_pulse, light_wash, light_wash_end, light_wash_pulse,
}
use nocturnation_stickc.Frame.Wire.{write_u16_le, read_u16_le}
use nocturnation_stickc.Frame.Wire.Transfer.{sent, Delivers, Delivers-sent}
use nocturnation_stickc.Frame.Light.{
  LightPulsePayload, IsLightPulse, encode_light_pulse, decode_light_pulse, light_pulse_payload_len,
  LightWashPayload, IsLightWash, encode_light_wash, decode_light_wash, light_wash_payload_len,
  LightWashEndPayload, IsLightWashEnd, encode_light_wash_end, decode_light_wash_end,
  light_wash_end_payload_len, LightWashPulsePayload, IsLightWashPulse, encode_light_wash_pulse,
  decode_light_wash_pulse, light_wash_pulse_payload_len,
}

-- A light_pulse frame sent from any buffer with room for it, with header and payload in their field
-- ranges, is received with the header as stamped and the payload unchanged.
pub light_pulse-Delivers :
    (buf : Bytes) (hdr : Header) (p : LightPulsePayload) (old_hdr : Header)
    (old : LightPulsePayload)
    → IsHeader hdr
    → IsLightPulse p
    → header_size + light_pulse_payload_len ≤ length buf
    → Delivers
        (sent (encode_light_pulse buf hdr p))
        decode_light_pulse
        hdr
        light_pulse
        light_pulse_payload_len
        p
        old_hdr
        old
unfolding encode_light_pulse decode_light_pulse write_u16_le read_u16_le
light_pulse-Delivers buf hdr p old_hdr old h v room =
    rw (le→ltb (length buf) 22 room, encode_light_pulse)
      (Delivers-sent decode_light_pulse buf hdr light_pulse 13 _ p old_hdr old h refl
        (ground arith))

-- A light_wash frame sent from any buffer with room for it, with header and payload in their field
-- ranges, is received with the header as stamped and the payload unchanged.
pub light_wash-Delivers :
    (buf : Bytes) (hdr : Header) (p : LightWashPayload) (old_hdr : Header) (old : LightWashPayload)
    → IsHeader hdr
    → IsLightWash p
    → header_size + light_wash_payload_len ≤ length buf
    → Delivers
        (sent (encode_light_wash buf hdr p))
        decode_light_wash
        hdr
        light_wash
        light_wash_payload_len
        p
        old_hdr
        old
unfolding encode_light_wash decode_light_wash write_u16_le read_u16_le
light_wash-Delivers buf hdr p old_hdr old h v room =
    rw (le→ltb (length buf) 29 room, encode_light_wash)
      (Delivers-sent decode_light_wash buf hdr light_wash 20 _ p old_hdr old h refl (ground arith))

-- A light_wash_end frame sent from any buffer with room for it, with header and payload in their field
-- ranges, is received with the header as stamped and the payload unchanged.
pub light_wash_end-Delivers :
    (buf : Bytes) (hdr : Header) (p : LightWashEndPayload) (old_hdr : Header)
    (old : LightWashEndPayload)
    → IsHeader hdr
    → IsLightWashEnd p
    → header_size + light_wash_end_payload_len ≤ length buf
    → Delivers
        (sent (encode_light_wash_end buf hdr p))
        decode_light_wash_end
        hdr
        light_wash_end
        light_wash_end_payload_len
        p
        old_hdr
        old
unfolding encode_light_wash_end decode_light_wash_end write_u16_le read_u16_le
light_wash_end-Delivers buf hdr p old_hdr old h v room =
    rw (le→ltb (length buf) 16 room, encode_light_wash_end)
      (Delivers-sent decode_light_wash_end buf hdr light_wash_end 7 _ p old_hdr old h refl
        (ground arith))

-- A light_wash_pulse frame sent from any buffer with room for it, with header and payload in their field
-- ranges, is received with the header as stamped and the payload unchanged.
pub light_wash_pulse-Delivers :
    (buf : Bytes) (hdr : Header) (p : LightWashPulsePayload) (old_hdr : Header)
    (old : LightWashPulsePayload)
    → IsHeader hdr
    → IsLightWashPulse p
    → header_size + light_wash_pulse_payload_len ≤ length buf
    → Delivers
        (sent (encode_light_wash_pulse buf hdr p))
        decode_light_wash_pulse
        hdr
        light_wash_pulse
        light_wash_pulse_payload_len
        p
        old_hdr
        old
unfolding encode_light_wash_pulse decode_light_wash_pulse write_u16_le read_u16_le
light_wash_pulse-Delivers buf hdr p old_hdr old h v room =
    rw (le→ltb (length buf) 22 room, encode_light_wash_pulse)
      (Delivers-sent decode_light_wash_pulse buf hdr light_wash_pulse 13 _ p old_hdr old h refl
        (ground arith))
