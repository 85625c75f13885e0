-- ===== src/Frame/Status/RoundTrip.antt =====
-- frame.cpp: HEARTBEAT and REPEATER_HEARTBEAT from encoder to decoder.
use nocturnation_stickc.Prelude.{◌+◌, ◌≤◌, refl, arith, length, le→ltb, ◌%◌, ◌^◌}
use nocturnation_stickc.Frame.Types.{
  Bytes, header_size, Header, IsHeader, heartbeat, repeater_heartbeat,
}
use nocturnation_stickc.Frame.Wire.{
  write_u16_le, read_u16_le, write_u24_le, read_u24_le, write_u32_le, read_u32_le,
}
use nocturnation_stickc.Frame.Wire.Transfer.{sent, Delivers, Delivers-sent}
use nocturnation_stickc.Frame.Status.{
  HeartbeatPayload, IsHeartbeat, encode_heartbeat, decode_heartbeat, heartbeat_payload_len,
  RepeaterHeartbeatPayload, IsRepeaterHeartbeat, encode_repeater_heartbeat,
  decode_repeater_heartbeat, repeater_heartbeat_payload_len,
}

-- HEARTBEAT on the wire has 24 bits of `centiseconds_today`.
abbrev pub on_wire : HeartbeatPayload → HeartbeatPayload
on_wire p = record p { centiseconds_today = p.centiseconds_today % 2 ^ 24 }

-- A heartbeat frame sent from any buffer with room for it, with header and payload in their field
-- ranges, is received with the header as stamped and the payload unchanged but for the high byte
-- of `centiseconds_today`, which is dropped.
pub heartbeat-Delivers :
    (buf : Bytes) (hdr : Header) (p : HeartbeatPayload) (old_hdr : Header) (old : HeartbeatPayload)
    → IsHeader hdr
    → IsHeartbeat p
    → header_size + heartbeat_payload_len ≤ length buf
    → Delivers
        (sent (encode_heartbeat buf hdr p))
        decode_heartbeat
        hdr
        heartbeat
        heartbeat_payload_len
        (on_wire p)
        old_hdr
        old
unfolding encode_heartbeat decode_heartbeat write_u16_le read_u16_le write_u32_le read_u32_le
    write_u24_le read_u24_le
heartbeat-Delivers buf hdr p old_hdr old h v room =
    rw (le→ltb (length buf) 18 room, encode_heartbeat)
      (Delivers-sent decode_heartbeat buf hdr heartbeat 9 _ (on_wire p) old_hdr old h refl
        (ground arith))

-- A repeater_heartbeat frame sent from any buffer with room for it, with header and payload in their field
-- ranges, is received with the header as stamped and the payload unchanged.
pub repeater_heartbeat-Delivers :
    (buf : Bytes) (hdr : Header) (p : RepeaterHeartbeatPayload) (old_hdr : Header)
    (old : RepeaterHeartbeatPayload)
    → IsHeader hdr
    → IsRepeaterHeartbeat p
    → header_size + repeater_heartbeat_payload_len ≤ length buf
    → Delivers
        (sent (encode_repeater_heartbeat buf hdr p))
        decode_repeater_heartbeat
        hdr
        repeater_heartbeat
        repeater_heartbeat_payload_len
        p
        old_hdr
        old
unfolding encode_repeater_heartbeat decode_repeater_heartbeat write_u16_le read_u16_le write_u32_le
    read_u32_le write_u24_le read_u24_le
repeater_heartbeat-Delivers buf hdr p old_hdr old h v room =
    rw (le→ltb (length buf) 19 room, encode_repeater_heartbeat)
      (Delivers-sent decode_repeater_heartbeat buf hdr repeater_heartbeat 10 _ p old_hdr old h refl
        (ground arith))
