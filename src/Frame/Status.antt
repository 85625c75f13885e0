-- ===== src/Frame/Status.antt =====
-- frame.h and frame.cpp: HEARTBEAT and REPEATER_HEARTBEAT. `uid[3]` is three fields.
pub mod RoundTrip
use nocturnation_stickc.Prelude.{
  ℕ, ◌+◌, ◌||◌, not, [], ◌∷◌, ◌++◌, length, store, ltb, ◌!=◌, if◌then◌else◌,
}
use nocturnation_stickc.Frame.Types.{
  Bytes, IsByte, IsWord, IsDword, header_size, heartbeat, repeater_heartbeat, same_type, Header,
  DecodeResult, ok, invalid_message_type, payload_len_mismatch,
}
use nocturnation_stickc.Frame.Wire.{
  byte, write_u16_le, write_u24_le, write_u32_le, read_u16_le, read_u24_le, read_u32_le,
  write_header,
}

abbrev pub heartbeat_payload_len : ℕ
heartbeat_payload_len = 9

-- HeartbeatPayload
pub record HeartbeatPayload : Type 0 where
  pub tick : ℕ
  pub days_since_2026 : ℕ
  pub centiseconds_today : ℕ

-- The ranges of the field types.
pub record IsHeartbeat (p : HeartbeatPayload) : Type 0 where
  pub tick_range : IsDword p.tick
  pub days_since_2026_range : IsWord p.days_since_2026
  pub centiseconds_today_range : IsDword p.centiseconds_today

unfoldable pub encode_heartbeat : Bytes → Header → HeartbeatPayload → ℕ × Bytes
encode_heartbeat buf hdr p =
    let total = header_size + heartbeat_payload_len in
    if ltb (length buf) total then (0, buf) else (
      total,
      store buf (
          write_header hdr heartbeat heartbeat_payload_len
          ++ (write_u32_le p.tick
              ++ (write_u16_le p.days_since_2026 ++ (write_u24_le p.centiseconds_today)))),
    )

unfoldable pub decode_heartbeat :
    Header → Bytes → ℕ → HeartbeatPayload → DecodeResult × HeartbeatPayload
decode_heartbeat hdr payload payload_len out =
    if not (same_type hdr.message_type heartbeat)
    then (invalid_message_type, out)
    else if hdr.payload_len != heartbeat_payload_len || payload_len != heartbeat_payload_len
    then (payload_len_mismatch, out)
    else (
      ok,
      record {
        tick = read_u32_le payload 0;
        days_since_2026 = read_u16_le payload 4;
        centiseconds_today = read_u24_le payload 6;
      },
    )

abbrev pub repeater_heartbeat_payload_len : ℕ
repeater_heartbeat_payload_len = 10

-- RepeaterHeartbeatPayload
pub record RepeaterHeartbeatPayload : Type 0 where
  pub uid0 : ℕ
  pub uid1 : ℕ
  pub uid2 : ℕ
  pub channel : ℕ
  pub uptime_s : ℕ
  pub relayed_count : ℕ

-- The ranges of the field types.
pub record IsRepeaterHeartbeat (p : RepeaterHeartbeatPayload) : Type 0 where
  pub uid0_range : IsByte p.uid0
  pub uid1_range : IsByte p.uid1
  pub uid2_range : IsByte p.uid2
  pub channel_range : IsByte p.channel
  pub uptime_s_range : IsWord p.uptime_s
  pub relayed_count_range : IsDword p.relayed_count

unfoldable pub encode_repeater_heartbeat : Bytes → Header → RepeaterHeartbeatPayload → ℕ × Bytes
encode_repeater_heartbeat buf hdr p =
    let total = header_size + repeater_heartbeat_payload_len in
    if ltb (length buf) total then (0, buf) else (
      total,
      store buf (
          write_header hdr repeater_heartbeat repeater_heartbeat_payload_len
          ++ ((p.uid0 ∷ p.uid1 ∷ p.uid2 ∷ p.channel ∷ [])
              ++ (write_u16_le p.uptime_s ++ (write_u32_le p.relayed_count)))),
    )

unfoldable pub decode_repeater_heartbeat :
    Header → Bytes → ℕ → RepeaterHeartbeatPayload → DecodeResult × RepeaterHeartbeatPayload
decode_repeater_heartbeat hdr payload payload_len out =
    if not (same_type hdr.message_type repeater_heartbeat)
    then (invalid_message_type, out)
    else if hdr.payload_len != repeater_heartbeat_payload_len
        || payload_len != repeater_heartbeat_payload_len
    then (payload_len_mismatch, out)
    else (
      ok,
      record {
        uid0 = byte payload 0;
        uid1 = byte payload 1;
        uid2 = byte payload 2;
        channel = byte payload 3;
        uptime_s = read_u16_le payload 4;
        relayed_count = read_u32_le payload 6;
      },
    )
