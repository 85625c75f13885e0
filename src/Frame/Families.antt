-- ===== src/Frame/Families.antt =====
-- frame.cpp: the fixed layouts of the codec, family by family.
use nocturnation_stickc.Prelude.{length, ◌+◌, ◌≤◌}
use nocturnation_stickc.Frame.Bitmap.RoundTrip.{bitmap_header-Delivers}
use nocturnation_stickc.Frame.Wire.Transfer.{Delivers, sent}
use nocturnation_stickc.Frame.Light.RoundTrip.{
  light_pulse-Delivers, light_wash-Delivers, light_wash_end-Delivers, light_wash_pulse-Delivers,
}
use nocturnation_stickc.Frame.Display.PlaneRoundTrip.{
  bitmap_plane-Delivers, clear_screen-Delivers, placed, flagged,
}
use nocturnation_stickc.Frame.Config.RoundTrip.{
  config_ack-Delivers, uid_announce-Delivers, announced,
}
use nocturnation_stickc.Frame.Status.RoundTrip.{
  heartbeat-Delivers, repeater_heartbeat-Delivers, on_wire,
}
use nocturnation_stickc.Frame.Display.{
  BitmapPlanePayload, IsBitmapPlane, ClearScreenPayload, bitmap_plane_max_data_len,
  bitmap_plane_fixed_prefix_len, clear_screen_payload_len, encode_bitmap_plane, decode_bitmap_plane,
  encode_clear_screen, decode_clear_screen,
}
use nocturnation_stickc.Frame.Light.{
  LightPulsePayload, IsLightPulse, LightWashPayload, IsLightWash, LightWashEndPayload,
  IsLightWashEnd, LightWashPulsePayload, IsLightWashPulse, light_wash_payload_len,
  light_pulse_payload_len, light_wash_pulse_payload_len, light_wash_end_payload_len,
  encode_light_wash, decode_light_wash, encode_light_pulse, decode_light_pulse,
  encode_light_wash_pulse, decode_light_wash_pulse, encode_light_wash_end, decode_light_wash_end,
}
use nocturnation_stickc.Frame.Status.{
  HeartbeatPayload, IsHeartbeat, RepeaterHeartbeatPayload, IsRepeaterHeartbeat,
  heartbeat_payload_len, repeater_heartbeat_payload_len, encode_heartbeat, decode_heartbeat,
  encode_repeater_heartbeat, decode_repeater_heartbeat,
}
use nocturnation_stickc.Frame.Types.{
  Bytes, IsWord, Header, IsHeader, header_size, light_wash, bitmap_header, heartbeat, light_pulse,
  bitmap_plane, repeater_heartbeat, light_wash_pulse, clear_screen, uid_announce, light_wash_end,
  config_ack,
}
use nocturnation_stickc.Frame.Config.{
  UidAnnouncePayload, IsUidAnnounce, ConfigAckPayload, IsConfigAck, uid_announce_fixed_prefix_len,
  config_ack_payload_len, encode_uid_announce, decode_uid_announce, encode_config_ack,
  decode_config_ack,
}
use nocturnation_stickc.Frame.Bitmap.{
  BitmapHeaderPayload, IsBitmapHeader, bitmap_header_payload_len, encode_bitmap_header,
  decode_bitmap_header,
}

-- The four LIGHT_* frames, sent from a buffer with room for them, with header and
-- payloads in their field ranges, are received with the header as stamped and the payload as sent.
pub light_family-Delivers :
    (buf : Bytes) (hdr old_hdr : Header) (wash old_wash : LightWashPayload)
    (pulse old_pulse : LightPulsePayload) (wash_pulse old_wash_pulse : LightWashPulsePayload)
    (wash_end old_wash_end : LightWashEndPayload)
    → IsHeader hdr
    → IsLightWash wash
    → header_size + light_wash_payload_len ≤ length buf
    → IsLightPulse pulse
    → header_size + light_pulse_payload_len ≤ length buf
    → IsLightWashPulse wash_pulse
    → header_size + light_wash_pulse_payload_len ≤ length buf
    → IsLightWashEnd wash_end
    → header_size + light_wash_end_payload_len ≤ length buf
    → (Delivers
        (sent (encode_light_wash buf hdr wash))
        decode_light_wash
        hdr
        light_wash
        light_wash_payload_len
        wash
        old_hdr
        old_wash)
      × (Delivers
          (sent (encode_light_pulse buf hdr pulse))
          decode_light_pulse
          hdr
          light_pulse
          light_pulse_payload_len
          pulse
          old_hdr
          old_pulse)
      × (Delivers
          (sent (encode_light_wash_pulse buf hdr wash_pulse))
          decode_light_wash_pulse
          hdr
          light_wash_pulse
          light_wash_pulse_payload_len
          wash_pulse
          old_hdr
          old_wash_pulse)
      × (Delivers
          (sent (encode_light_wash_end buf hdr wash_end))
          decode_light_wash_end
          hdr
          light_wash_end
          light_wash_end_payload_len
          wash_end
          old_hdr
          old_wash_end)
light_family-Delivers buf hdr old_hdr wash old_wash pulse old_pulse wash_pulse old_wash_pulse
      wash_end old_wash_end h wash_range wash_room pulse_range pulse_room wash_pulse_range
      wash_pulse_room wash_end_range wash_end_room =
    (
      light_wash-Delivers buf hdr wash old_hdr old_wash h wash_range wash_room,
      light_pulse-Delivers buf hdr pulse old_hdr old_pulse h pulse_range pulse_room,
      light_wash_pulse-Delivers buf hdr wash_pulse old_hdr old_wash_pulse h wash_pulse_range
          wash_pulse_room,
      light_wash_end-Delivers buf hdr wash_end old_hdr old_wash_end h wash_end_range wash_end_room,
    )

-- The frames bitmap_header, bitmap_plane and clear_screen, sent from a buffer with room for them, with header and
-- payloads in their field ranges, are received with the header as stamped and the payload as sent. The plane is placed in a
-- receiver's payload, and the flag of clear_screen comes back as 0 or 1.
pub display_family-Delivers :
    (buf : Bytes) (hdr old_hdr : Header) (picture old_picture : BitmapHeaderPayload)
    (plane old_plane : BitmapPlanePayload) (clearing old_clearing : ClearScreenPayload)
    → IsHeader hdr
    → IsBitmapHeader picture
    → header_size + bitmap_header_payload_len ≤ length buf
    → IsBitmapPlane plane
    → plane.data_len ≤ bitmap_plane_max_data_len
    → header_size + (bitmap_plane_fixed_prefix_len + plane.data_len) ≤ length buf
    → IsWord clearing.target_group
    → header_size + clear_screen_payload_len ≤ length buf
    → (Delivers
        (sent (encode_bitmap_header buf hdr picture))
        decode_bitmap_header
        hdr
        bitmap_header
        bitmap_header_payload_len
        picture
        old_hdr
        old_picture)
      × (Delivers
          (sent (encode_bitmap_plane buf hdr plane))
          decode_bitmap_plane
          hdr
          bitmap_plane
          (bitmap_plane_fixed_prefix_len + plane.data_len)
          (placed old_plane plane)
          old_hdr
          old_plane)
      × (Delivers
          (sent (encode_clear_screen buf hdr clearing))
          decode_clear_screen
          hdr
          clear_screen
          clear_screen_payload_len
          (flagged clearing)
          old_hdr
          old_clearing)
display_family-Delivers buf hdr old_hdr picture old_picture plane old_plane clearing old_clearing h
      picture_range picture_room plane_range plane_fits plane_room clearing_range clearing_room =
    (
      bitmap_header-Delivers buf hdr picture old_hdr old_picture h picture_range picture_room,
      bitmap_plane-Delivers buf hdr plane old_hdr old_plane h plane_range plane_fits plane_room,
      clear_screen-Delivers buf hdr clearing old_hdr old_clearing h clearing_range clearing_room,
    )

-- The frames heartbeat, repeater_heartbeat, uid_announce and config_ack, sent from a buffer with room for
-- them, with header and payloads in the ranges of their C++ fields, are received with the header as
-- stamped. The payloads of repeater_heartbeat and config_ack arrive as sent. That of heartbeat does but for
-- its 32-bit `centiseconds_today`, of which the low 24 bits arrive. That of uid_announce does but for its
-- name: at most 20 bytes of it arrive, padded with zeros to 20, and its length is the number of these bytes.
pub telemetry_family-Delivers :
    (buf : Bytes) (hdr old_hdr : Header) (beat old_beat : HeartbeatPayload)
    (relay old_relay : RepeaterHeartbeatPayload) (announce old_announce : UidAnnouncePayload)
    (ack old_ack : ConfigAckPayload)
    → IsHeader hdr
    → IsHeartbeat beat
    → header_size + heartbeat_payload_len ≤ length buf
    → IsRepeaterHeartbeat relay
    → header_size + repeater_heartbeat_payload_len ≤ length buf
    → IsUidAnnounce announce
    → header_size + (uid_announce_fixed_prefix_len + (announced announce).friendly_name_len)
      ≤ length buf
    → IsConfigAck ack
    → header_size + config_ack_payload_len ≤ length buf
    → (Delivers
        (sent (encode_heartbeat buf hdr beat))
        decode_heartbeat
        hdr
        heartbeat
        heartbeat_payload_len
        (on_wire beat)
        old_hdr
        old_beat)
      × (Delivers
          (sent (encode_repeater_heartbeat buf hdr relay))
          decode_repeater_heartbeat
          hdr
          repeater_heartbeat
          repeater_heartbeat_payload_len
          relay
          old_hdr
          old_relay)
      × (Delivers
          (sent (encode_uid_announce buf hdr announce))
          decode_uid_announce
          hdr
          uid_announce
          (uid_announce_fixed_prefix_len + (announced announce).friendly_name_len)
          (announced announce)
          old_hdr
          old_announce)
      × (Delivers
          (sent (encode_config_ack buf hdr ack))
          decode_config_ack
          hdr
          config_ack
          config_ack_payload_len
          ack
          old_hdr
          old_ack)
telemetry_family-Delivers buf hdr old_hdr beat old_beat relay old_relay announce old_announce ack
      old_ack h beat_range beat_room relay_range relay_room announce_range announce_room ack_range
      ack_room =
    (
      heartbeat-Delivers buf hdr beat old_hdr old_beat h beat_range beat_room,
      repeater_heartbeat-Delivers buf hdr relay old_hdr old_relay h relay_range relay_room,
      uid_announce-Delivers buf hdr announce old_hdr old_announce h announce_range announce_room,
      config_ack-Delivers buf hdr ack old_hdr old_ack h ack_range ack_room,
    )
