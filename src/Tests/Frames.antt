-- ===== src/Tests/Frames.antt =====
-- Frames that are sent and received, relayed, refused and cut off.
use nocturnation_stickc.Frame.Families.{
  light_family-Delivers, display_family-Delivers, telemetry_family-Delivers,
}
use nocturnation_stickc.Frame.Config.{
  encode_uid_announce, encode_config_write, encode_config_ack, decode_uid_announce,
  decode_config_write, decode_config_ack, config_ack_payload_len,
}
use nocturnation_stickc.Frame.Bitmap.{
  encode_bitmap_header, decode_bitmap_header, bitmap_header_payload_len,
}
use nocturnation_stickc.Frame.Status.{
  encode_heartbeat, encode_repeater_heartbeat, decode_heartbeat, decode_repeater_heartbeat,
  heartbeat_payload_len, repeater_heartbeat_payload_len,
}
use nocturnation_stickc.Frame.Light.{
  encode_light_pulse, encode_light_wash, encode_light_wash_end, encode_light_wash_pulse,
  decode_light_pulse, decode_light_wash, decode_light_wash_end, decode_light_wash_pulse,
  light_pulse_payload_len, light_wash_payload_len, light_wash_end_payload_len,
  light_wash_pulse_payload_len,
}
use nocturnation_stickc.Frame.Display.{
  decode_text_display, encode_text_display, encode_bitmap_plane, encode_clear_screen,
  decode_bitmap_plane, decode_clear_screen, clear_screen_payload_len,
}
use nocturnation_stickc.Frame.Wire.{decode_header}
use nocturnation_stickc.Prelude.{◌≡◌, ◌↔◌, arith}
use nocturnation_stickc.Frame.Wire.Transfer.{Delivers, sent, stamped}
use nocturnation_stickc.Frame.Wire.HeaderLaws.{IsFrame, decode_header_iff}
use nocturnation_stickc.Frame.Display.RoundTrip.{text_display-Delivers, shown}
use nocturnation_stickc.Frame.Display.PlaneRoundTrip.{placed, flagged}
use nocturnation_stickc.Frame.Config.RoundTrip.{config_write-Delivers, announced, written}
use nocturnation_stickc.Frame.Status.RoundTrip.{on_wire}
use nocturnation_stickc.Frame.Types.{
  ok, Header, text_display, clear_screen, bitmap_plane, light_pulse, light_wash, light_wash_end,
  light_wash_pulse, heartbeat, repeater_heartbeat, bitmap_header, uid_announce, config_write,
  config_ack,
}
use nocturnation_stickc.Frame.Containment.{IsContained, encoders-IsContained}
use nocturnation_stickc.Tests.Data.{
  director_header-IsHeader, pulse-IsLightPulse, wash-IsLightWash, wash_end-IsLightWashEnd,
  wash_pulse-IsLightWashPulse, beat-IsHeartbeat, relay_beat-IsRepeaterHeartbeat, text-IsTextDisplay,
  plane-IsBitmapPlane, bitmap-IsBitmapHeader, announce-IsUidAnnounce, setting-IsConfigWrite,
  acknowledgement-IsConfigAck, buffer, clear_frame, director_header, text, pulse, wash, wash_end,
  wash_pulse, beat, relay_beat, bitmap, plane, clearing, announce, setting, acknowledgement,
  blank_header,
}

text_display-Delivers_example :
    Delivers
      (sent (encode_text_display buffer director_header text))
      decode_text_display
      director_header
      text_display
      14
      (shown text text)
      blank_header
      text
text_display-Delivers_example =
    text_display-Delivers buffer director_header text blank_header text director_header-IsHeader
      text-IsTextDisplay (omega arith) (omega arith) (omega arith)

config_write-Delivers_example :
    Delivers
      (sent (encode_config_write buffer director_header setting))
      decode_config_write
      director_header
      config_write
      24
      (written setting)
      blank_header
      setting
config_write-Delivers_example =
    config_write-Delivers buffer director_header setting blank_header setting
      director_header-IsHeader setting-IsConfigWrite (omega arith)

decode_header_iff_example :
    ((decode_header clear_frame 13 blank_header).0 ≡ ok) ↔ IsFrame clear_frame 13
decode_header_iff_example = decode_header_iff clear_frame 13 blank_header

abbrev clear_header : Header
clear_header = stamped director_header clear_screen 4

encoders-IsContained_example :
    IsContained buffer (encode_text_display buffer director_header text)
    × IsContained buffer (encode_bitmap_plane buffer director_header plane)
    × IsContained buffer (encode_uid_announce buffer director_header announce)
    × IsContained buffer (encode_config_write buffer director_header setting)
encoders-IsContained_example =
    encoders-IsContained buffer director_header text plane announce setting text-IsTextDisplay
      plane-IsBitmapPlane announce-IsUidAnnounce setting-IsConfigWrite

light_family-Delivers_example :
    (Delivers
      (sent (encode_light_wash buffer director_header wash))
      decode_light_wash
      director_header
      light_wash
      light_wash_payload_len
      wash
      blank_header
      wash)
    × (Delivers
        (sent (encode_light_pulse buffer director_header pulse))
        decode_light_pulse
        director_header
        light_pulse
        light_pulse_payload_len
        pulse
        blank_header
        pulse)
    × (Delivers
        (sent (encode_light_wash_pulse buffer director_header wash_pulse))
        decode_light_wash_pulse
        director_header
        light_wash_pulse
        light_wash_pulse_payload_len
        wash_pulse
        blank_header
        wash_pulse)
    × (Delivers
        (sent (encode_light_wash_end buffer director_header wash_end))
        decode_light_wash_end
        director_header
        light_wash_end
        light_wash_end_payload_len
        wash_end
        blank_header
        wash_end)
light_family-Delivers_example =
    light_family-Delivers buffer director_header blank_header wash wash pulse pulse wash_pulse
      wash_pulse wash_end wash_end director_header-IsHeader wash-IsLightWash (omega arith)
      pulse-IsLightPulse (omega arith) wash_pulse-IsLightWashPulse (omega arith)
      wash_end-IsLightWashEnd (omega arith)

display_family-Delivers_example :
    (Delivers
      (sent (encode_bitmap_header buffer director_header bitmap))
      decode_bitmap_header
      director_header
      bitmap_header
      bitmap_header_payload_len
      bitmap
      blank_header
      bitmap)
    × (Delivers
        (sent (encode_bitmap_plane buffer director_header plane))
        decode_bitmap_plane
        director_header
        bitmap_plane
        8
        (placed plane plane)
        blank_header
        plane)
    × (Delivers
        (sent (encode_clear_screen buffer director_header clearing))
        decode_clear_screen
        director_header
        clear_screen
        clear_screen_payload_len
        (flagged clearing)
        blank_header
        clearing)
display_family-Delivers_example =
    display_family-Delivers buffer director_header blank_header bitmap bitmap plane plane clearing
      clearing director_header-IsHeader bitmap-IsBitmapHeader (omega arith) plane-IsBitmapPlane
      (omega arith) (omega arith) (omega arith) (omega arith)

telemetry_family-Delivers_example :
    (Delivers
      (sent (encode_heartbeat buffer director_header beat))
      decode_heartbeat
      director_header
      heartbeat
      heartbeat_payload_len
      (on_wire beat)
      blank_header
      beat)
    × (Delivers
        (sent (encode_repeater_heartbeat buffer director_header relay_beat))
        decode_repeater_heartbeat
        director_header
        repeater_heartbeat
        repeater_heartbeat_payload_len
        relay_beat
        blank_header
        relay_beat)
    × (Delivers
        (sent (encode_uid_announce buffer director_header announce))
        decode_uid_announce
        director_header
        uid_announce
        43
        (announced announce)
        blank_header
        announce)
    × (Delivers
        (sent (encode_config_ack buffer director_header acknowledgement))
        decode_config_ack
        director_header
        config_ack
        config_ack_payload_len
        acknowledgement
        blank_header
        acknowledgement)
telemetry_family-Delivers_example =
    telemetry_family-Delivers buffer director_header blank_header beat beat relay_beat relay_beat
      announce announce acknowledgement acknowledgement director_header-IsHeader beat-IsHeartbeat
      (omega arith) relay_beat-IsRepeaterHeartbeat (omega arith) announce-IsUidAnnounce
      (omega arith) acknowledgement-IsConfigAck (omega arith)
