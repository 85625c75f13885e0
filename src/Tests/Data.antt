-- ===== src/Tests/Data.antt =====
-- The values that the runs share.
use nocturnation_stickc.Prelude.{replicate, refl, [], ◌∷◌, arith}
use nocturnation_stickc.Frame.Display.{
  TextDisplayPayload, IsTextDisplay, BitmapPlanePayload, IsBitmapPlane, ClearScreenPayload,
}
use nocturnation_stickc.Frame.Light.{
  LightPulsePayload, IsLightPulse, LightWashPayload, IsLightWash, LightWashEndPayload,
  IsLightWashEnd, LightWashPulsePayload, IsLightWashPulse,
}
use nocturnation_stickc.Frame.Status.{
  HeartbeatPayload, IsHeartbeat, RepeaterHeartbeatPayload, IsRepeaterHeartbeat,
}
use nocturnation_stickc.Frame.Types.{Bytes, Header, IsHeader, heartbeat}
use nocturnation_stickc.Frame.Config.{
  UidAnnouncePayload, IsUidAnnounce, ConfigWritePayload, IsConfigWrite, ConfigAckPayload,
  IsConfigAck,
}
use nocturnation_stickc.Frame.Bitmap.{BitmapHeaderPayload, IsBitmapHeader}
use nocturnation_stickc.Tlv.Reading.{IsEntry}
use nocturnation_stickc.Tlv.{TlvEntry}

abbrev pub buffer : Bytes
buffer = replicate 250 0xAA

-- The header of a Director in the Performance range.
abbrev pub director_header : Header
director_header = record {
  version = 0;
  source_id = 0x0041;
  sequence_number = 7;
  hop_count = 1;
  message_type = heartbeat;
  payload_len = 0;
}

pub director_header-IsHeader : IsHeader director_header
director_header-IsHeader = record {
  source_id_word = omega arith;
  sequence_number_byte = omega arith;
  hop_count_byte = omega arith;
}

abbrev pub blank_header : Header
blank_header = record {
  version = 0;
  source_id = 0;
  sequence_number = 0;
  hop_count = 0;
  message_type = heartbeat;
  payload_len = 0;
}

abbrev pub pulse : LightPulsePayload
pulse = record {
  target_class = 1;
  target_group = 0x0203;
  r = 255;
  g = 128;
  b = 1;
  attack = 2;
  sustain = 3;
  release = 4;
  chance = 5;
  led_mode = 1;
  led_modifier1 = 0x0F;
  led_modifier2 = 0xFF;
}

pub pulse-IsLightPulse : IsLightPulse pulse
pulse-IsLightPulse = ground arith

abbrev pub wash : LightWashPayload
wash = record {
  target_class = 1;
  target_group = 0x0203;
  r1 = 255;
  g1 = 128;
  b1 = 1;
  r2 = 9;
  g2 = 8;
  b2 = 7;
  attack = 2;
  release = 4;
  intensity = 100;
  cycle_ms = 3000;
  ttl_seconds = 600;
  pulse_response = 1;
  led_mode = 1;
  led_modifier1 = 0x0F;
  led_modifier2 = 0xFF;
}

pub wash-IsLightWash : IsLightWash wash
wash-IsLightWash = ground arith

abbrev pub wash_end : LightWashEndPayload
wash_end = record {
  target_class = 1;
  target_group = 0x0203;
  release_time = 9;
  led_mode = 1;
  led_modifier1 = 0x0F;
  led_modifier2 = 0xFF;
}

pub wash_end-IsLightWashEnd : IsLightWashEnd wash_end
wash_end-IsLightWashEnd = ground arith

abbrev pub wash_pulse : LightWashPulsePayload
wash_pulse = record {
  target_class = 1;
  target_group = 0x0203;
  r = 255;
  g = 128;
  b = 1;
  attack = 2;
  sustain = 3;
  release = 4;
  chance = 5;
  led_mode = 1;
  led_modifier1 = 0x0F;
  led_modifier2 = 0xFF;
}

pub wash_pulse-IsLightWashPulse : IsLightWashPulse wash_pulse
wash_pulse-IsLightWashPulse = ground arith

-- A count of centiseconds with a high byte.
abbrev pub beat : HeartbeatPayload
beat = record { tick = 70000; days_since_2026 = 300; centiseconds_today = 0x01000002 }

pub beat-IsHeartbeat : IsHeartbeat beat
beat-IsHeartbeat = ground arith

abbrev pub relay_beat : RepeaterHeartbeatPayload
relay_beat = record {
  uid0 = 1;
  uid1 = 2;
  uid2 = 3;
  channel = 11;
  uptime_s = 4000;
  relayed_count = 100000;
}

pub relay_beat-IsRepeaterHeartbeat : IsRepeaterHeartbeat relay_beat
relay_beat-IsRepeaterHeartbeat = ground arith

-- "HI" over "YO!".
abbrev pub text : TextDisplayPayload
text = record {
  target_group = 0x0203;
  r = 255;
  g = 128;
  b = 1;
  ttl_ms = 5000;
  header_len = 2;
  header = 72 ∷ 73 ∷ replicate 62 0;
  body_len = 3;
  body = 89 ∷ 79 ∷ 33 ∷ replicate 125 0;
}

pub text-IsTextDisplay : IsTextDisplay text
text-IsTextDisplay = record {
  target_group_range = omega arith;
  ttl_ms_range = omega arith;
  header_array = refl;
  body_array = refl;
}

abbrev pub plane : BitmapPlanePayload
plane = record {
  target_group = 0x0203;
  plane_index = 1;
  byte_offset = 300;
  data_len = 2;
  plane_data = 0xF0 ∷ 0x0F ∷ replicate 233 0;
}

pub plane-IsBitmapPlane : IsBitmapPlane plane
plane-IsBitmapPlane = record {
  target_group_range = omega arith;
  byte_offset_range = omega arith;
  plane_data_size = refl;
}

abbrev pub bitmap : BitmapHeaderPayload
bitmap = record {
  target_group = 0x0203;
  width = 16;
  height = 8;
  plane_count = 1;
  colours = replicate 8 (record { red = 1; green = 2; blue = 3 });
  fit = 1;
  zoom_pct = 100;
  overwrite = 1;
  checksum = 0xDEADBEEF;
  ttl_ms = 5000;
}

pub bitmap-IsBitmapHeader : IsBitmapHeader bitmap
bitmap-IsBitmapHeader = record {
  target_group_range = omega arith;
  checksum_range = omega arith;
  ttl_ms_range = omega arith;
  colours_size = refl;
  plane_count_min = omega arith;
  plane_count_max = omega arith;
  width_min = omega arith;
  width_max = omega arith;
  height_min = omega arith;
  height_max = omega arith;
}

abbrev pub clearing : ClearScreenPayload
clearing = record { target_group = 0x0203; clear_text = 2; clear_bitmap = 0 }

abbrev pub announce : UidAnnouncePayload
announce = record {
  uid = 0x01020304;
  secret = replicate 16 5;
  role = 1;
  host = 2;
  friendly_name_len = 25;
  friendly_name = replicate 20 65;
}

pub announce-IsUidAnnounce : IsUidAnnounce announce
announce-IsUidAnnounce = record {
  uid_range = omega arith;
  secret_size = refl;
  friendly_name_size = refl;
}

abbrev pub setting : ConfigWritePayload
setting = record {
  target_uid = 0x01020304;
  numonce = 9 ∷ replicate 7 0;
  bag_len = 3;
  bag_tlv = 1 ∷ 2 ∷ 3 ∷ replicate 217 0;
  hmac = replicate 8 6;
}

pub setting-IsConfigWrite : IsConfigWrite setting
setting-IsConfigWrite = record {
  target_uid_range = omega arith;
  numonce_size = refl;
  bag_tlv_size = refl;
  hmac_size = refl;
}

abbrev pub acknowledgement : ConfigAckPayload
acknowledgement = record {
  responder_uid = 0x01020304;
  responder_numonce = 9 ∷ replicate 7 0;
  status = 0x82;
  applied_keys = 3;
}

pub acknowledgement-IsConfigAck : IsConfigAck acknowledgement
acknowledgement-IsConfigAck = record {
  responder_uid_range = omega arith;
  responder_numonce_size = refl;
}

-- A CLEAR_SCREEN frame on the air.
abbrev pub clear_frame : Bytes
clear_frame = 0x4E ∷ 0x4E ∷ 0x04 ∷ 0x41 ∷ 0x00 ∷ 7 ∷ 1 ∷ 0x0C ∷ 4 ∷ 0x03 ∷ 0x02 ∷ 1 ∷ 0 ∷ []

-- An entry of a property bag: key "ab", type u8, value 5.
abbrev pub entry : TlvEntry
entry = record { key = 97 ∷ 98 ∷ []; key_len = 2; kind = 0; value = 5 ∷ []; value_len = 1 }

pub entry-IsEntry : IsEntry entry
entry-IsEntry = record { key_size = refl; key_some = omega arith; value_size = refl }
