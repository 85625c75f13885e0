-- ===== src/Lume/Blank.antt =====
-- include/transport/espnow/frame.h: the payloads that a Lume reads a frame into.
use nocturnation_stickc.Prelude.{[]}
use nocturnation_stickc.Frame.Display.{TextDisplayPayload, BitmapPlanePayload, ClearScreenPayload}
use nocturnation_stickc.Frame.Light.{LightPulsePayload, LightWashPayload, LightWashPulsePayload}
use nocturnation_stickc.Frame.Bitmap.{BitmapHeaderPayload}

abbrev pub no_light_pulse : LightPulsePayload
no_light_pulse = record {
  target_class = 0;
  target_group = 0;
  r = 0;
  g = 0;
  b = 0;
  attack = 0;
  sustain = 0;
  release = 0;
  chance = 0;
  led_mode = 0;
  led_modifier1 = 0;
  led_modifier2 = 0;
}

abbrev pub no_light_wash : LightWashPayload
no_light_wash = record {
  target_class = 0;
  target_group = 0;
  r1 = 0;
  g1 = 0;
  b1 = 0;
  r2 = 0;
  g2 = 0;
  b2 = 0;
  attack = 0;
  release = 0;
  intensity = 0;
  cycle_ms = 0;
  ttl_seconds = 0;
  pulse_response = 0;
  led_mode = 0;
  led_modifier1 = 0;
  led_modifier2 = 0;
}

abbrev pub no_light_wash_pulse : LightWashPulsePayload
no_light_wash_pulse = record {
  target_class = 0;
  target_group = 0;
  r = 0;
  g = 0;
  b = 0;
  attack = 0;
  sustain = 0;
  release = 0;
  chance = 0;
  led_mode = 0;
  led_modifier1 = 0;
  led_modifier2 = 0;
}

abbrev pub no_text : TextDisplayPayload
no_text = record {
  target_group = 0;
  r = 0;
  g = 0;
  b = 0;
  ttl_ms = 0;
  header_len = 0;
  header = [];
  body_len = 0;
  body = [];
}

abbrev pub no_bitmap : BitmapHeaderPayload
no_bitmap = record {
  target_group = 0;
  width = 0;
  height = 0;
  plane_count = 0;
  colours = [];
  fit = 0;
  zoom_pct = 0;
  overwrite = 0;
  checksum = 0;
  ttl_ms = 0;
}

abbrev pub no_plane : BitmapPlanePayload
no_plane = record {
  target_group = 0;
  plane_index = 0;
  byte_offset = 0;
  data_len = 0;
  plane_data = [];
}

abbrev pub no_wipe : ClearScreenPayload
no_wipe = record { target_group = 0; clear_text = 0; clear_bitmap = 0 }
