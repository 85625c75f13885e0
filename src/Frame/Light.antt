-- ===== src/Frame/Light.antt =====
-- frame.h and frame.cpp: the LIGHT_* family, 13, 20, 7 and 13 bytes of payload.
pub mod RoundTrip
use nocturnation_stickc.Prelude.{
  ℕ, ◌+◌, ◌||◌, not, [], ◌∷◌, ◌++◌, length, store, ltb, ◌!=◌, if◌then◌else◌,
}
use nocturnation_stickc.Frame.Types.{
  Bytes, IsByte, IsWord, header_size, light_pulse, light_wash, light_wash_end, light_wash_pulse,
  same_type, Header, DecodeResult, ok, invalid_message_type, payload_len_mismatch,
}
use nocturnation_stickc.Frame.Wire.{byte, write_u16_le, read_u16_le, write_header}

abbrev pub light_pulse_payload_len : ℕ
light_pulse_payload_len = 13

-- LightPulsePayload
pub record LightPulsePayload : Type 0 where
  pub target_class : ℕ
  pub target_group : ℕ
  pub r : ℕ
  pub g : ℕ
  pub b : ℕ
  pub attack : ℕ
  pub sustain : ℕ
  pub release : ℕ
  pub chance : ℕ
  pub led_mode : ℕ
  pub led_modifier1 : ℕ
  pub led_modifier2 : ℕ

-- The ranges of the field types.
pub record IsLightPulse (p : LightPulsePayload) : Type 0 where
  pub target_class_range : IsByte p.target_class
  pub target_group_range : IsWord p.target_group
  pub r_range : IsByte p.r
  pub g_range : IsByte p.g
  pub b_range : IsByte p.b
  pub attack_range : IsByte p.attack
  pub sustain_range : IsByte p.sustain
  pub release_range : IsByte p.release
  pub chance_range : IsByte p.chance
  pub led_mode_range : IsByte p.led_mode
  pub led_modifier1_range : IsByte p.led_modifier1
  pub led_modifier2_range : IsByte p.led_modifier2

unfoldable pub encode_light_pulse : Bytes → Header → LightPulsePayload → ℕ × Bytes
encode_light_pulse buf hdr p =
    let total = header_size + light_pulse_payload_len in
    if ltb (length buf) total then (0, buf) else (
      total,
      store buf (
          write_header hdr light_pulse light_pulse_payload_len
          ++ ((p.target_class ∷ [])
              ++ (write_u16_le p.target_group
                  ++ ((p.r ∷ p.g ∷ p.b ∷ p.attack ∷ p.sustain ∷ p.release ∷ p.chance ∷ p.led_mode
                      ∷ p.led_modifier1 ∷ p.led_modifier2 ∷ []))))),
    )

unfoldable pub decode_light_pulse :
    Header → Bytes → ℕ → LightPulsePayload → DecodeResult × LightPulsePayload
decode_light_pulse hdr payload payload_len out =
    if not (same_type hdr.message_type light_pulse)
    then (invalid_message_type, out)
    else if hdr.payload_len != light_pulse_payload_len || payload_len != light_pulse_payload_len
    then (payload_len_mismatch, out)
    else (
      ok,
      record {
        target_class = byte payload 0;
        target_group = read_u16_le payload 1;
        r = byte payload 3;
        g = byte payload 4;
        b = byte payload 5;
        attack = byte payload 6;
        sustain = byte payload 7;
        release = byte payload 8;
        chance = byte payload 9;
        led_mode = byte payload 10;
        led_modifier1 = byte payload 11;
        led_modifier2 = byte payload 12;
      },
    )

abbrev pub light_wash_payload_len : ℕ
light_wash_payload_len = 20

-- LightWashPayload
pub record LightWashPayload : Type 0 where
  pub target_class : ℕ
  pub target_group : ℕ
  pub r1 : ℕ
  pub g1 : ℕ
  pub b1 : ℕ
  pub r2 : ℕ
  pub g2 : ℕ
  pub b2 : ℕ
  pub attack : ℕ
  pub release : ℕ
  pub intensity : ℕ
  pub cycle_ms : ℕ
  pub ttl_seconds : ℕ
  pub pulse_response : ℕ
  pub led_mode : ℕ
  pub led_modifier1 : ℕ
  pub led_modifier2 : ℕ

-- The ranges of the field types.
pub record IsLightWash (p : LightWashPayload) : Type 0 where
  pub target_class_range : IsByte p.target_class
  pub target_group_range : IsWord p.target_group
  pub r1_range : IsByte p.r1
  pub g1_range : IsByte p.g1
  pub b1_range : IsByte p.b1
  pub r2_range : IsByte p.r2
  pub g2_range : IsByte p.g2
  pub b2_range : IsByte p.b2
  pub attack_range : IsByte p.attack
  pub release_range : IsByte p.release
  pub intensity_range : IsByte p.intensity
  pub cycle_ms_range : IsWord p.cycle_ms
  pub ttl_seconds_range : IsWord p.ttl_seconds
  pub pulse_response_range : IsByte p.pulse_response
  pub led_mode_range : IsByte p.led_mode
  pub led_modifier1_range : IsByte p.led_modifier1
  pub led_modifier2_range : IsByte p.led_modifier2

unfoldable pub encode_light_wash : Bytes → Header → LightWashPayload → ℕ × Bytes
encode_light_wash buf hdr p =
    let total = header_size + light_wash_payload_len in
    if ltb (length buf) total then (0, buf) else (
      total,
      store buf (
          write_header hdr light_wash light_wash_payload_len
          ++ ((p.target_class ∷ [])
              ++ (write_u16_le p.target_group
                  ++ ((p.r1 ∷ p.g1 ∷ p.b1 ∷ p.r2 ∷ p.g2 ∷ p.b2 ∷ p.attack ∷ p.release ∷ p.intensity
                        ∷ [])
                      ++ (write_u16_le p.cycle_ms
                          ++ (write_u16_le p.ttl_seconds
                              ++ ((p.pulse_response ∷ p.led_mode ∷ p.led_modifier1 ∷ p.led_modifier2
                                  ∷ [])))))))),
    )

unfoldable pub decode_light_wash :
    Header → Bytes → ℕ → LightWashPayload → DecodeResult × LightWashPayload
decode_light_wash hdr payload payload_len out =
    if not (same_type hdr.message_type light_wash)
    then (invalid_message_type, out)
    else if hdr.payload_len != light_wash_payload_len || payload_len != light_wash_payload_len
    then (payload_len_mismatch, out)
    else (
      ok,
      record {
        target_class = byte payload 0;
        target_group = read_u16_le payload 1;
        r1 = byte payload 3;
        g1 = byte payload 4;
        b1 = byte payload 5;
        r2 = byte payload 6;
        g2 = byte payload 7;
        b2 = byte payload 8;
        attack = byte payload 9;
        release = byte payload 10;
        intensity = byte payload 11;
        cycle_ms = read_u16_le payload 12;
        ttl_seconds = read_u16_le payload 14;
        pulse_response = byte payload 16;
        led_mode = byte payload 17;
        led_modifier1 = byte payload 18;
        led_modifier2 = byte payload 19;
      },
    )

abbrev pub light_wash_end_payload_len : ℕ
light_wash_end_payload_len = 7

-- LightWashEndPayload
pub record LightWashEndPayload : Type 0 where
  pub target_class : ℕ
  pub target_group : ℕ
  pub release_time : ℕ
  pub led_mode : ℕ
  pub led_modifier1 : ℕ
  pub led_modifier2 : ℕ

-- The ranges of the field types.
pub record IsLightWashEnd (p : LightWashEndPayload) : Type 0 where
  pub target_class_range : IsByte p.target_class
  pub target_group_range : IsWord p.target_group
  pub release_time_range : IsByte p.release_time
  pub led_mode_range : IsByte p.led_mode
  pub led_modifier1_range : IsByte p.led_modifier1
  pub led_modifier2_range : IsByte p.led_modifier2

unfoldable pub encode_light_wash_end : Bytes → Header → LightWashEndPayload → ℕ × Bytes
encode_light_wash_end buf hdr p =
    let total = header_size + light_wash_end_payload_len in
    if ltb (length buf) total then (0, buf) else (
      total,
      store buf (
          write_header hdr light_wash_end light_wash_end_payload_len
          ++ ((p.target_class ∷ [])
              ++ (write_u16_le p.target_group
                  ++ ((p.release_time ∷ p.led_mode ∷ p.led_modifier1 ∷ p.led_modifier2 ∷ []))))),
    )

unfoldable pub decode_light_wash_end :
    Header → Bytes → ℕ → LightWashEndPayload → DecodeResult × LightWashEndPayload
decode_light_wash_end hdr payload payload_len out =
    if not (same_type hdr.message_type light_wash_end)
    then (invalid_message_type, out)
    else if hdr.payload_len != light_wash_end_payload_len
        || payload_len != light_wash_end_payload_len
    then (payload_len_mismatch, out)
    else (
      ok,
      record {
        target_class = byte payload 0;
        target_group = read_u16_le payload 1;
        release_time = byte payload 3;
        led_mode = byte payload 4;
        led_modifier1 = byte payload 5;
        led_modifier2 = byte payload 6;
      },
    )

abbrev pub light_wash_pulse_payload_len : ℕ
light_wash_pulse_payload_len = 13

-- LightWashPulsePayload
pub record LightWashPulsePayload : Type 0 where
  pub target_class : ℕ
  pub target_group : ℕ
  pub r : ℕ
  pub g : ℕ
  pub b : ℕ
  pub attack : ℕ
  pub sustain : ℕ
  pub release : ℕ
  pub chance : ℕ
  pub led_mode : ℕ
  pub led_modifier1 : ℕ
  pub led_modifier2 : ℕ

-- The ranges of the field types.
pub record IsLightWashPulse (p : LightWashPulsePayload) : Type 0 where
  pub target_class_range : IsByte p.target_class
  pub target_group_range : IsWord p.target_group
  pub r_range : IsByte p.r
  pub g_range : IsByte p.g
  pub b_range : IsByte p.b
  pub attack_range : IsByte p.attack
  pub sustain_range : IsByte p.sustain
  pub release_range : IsByte p.release
  pub chance_range : IsByte p.chance
  pub led_mode_range : IsByte p.led_mode
  pub led_modifier1_range : IsByte p.led_modifier1
  pub led_modifier2_range : IsByte p.led_modifier2

unfoldable pub encode_light_wash_pulse : Bytes → Header → LightWashPulsePayload → ℕ × Bytes
encode_light_wash_pulse buf hdr p =
    let total = header_size + light_wash_pulse_payload_len in
    if ltb (length buf) total then (0, buf) else (
      total,
      store buf (
          write_header hdr light_wash_pulse light_wash_pulse_payload_len
          ++ ((p.target_class ∷ [])
              ++ (write_u16_le p.target_group
                  ++ ((p.r ∷ p.g ∷ p.b ∷ p.attack ∷ p.sustain ∷ p.release ∷ p.chance ∷ p.led_mode
                      ∷ p.led_modifier1 ∷ p.led_modifier2 ∷ []))))),
    )

unfoldable pub decode_light_wash_pulse :
    Header → Bytes → ℕ → LightWashPulsePayload → DecodeResult × LightWashPulsePayload
decode_light_wash_pulse hdr payload payload_len out =
    if not (same_type hdr.message_type light_wash_pulse)
    then (invalid_message_type, out)
    else if hdr.payload_len != light_wash_pulse_payload_len
        || payload_len != light_wash_pulse_payload_len
    then (payload_len_mismatch, out)
    else (
      ok,
      record {
        target_class = byte payload 0;
        target_group = read_u16_le payload 1;
        r = byte payload 3;
        g = byte payload 4;
        b = byte payload 5;
        attack = byte payload 6;
        sustain = byte payload 7;
        release = byte payload 8;
        chance = byte payload 9;
        led_mode = byte payload 10;
        led_modifier1 = byte payload 11;
        led_modifier2 = byte payload 12;
      },
    )
