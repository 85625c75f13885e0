-- ===== src/Broadcaster/Senders.antt =====
-- src/dal/drivers/espnow_broadcast_driver.cpp: the four light senders and the pass-through.
use nocturnation_stickc.Frame.Wire.{byte, read_u16_le}
use nocturnation_stickc.Prelude.{
  ltb, ◌==◌, ◌!=◌, if◌then◌else◌, length, set, take, replicate, ℕ, ◌+◌, ◌/◌, ◌%◌, ◌^◌, true, not,
  ◌||◌, List, [],
}
use nocturnation_stickc.Frame.Light.{
  LightPulsePayload, LightWashPayload, LightWashEndPayload, LightWashPulsePayload,
  encode_light_pulse, encode_light_wash, encode_light_wash_end, encode_light_wash_pulse,
  light_pulse_payload_len, light_wash_payload_len, light_wash_end_payload_len,
  light_wash_pulse_payload_len,
}
use nocturnation_stickc.Frame.Types.{
  Bytes, Header, heartbeat, header_size, magic0, magic1, protocol_version, max_frame_size,
  broadcast_source_id,
}
use nocturnation_stickc.Broadcaster.Types.{
  Broadcaster, DriverCall, SendReads, PulseEvent, WashEvent,
}
use nocturnation_stickc.Broadcaster.Air.{
  Answered, airtime_cap_ready, next_seq, send_frame_bytes, refusal,
}

-- The header of a frame of this Director.
abbrev pub own_header : ℕ → ℕ → Header
own_header source seq = record {
  version = 0;
  source_id = source;
  sequence_number = seq;
  hop_count = 0;
  message_type = heartbeat;
  payload_len = 0;
}

-- The buffer on the stack, written whole before it is sent.
abbrev pub frame_buf : ℕ → Bytes
frame_buf payload_len = replicate (header_size + payload_len) 0

-- The course of the four light senders, which differ in what they encode.
unfoldable pub send_light : (Header → ℕ × Bytes) → SendReads → Broadcaster → Answered
send_light encode reads d =
    let (capped, ready) = airtime_cap_ready reads.gate_ms d in
    let (stepped, seq) = next_seq capped in
    let (n, buf) = encode (own_header d.source_id seq) in
    let (out, calls) = send_frame_bytes reads.air (take n buf) stepped in
    if not d.active
    then refusal d
    else if not ready
    then refusal capped
    else if n == 0
    then refusal stepped
    else record { after = out; calls = calls; answer = true }

abbrev pub pulse_payload : ℕ → ℕ → PulseEvent → LightPulsePayload
pulse_payload target_class target_group ev = record {
  target_class = target_class;
  target_group = target_group;
  r = ev.r;
  g = ev.g;
  b = ev.b;
  attack = ev.attack;
  sustain = ev.sustain;
  release = ev.release;
  chance = ev.chance;
  led_mode = ev.led_mode;
  led_modifier1 = ev.led_modifier1;
  led_modifier2 = ev.led_modifier2;
}

-- send(target_class, target_group, ev)
unfoldable pub send : ℕ → ℕ → PulseEvent → SendReads → Broadcaster → Answered
send target_class target_group ev reads d =
    send_light
      (λ h.
        encode_light_pulse (frame_buf light_pulse_payload_len) h
          (pulse_payload target_class target_group ev))
      reads d

-- send(group_id, ev)
abbrev pub send_group : ℕ → PulseEvent → SendReads → Broadcaster → Answered
send_group group_id ev reads d = send 0 group_id ev reads d

abbrev pub wash_payload : ℕ → ℕ → WashEvent → LightWashPayload
wash_payload target_class target_group ev = record {
  target_class = target_class;
  target_group = target_group;
  r1 = ev.r1;
  g1 = ev.g1;
  b1 = ev.b1;
  r2 = ev.r2;
  g2 = ev.g2;
  b2 = ev.b2;
  attack = ev.attack;
  release = ev.release;
  intensity = ev.intensity;
  cycle_ms = ev.cycle_ms;
  ttl_seconds = ev.ttl_seconds;
  pulse_response = ev.pulse_response;
  led_mode = ev.led_mode;
  led_modifier1 = ev.led_modifier1;
  led_modifier2 = ev.led_modifier2;
}

unfoldable pub send_wash : ℕ → ℕ → WashEvent → SendReads → Broadcaster → Answered
send_wash target_class target_group ev reads d =
    send_light
      (λ h.
        encode_light_wash (frame_buf light_wash_payload_len) h
          (wash_payload target_class target_group ev))
      reads d

abbrev pub wash_end_payload : ℕ → ℕ → ℕ → LightWashEndPayload
wash_end_payload target_class target_group release_time = record {
  target_class = target_class;
  target_group = target_group;
  release_time = release_time;
  led_mode = 0;
  led_modifier1 = 0;
  led_modifier2 = 0;
}

unfoldable pub send_wash_end : ℕ → ℕ → ℕ → SendReads → Broadcaster → Answered
send_wash_end target_class target_group release_time reads d =
    send_light
      (λ h.
        encode_light_wash_end (frame_buf light_wash_end_payload_len) h
          (wash_end_payload target_class target_group release_time))
      reads d

abbrev pub wash_pulse_payload : ℕ → ℕ → PulseEvent → LightWashPulsePayload
wash_pulse_payload target_class target_group ev = record {
  target_class = target_class;
  target_group = target_group;
  r = ev.r;
  g = ev.g;
  b = ev.b;
  attack = ev.attack;
  sustain = ev.sustain;
  release = ev.release;
  chance = ev.chance;
  led_mode = ev.led_mode;
  led_modifier1 = ev.led_modifier1;
  led_modifier2 = ev.led_modifier2;
}

unfoldable pub send_wash_pulse : ℕ → ℕ → PulseEvent → SendReads → Broadcaster → Answered
send_wash_pulse target_class target_group ev reads d =
    send_light
      (λ h.
        encode_light_wash_pulse (frame_buf light_wash_pulse_payload_len) h
          (wash_pulse_payload target_class target_group ev))
      reads d

-- The identity of this Director on a frame that carries none.
abbrev pub restamped : ℕ → ℕ → Bytes → Bytes
restamped src seq frame = set (set (set frame 3 (src % 2 ^ 8)) 4 (src / 2 ^ 8 % 2 ^ 8)) 5 seq

unfoldable pub send_passthrough : Bytes → SendReads → Broadcaster → Broadcaster × List DriverCall
send_passthrough frame reads d =
    let (capped, ready) = airtime_cap_ready reads.gate_ms d in
    let (stepped, seq) = next_seq capped in
    if ltb (length frame) header_size
    then (d, [])
    else if byte frame 0 != magic0 || byte frame 1 != magic1
    then (d, [])
    else if byte frame 2 != protocol_version
    then (d, [])
    else if not d.active
    then (d, [])
    else if not ready
    then (capped, [])
    else if ltb max_frame_size (length frame)
    then (capped, [])
    else if read_u16_le frame 3 == broadcast_source_id
    then send_frame_bytes reads.air (restamped d.source_id seq frame) stepped
    else send_frame_bytes reads.air frame capped
