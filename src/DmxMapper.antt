-- ===== src/DmxMapper.antt =====
-- src/dal/drivers/dmx_channel_mapper.cpp and dmx_channel_mapper.h: from the channels of a DMX block to
-- pulse and wash events. A method takes the mapper and returns it with the calls that it makes of the
-- sink, in order. The block is no null pointer; `channel_count` is its length.
pub mod Types
pub mod Steps
pub mod Settling
pub mod Held
pub mod Pulses
pub mod Strobes
use nocturnation_stickc.DmxMapper.Types.{
  RgbPulseEvent, LightWashEvent, SinkCall, WashMemory, DmxChannelMapper, active_channels_per_block,
  no_wash, min_raw_wash_emit_gap_ms, trigger_lo, min_wash_emit_gap_ms, min_strobe_interval_ms,
  on_pulse, raw_enable_threshold, on_wash, trigger_hi,
}
use nocturnation_stickc.Prelude.{
  ltb, leb, ◌==◌, ◌!=◌, if◌then◌else◌, elapsed, later, length, get_or, ℕ, ◌+◌, ◌-◌, ◌*◌, ◌/◌, ◌%◌,
  ◌^◌, Bool, true, false, ◌&&◌, ◌||◌, List, [], ◌∷◌, ◌++◌,
}
use nocturnation_stickc.Frame.Types.{Bytes}

-- block[i]
abbrev pub channel : Bytes → ℕ → ℕ
channel block i = get_or block i 0

unfoldable pub scale_byte : ℕ → ℕ → ℕ
scale_byte value master = value * master / 255 % 2 ^ 8

unfoldable pub scale_raw_byte : ℕ → ℕ → ℕ
scale_raw_byte value master =
    let scaled = value * master / 255 in
    if value == 0 then 0 else if scaled == 0 then 1 else scaled % 2 ^ 8

unfoldable pub quantize_time : ℕ → ℕ
quantize_time slider = slider / 32

unfoldable pub quantize_chance : ℕ → ℕ
quantize_chance slider = (255 - slider) / 32

-- The colour of `preview_rgb`.
unfoldable pub preview_rgb : Bytes → ℕ × ℕ × ℕ
preview_rgb block =
    let master = channel block 0 in
    let intensity = scale_byte (channel block 17) master in
    if ltb (length block) active_channels_per_block
    then (0, 0, 0)
    else if leb raw_enable_threshold (channel block 26)
    then (
      scale_raw_byte (channel block 23) master,
      scale_raw_byte (channel block 24) master,
      scale_raw_byte (channel block 25) master,
    )
    else (
      scale_byte (channel block 10) intensity,
      scale_byte (channel block 11) intensity,
      scale_byte (channel block 12) intensity,
    )

abbrev pub reset : DmxChannelMapper → DmxChannelMapper
reset m = record m {
  pulse_armed = true;
  last_trigger = 0;
  wash_seeded = false;
  last_wash = no_wash;
  last_wash_emit_ms = 0;
  last_strobe_rate = 0;
  next_strobe_fire_ms = 0;
  raw_active = false;
  last_raw = (0, 0, 0);
}

-- The wash of a raw colour.
abbrev pub raw_wash_event : ℕ × ℕ × ℕ → LightWashEvent
raw_wash_event (r, g, b) = record {
  r1 = r;
  g1 = g;
  b1 = b;
  r2 = r;
  g2 = g;
  b2 = b;
  attack = 0;
  release = 0;
  intensity = 255;
  cycle_ms = 0;
  ttl_seconds = 0;
  pulse_response = 1;
}

abbrev pub scaled_raw : Bytes → ℕ → ℕ × ℕ × ℕ
scaled_raw ch master = (
  scale_raw_byte (channel ch 23) master,
  scale_raw_byte (channel ch 24) master,
  scale_raw_byte (channel ch 25) master,
)

abbrev pub same_rgb : ℕ × ℕ × ℕ → ℕ × ℕ × ℕ → Bool
same_rgb (r, g, b) (r', g', b') = r == r' && g == g' && b == b'

unfoldable pub maybe_emit_raw_wash_on_change :
    DmxChannelMapper → Bytes → ℕ → ℕ → DmxChannelMapper × List SinkCall
maybe_emit_raw_wash_on_change m ch master now_ms =
    let rgb = scaled_raw ch master in
    if m.raw_active && same_rgb rgb m.last_raw
    then (m, [])
    else if m.raw_active && ltb (elapsed now_ms m.last_wash_emit_ms) min_raw_wash_emit_gap_ms
    then (m, [])
    else (
      record m { raw_active = true; last_raw = rgb; last_wash_emit_ms = now_ms },
      on_wash m.target_group (raw_wash_event rgb) ∷ [],
    )

unfoldable pub build_pulse_event : Bytes → ℕ → RgbPulseEvent
build_pulse_event ch master = record {
  r = scale_byte (channel ch 2) master;
  g = scale_byte (channel ch 3) master;
  b = scale_byte (channel ch 4) master;
  attack = quantize_time (channel ch 6);
  sustain = quantize_time (channel ch 7);
  release = quantize_time (channel ch 8);
  chance = quantize_chance (channel ch 9);
}

unfoldable pub maybe_emit_pulse_on_trigger :
    DmxChannelMapper → Bytes → ℕ → DmxChannelMapper × List SinkCall
maybe_emit_pulse_on_trigger m ch master =
    let trig = channel ch 5 in
    let armed = if ltb trig trigger_lo then true else m.pulse_armed in
    if armed && leb trigger_hi trig
    then (
      record m { pulse_armed = false; last_trigger = trig },
      on_pulse m.target_group (build_pulse_event ch master) ∷ [],
    )
    else (record m { pulse_armed = armed; last_trigger = trig }, [])

-- What the channels of a block ask of the wash.
abbrev pub wash_channels : Bytes → ℕ → WashMemory
wash_channels ch master = record {
  anchor_r1 = channel ch 10;
  anchor_g1 = channel ch 11;
  anchor_b1 = channel ch 12;
  anchor_r2 = channel ch 13;
  anchor_g2 = channel ch 14;
  anchor_b2 = channel ch 15;
  intensity = scale_byte (channel ch 17) master;
  attack = channel ch 18;
  release = channel ch 19;
  cycle = channel ch 16;
  ttl_lo = channel ch 20;
  ttl_hi = channel ch 21;
  pulse_response = if leb 128 (channel ch 22) then 1 else 0;
}

-- `!changed`
abbrev pub same_wash : WashMemory → WashMemory → Bool
same_wash w v =
    w.anchor_r1 == v.anchor_r1
    && w.anchor_g1 == v.anchor_g1
    && w.anchor_b1 == v.anchor_b1
    && w.anchor_r2 == v.anchor_r2
    && w.anchor_g2 == v.anchor_g2
    && w.anchor_b2 == v.anchor_b2
    && w.intensity == v.intensity
    && w.attack == v.attack
    && w.release == v.release
    && w.cycle == v.cycle
    && w.ttl_lo == v.ttl_lo
    && w.ttl_hi == v.ttl_hi
    && w.pulse_response == v.pulse_response

abbrev pub wash_event : WashMemory → LightWashEvent
wash_event w = record {
  r1 = w.anchor_r1;
  g1 = w.anchor_g1;
  b1 = w.anchor_b1;
  r2 = w.anchor_r2;
  g2 = w.anchor_g2;
  b2 = w.anchor_b2;
  attack = w.attack;
  release = w.release;
  intensity = w.intensity;
  cycle_ms = w.cycle * 100;
  ttl_seconds = w.ttl_lo + w.ttl_hi * 2 ^ 8;
  pulse_response = w.pulse_response;
}

unfoldable pub maybe_emit_wash_on_change :
    DmxChannelMapper → Bytes → ℕ → ℕ → DmxChannelMapper × List SinkCall
maybe_emit_wash_on_change m ch master now_ms =
    let asked = wash_channels ch master in
    if m.wash_seeded && same_wash asked m.last_wash
    then (m, [])
    else if m.wash_seeded && ltb (elapsed now_ms m.last_wash_emit_ms) min_wash_emit_gap_ms
    then (m, [])
    else (
      record m { last_wash = asked; last_wash_emit_ms = now_ms; wash_seeded = true },
      on_wash m.target_group (wash_event asked) ∷ [],
    )

-- The interval of a rate that is not 0.
abbrev pub strobe_interval : ℕ → ℕ
strobe_interval rate =
    if ltb (63750 / rate) min_strobe_interval_ms then min_strobe_interval_ms else 63750 / rate

unfoldable pub maybe_emit_strobe :
    DmxChannelMapper → Bytes → ℕ → ℕ → DmxChannelMapper × List SinkCall
maybe_emit_strobe m ch master now_ms =
    let rate = channel ch 1 in
    let due = later now_ms (strobe_interval rate) in
    let deadline_met = m.next_strobe_fire_ms != 0 && leb m.next_strobe_fire_ms now_ms in
    if rate == 0
    then (record m { last_strobe_rate = 0; next_strobe_fire_ms = 0 }, [])
    else if rate != m.last_strobe_rate || deadline_met
    then (
      record m { next_strobe_fire_ms = due; last_strobe_rate = rate },
      on_pulse m.target_group (build_pulse_event ch master) ∷ [],
    )
    else if m.next_strobe_fire_ms == 0
    then (record m { next_strobe_fire_ms = due; last_strobe_rate = rate }, [])
    else (record m { last_strobe_rate = rate }, [])

-- The FX path of `process`: wash, pulse and strobe in turn.
unfoldable pub process_fx : DmxChannelMapper → Bytes → ℕ → DmxChannelMapper × List SinkCall
unfolding maybe_emit_wash_on_change maybe_emit_pulse_on_trigger maybe_emit_strobe
process_fx m block now_ms =
    let master = channel block 0 in
    let entered =
      if m.raw_active then record m { raw_active = false; wash_seeded = false } else m in
    let (m1, washes) = maybe_emit_wash_on_change entered block master now_ms in
    let (m2, pulses) = maybe_emit_pulse_on_trigger m1 block master in
    let (m3, strobes) = maybe_emit_strobe m2 block master now_ms in
    (m3, washes ++ (pulses ++ strobes))

unfoldable pub process : DmxChannelMapper → Bytes → ℕ → DmxChannelMapper × List SinkCall
process m block now_ms =
    let (m1, calls) = maybe_emit_raw_wash_on_change m block (channel block 0) now_ms in
    if ltb (length block) active_channels_per_block
    then (m, [])
    else if leb raw_enable_threshold (channel block 26)
    then (record m1 { pulse_armed = false }, calls)
    else process_fx m block now_ms
