-- ===== src/DmxMapper/Types.antt =====
-- dmx_channel_mapper.h and include/dal/dal.h: the channels of a block, the events and the state.
use nocturnation_stickc.Prelude.{ℕ, Bool, true, false}

abbrev pub active_channels_per_block : ℕ
active_channels_per_block = 27

abbrev pub raw_enable_threshold : ℕ
raw_enable_threshold = 128

abbrev pub trigger_hi : ℕ
trigger_hi = 128

abbrev pub trigger_lo : ℕ
trigger_lo = 128

abbrev pub min_strobe_interval_ms : ℕ
min_strobe_interval_ms = 250

abbrev pub min_wash_emit_gap_ms : ℕ
min_wash_emit_gap_ms = 50

abbrev pub min_raw_wash_emit_gap_ms : ℕ
min_raw_wash_emit_gap_ms = 200

-- Times and chances are the numbers of their enumerators; the led_* fields, which stay 0, are left out.
pub record RgbPulseEvent : Type 0 where
  pub r : ℕ
  pub g : ℕ
  pub b : ℕ
  pub attack : ℕ
  pub sustain : ℕ
  pub release : ℕ
  pub chance : ℕ

pub record LightWashEvent : Type 0 where
  pub r1 : ℕ
  pub g1 : ℕ
  pub b1 : ℕ
  pub r2 : ℕ
  pub g2 : ℕ
  pub b2 : ℕ
  pub attack : ℕ
  pub release : ℕ
  pub intensity : ℕ
  pub cycle_ms : ℕ
  pub ttl_seconds : ℕ
  pub pulse_response : ℕ

-- A call of the sink; the target string shows the target group.
pub data SinkCall : Type 0 where
  on_pulse : ℕ → RgbPulseEvent → SinkCall
  on_wash : ℕ → LightWashEvent → SinkCall

-- The last wash values sent, as the channels hold them.
pub record WashMemory : Type 0 where
  pub anchor_r1 : ℕ
  pub anchor_g1 : ℕ
  pub anchor_b1 : ℕ
  pub anchor_r2 : ℕ
  pub anchor_g2 : ℕ
  pub anchor_b2 : ℕ
  pub intensity : ℕ
  pub attack : ℕ
  pub release : ℕ
  pub cycle : ℕ
  pub ttl_lo : ℕ
  pub ttl_hi : ℕ
  pub pulse_response : ℕ

-- The private members of the class. `last_wash` holds the thirteen members last_anchor_* and
-- last_wash_*, without last_wash_emit_ms_; `last_raw` the three members last_raw_*.
pub record DmxChannelMapper : Type 0 where
  pub target_group : ℕ
  pub pulse_armed : Bool
  pub last_trigger : ℕ
  pub wash_seeded : Bool
  pub last_wash : WashMemory
  pub last_wash_emit_ms : ℕ
  pub last_strobe_rate : ℕ
  pub next_strobe_fire_ms : ℕ
  pub raw_active : Bool
  pub last_raw : ℕ × ℕ × ℕ

abbrev pub no_wash : WashMemory
no_wash = record {
  anchor_r1 = 0;
  anchor_g1 = 0;
  anchor_b1 = 0;
  anchor_r2 = 0;
  anchor_g2 = 0;
  anchor_b2 = 0;
  intensity = 0;
  attack = 0;
  release = 0;
  cycle = 0;
  ttl_lo = 0;
  ttl_hi = 0;
  pulse_response = 0;
}

-- The constructor; `reset` of any mapper of the group gives the same.
abbrev pub dmx_channel_mapper : ℕ → DmxChannelMapper
dmx_channel_mapper target_group = record {
  target_group = target_group;
  pulse_armed = true;
  last_trigger = 0;
  wash_seeded = false;
  last_wash = no_wash;
  last_wash_emit_ms = 0;
  last_strobe_rate = 0;
  next_strobe_fire_ms = 0;
  raw_active = false;
  last_raw = (0, 0, 0);
}
