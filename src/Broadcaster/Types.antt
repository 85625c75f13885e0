-- ===== src/Broadcaster/Types.antt =====
-- src/dal/drivers/espnow_broadcast_driver.h: the state of the Director's broadcast driver, and what it
-- calls of the radio, the store and the census.
use nocturnation_stickc.Prelude.{ℕ, ◌-◌, ◌^◌, Bool, false, Option, []}
use nocturnation_stickc.Frame.Types.{Bytes}
use nocturnation_stickc.Census.{Entry}

abbrev pub heartbeat_period_ms : ℕ
heartbeat_period_ms = 1000

abbrev pub redundant_sends_default : ℕ
redundant_sends_default = 2

abbrev pub redundant_sends_min : ℕ
redundant_sends_min = 1

abbrev pub redundant_sends_max : ℕ
redundant_sends_max = 5

abbrev pub redundant_gap_min_ms : ℕ
redundant_gap_min_ms = 5

abbrev pub redundant_gap_max_ms : ℕ
redundant_gap_max_ms = 15

abbrev pub retransmit_buf_size : ℕ
retransmit_buf_size = 250

-- The default of the build.
abbrev pub min_send_interval_ms : ℕ
min_send_interval_ms = 50

abbrev pub listen_window_ms : ℕ
listen_window_ms = 1000

abbrev pub listen_max_attempts : ℕ
listen_max_attempts = 3

pub data StartupState : Type 0 where
  idle listening settled : StartupState

-- The private members of the class. `retransmit_frame` is the part of retransmit_buf_ that
-- retransmit_len_ covers; the rest of the buffer is never read.
pub record Broadcaster : Type 0 where
  pub active : Bool
  pub startup_state : StartupState
  pub source_id : ℕ
  pub seq_num : ℕ
  pub last_tx_ms : ℕ
  pub last_hb_ms : ℕ
  pub listen_candidate : ℕ
  pub listen_attempts_remaining : ℕ
  pub listen_collision_heard : Bool
  pub listen_started_ms : ℕ
  pub retransmit_frame : Bytes
  pub retransmits_remaining : ℕ
  pub next_retransmit_ms : ℕ
  pub retransmit_count : ℕ
  pub last_airtime_send_ms : ℕ
  pub airtime_drop_count : ℕ

-- The in-class initialisers.
abbrev pub broadcaster : Broadcaster
broadcaster = record {
  active = false;
  startup_state = idle;
  source_id = 1;
  seq_num = 1;
  last_tx_ms = 0;
  last_hb_ms = 0;
  listen_candidate = 0;
  listen_attempts_remaining = 0;
  listen_collision_heard = false;
  listen_started_ms = 0;
  retransmit_frame = [];
  retransmits_remaining = 0;
  next_retransmit_ms = 0;
  retransmit_count = redundant_sends_default;
  last_airtime_send_ms = 2 ^ 32 - min_send_interval_ms;
  airtime_drop_count = 0;
}

-- A call of the radio, a write of the source id to flash, and a beacon told to the census.
pub data DriverCall : Type 0 where
  radio_begin : ℕ → DriverCall
  radio_end : DriverCall
  listen_for_frames : Bool → DriverCall
  on_air : Bytes → DriverCall
  put_perf_source_id : ℕ → DriverCall
  note_repeater : Entry → DriverCall

-- What a radio answers: whether it begins on a channel, and whether it accepts a frame.
pub record RadioAnswers : Type 0 where
  pub begins : ℕ → Bool
  pub accepts : Bytes → Bool

-- hal::HAL::esp_now()
abbrev pub Antenna : Type 0
Antenna = Option RadioAnswers

-- What `send_frame_bytes` reads: the radio, the clock after the frame is out and when the next copy is
-- planned, and std::rand().
pub record AirReads : Type 0 where
  pub antenna : Antenna
  pub sent_ms : ℕ
  pub plan_ms : ℕ
  pub rand : ℕ

-- What a gated send reads: the clock at the gate, and the above.
pub record SendReads : Type 0 where
  pub gate_ms : ℕ
  pub air : AirReads

-- What `loop_tick` reads: the clock in `listen_tick`, esp_random(), the clock and std::rand() in
-- `pump_retransmits`, the clock in `maybe_send_heartbeat` and in `send_heartbeat`, and the above.
pub record TickReads : Type 0 where
  pub listen_ms : ℕ
  pub random : ℕ
  pub pump_ms : ℕ
  pub pump_rand : ℕ
  pub heartbeat_ms : ℕ
  pub tick_ms : ℕ
  pub air : AirReads

-- What `start_broadcast` reads of flash and of the clock, and the last two bytes of the MAC address.
pub record StartReads : Type 0 where
  pub antenna : Antenna
  pub retx_count : ℕ
  pub director_source_id : ℕ
  pub director_perf_source_id : ℕ
  pub mac4 : ℕ
  pub mac5 : ℕ
  pub start_ms : ℕ

-- RgbPulseEvent of dal.h, with the LED addressing.
pub record PulseEvent : Type 0 where
  pub r : ℕ
  pub g : ℕ
  pub b : ℕ
  pub attack : ℕ
  pub sustain : ℕ
  pub release : ℕ
  pub chance : ℕ
  pub led_mode : ℕ
  pub led_modifier1 : ℕ
  pub led_modifier2 : ℕ

-- LightWashEvent of dal.h, with the LED addressing.
pub record WashEvent : Type 0 where
  pub r1 : ℕ
  pub g1 : ℕ
  pub b1 : ℕ
  pub r2 : ℕ
  pub g2 : ℕ
  pub b2 : ℕ
  pub attack : ℕ
  pub release : ℕ
  pub intensity : ℕ
  pub cycle_ms : ℕ
  pub ttl_seconds : ℕ
  pub pulse_response : ℕ
  pub led_mode : ℕ
  pub led_modifier1 : ℕ
  pub led_modifier2 : ℕ
