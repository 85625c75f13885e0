-- ===== src/Repeater/Types.antt =====
-- modes/repeater_mode.h: the state of the repeater, and what it calls of the radio and the store.
use nocturnation_stickc.Prelude.{replicate, ℕ, Bool, false, Option, List, []}
use nocturnation_stickc.Frame.Types.{Bytes}

abbrev pub census_interval_ms : ℕ
census_interval_ms = 1000

abbrev pub relay_flash_ms : ℕ
relay_flash_ms = 60

abbrev pub scan_dwell_ms : ℕ
scan_dwell_ms = 700

abbrev pub scan_relock_ms : ℕ
scan_relock_ms = 8000

abbrev pub double_click_ms : ℕ
double_click_ms = 400

abbrev pub confirm_ms : ℕ
confirm_ms = 1000

abbrev pub dedup_ring_size : ℕ
dedup_ring_size = 16

abbrev pub repeat_buf_size : ℕ
repeat_buf_size = 250

-- DedupEntry: source_id and sequence_number.
abbrev pub DedupEntry : Type 0
DedupEntry = ℕ × ℕ

abbrev pub no_entries : List DedupEntry
no_entries = replicate dedup_ring_size (0, 0)

-- The private members of the class. `pending_repeat_frame` is the part of pending_repeat_buf_ that
-- pending_repeat_len_ covers; the rest of the buffer is never read.
pub record RepeaterMode : Type 0 where
  pub dedup_ring : List DedupEntry
  pub dedup_head : ℕ
  pub pending_repeat : Bool
  pub pending_repeat_frame : Bytes
  pub channel_setting : ℕ
  pub active_channel : ℕ
  pub radio_up : Bool
  pub locked : Bool
  pub scan_idx : ℕ
  pub scan_probe_started_ms : ℕ
  pub boot_ms : ℕ
  pub last_rx_ms : ℕ
  pub last_relay_ms : ℕ
  pub last_census_ms : ℕ
  pub relayed_count : ℕ
  pub uid0 : ℕ
  pub uid1 : ℕ
  pub uid2 : ℕ
  pub last_click_ms : ℕ
  pub confirm_until_ms : ℕ

-- The in-class initialisers.
abbrev pub repeater_mode : RepeaterMode
repeater_mode = record {
  dedup_ring = no_entries;
  dedup_head = 0;
  pending_repeat = false;
  pending_repeat_frame = [];
  channel_setting = 0;
  active_channel = 1;
  radio_up = false;
  locked = false;
  scan_idx = 0;
  scan_probe_started_ms = 0;
  boot_ms = 0;
  last_rx_ms = 0;
  last_relay_ms = 0;
  last_census_ms = 0;
  relayed_count = 0;
  uid0 = 0;
  uid1 = 0;
  uid2 = 0;
  last_click_ms = 0;
  confirm_until_ms = 0;
}

-- A call of the radio, and the write of the channel setting to flash.
pub data RepeaterCall : Type 0 where
  begin_radio : ℕ → RepeaterCall
  set_channel : ℕ → RepeaterCall
  send_broadcast : Bytes → RepeaterCall
  put_rpt_chan : ℕ → RepeaterCall

-- hal::HAL::esp_now(): no radio, or one that tells whether it accepts a frame for broadcast.
abbrev pub Radio : Type 0
Radio = Option (Bytes → Bool)

-- What `loop_tick` reads from outside: the radio, the button, and the clock at its start and in
-- `apply_channel_setting`.
pub record TickInput : Type 0 where
  pub radio : Radio
  pub was_clicked : Bool
  pub now_ms : ℕ
  pub probe_ms : ℕ
  pub confirm_from_ms : ℕ
