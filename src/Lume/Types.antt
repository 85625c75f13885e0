-- ===== src/Lume/Types.antt =====
-- src/modes/lume_mode.h and include/transport/quality.h: the state of a Lume on the receive path, and the
-- calls that it makes.
use nocturnation_stickc.Prelude.{ℕ, Bool, Option, List}
use nocturnation_stickc.Frame.Display.{TextDisplayPayload, BitmapPlanePayload, ClearScreenPayload}
use nocturnation_stickc.Frame.Light.{LightPulsePayload, LightWashPayload, LightWashPulsePayload}
use nocturnation_stickc.Frame.Types.{Bytes}
use nocturnation_stickc.Frame.Bitmap.{BitmapHeaderPayload}
use nocturnation_stickc.Repeater.Types.{DedupEntry}
use nocturnation_stickc.Tofu.{TofuLock}

abbrev pub no_signal_ms : ℕ
no_signal_ms = 3000

abbrev pub fallback_enter_ms : ℕ
fallback_enter_ms = 10000

abbrev pub fallback_fade_start_ms : ℕ
fallback_fade_start_ms = 40000

abbrev pub fallback_fade_ticks : ℕ
fallback_fade_ticks = 255

abbrev pub fallback_recovery_ticks : ℕ
fallback_recovery_ticks = 5

abbrev pub channel_dwell_ms : ℕ
channel_dwell_ms = 2000

abbrev pub rescan_ms : ℕ
rescan_ms = 10000

abbrev pub max_hop_count : ℕ
max_hop_count = 3

abbrev pub lume_repeat_buf_size : ℕ
lume_repeat_buf_size = 250

abbrev pub lume_census_interval_ms : ℕ
lume_census_interval_ms = 1000

-- The private members of SignalQuality.
pub record SignalQuality : Type 0 where
  pub last_source_id : ℕ
  pub last_seq : ℕ
  pub received_count : ℕ
  pub missed_count : ℕ
  pub window_start_ms : ℕ

-- SignalQuality as constructed, and after reset().
abbrev pub no_quality : SignalQuality
no_quality = record {
  last_source_id = 0;
  last_seq = 0;
  received_count = 0;
  missed_count = 0;
  window_start_ms = 0;
}

-- What a mode asks of an active binding: can_render_in_callback(), device_class(), is_relay() and
-- capabilities().can_wash.
pub record Binding : Type 0 where
  pub in_callback : Bool
  pub device_class : ℕ
  pub is_relay : Bool
  pub can_wash : Bool

-- What a binding is told to do.
pub data Order : Type 0 where
  do_pulse : LightPulsePayload → Order
  do_wash : LightWashPayload → Order
  do_wash_end : ℕ → ℕ → ℕ → ℕ → Order
  do_wash_pulse : LightWashPulsePayload → Order
  do_text : TextDisplayPayload → Order
  do_bitmap_header : BitmapHeaderPayload → Order
  do_bitmap_plane : BitmapPlanePayload → Order
  do_clear_screen : ClearScreenPayload → Order

-- A call: a binding, by its index, is given a target class, a target group and an order; the three
-- fallback events; the radio; a frame is handed to the config channel.
pub data LumeCall : Type 0 where
  ordered : ℕ → ℕ → ℕ → Order → LumeCall
  fallback_started fallback_faded fallback_recovered : LumeCall
  broadcast : Bytes → LumeCall
  tuned : ℕ → LumeCall
  config_received : Bytes → LumeCall

-- The members of the class that the receive path and the tick read or write. `pending_repeat_frame` is
-- the part of pending_repeat_buf_ that pending_repeat_len_ covers; the tick offset is the 32 bits of
-- an int32_t.
pub record Lume : Type 0 where
  pub bindings : List Binding
  pub rx_count : ℕ
  pub last_rx_ms : ℕ
  pub last_source_id : ℕ
  pub last_msg_type : ℕ
  pub radio_active : Bool
  pub no_signal : Bool
  pub fallback_active : Bool
  pub fallback_fading : Bool
  pub lock_acquired_ms : ℕ
  pub needs_repaint : Bool
  pub tofu : TofuLock
  pub quality : SignalQuality
  pub ring : List DedupEntry
  pub head : ℕ
  pub pending_light : Option LightPulsePayload
  pub pending_repeat : Bool
  pub pending_repeat_frame : Bytes
  pub repeat_enabled : Bool
  pub repeats_emitted : ℕ
  pub last_census_ms : ℕ
  pub census_uid : ℕ × ℕ × ℕ
  pub channel_pref : ℕ
  pub listen_channel : ℕ
  pub last_chan_switch_ms : ℕ
  pub group : ℕ
  pub offset_valid : Bool
  pub tick_offset_ms : ℕ
  pub offset_source_id : ℕ
  pub shows_text : Bool
  pub shows_bitmaps : Bool
