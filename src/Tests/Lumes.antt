-- ===== src/Tests/Lumes.antt =====
-- A Lume on small runs.
use nocturnation_stickc.Lume.Ticking.{
  loop_tick, enter, drain, drain_repeat, emit_repeat_census, fallback_edges, scan,
}
use nocturnation_stickc.Lume.Relay.{staged_hops}
use nocturnation_stickc.Lume.FanOut.{addressed}
use nocturnation_stickc.Lume.Blank.{no_light_pulse}
use nocturnation_stickc.Frame.Types.{ok, is_performance_range}
use nocturnation_stickc.Repeater.Types.{no_entries}
use nocturnation_stickc.Lume.Receive.{
  stage_repeat, render_pulse, receive, seen_before, take_admitted, take_fresh, refresh, mark,
  track_offset, render,
}
use nocturnation_stickc.Lume.Matching.{orders_to, share, no_binding, pulse_once, told_group}
use nocturnation_stickc.Lume.Edges.{follow, off, edges, phase_of}
use nocturnation_stickc.Repeater.{no_header, any_entry}
use nocturnation_stickc.Frame.Wire.{decode_header, read_u16_le}
use nocturnation_stickc.Tofu.{unlocked, admit, tick}
use nocturnation_stickc.Prelude.{
  length, get_or, drop, ℕ, ◌-◌, ◌≤◌, ◌≡◌, refl, true, false, none, some, List, [], ◌∷◌, ◌++◌, arith,
}
use nocturnation_stickc.Frame.Light.{LightPulsePayload, decode_light_pulse}
use nocturnation_stickc.Frame.Types.{Bytes, Header, light_pulse, known_message_type, header_size}
use nocturnation_stickc.Lume.Types.{
  Binding, Lume, ordered, no_quality, max_hop_count, lume_repeat_buf_size, do_pulse,
}
use nocturnation_stickc.Lume.Fallback.{fallback-ordered}
use nocturnation_stickc.Lume.Ticking.{EnterReads, drain_light}
use nocturnation_stickc.Lume.Runs.{Event, heard, ticked, run, step}
use nocturnation_stickc.Lume.Once.{IsIgnored, behind, session, rendered_once}

-- A local strip that renders at once, and a relay of the class 1 that waits for the tick.
abbrev two_bindings : List Binding
two_bindings =
    record { in_callback = true; device_class = 3; is_relay = false; can_wash = true }
    ∷ record { in_callback = false; device_class = 1; is_relay = true; can_wash = false }
    ∷ []

abbrev blank_lume : Lume
blank_lume = record {
  bindings = [];
  rx_count = 0;
  last_rx_ms = 0;
  last_source_id = 0;
  last_msg_type = 255;
  radio_active = false;
  no_signal = false;
  fallback_active = false;
  fallback_fading = false;
  lock_acquired_ms = 0;
  needs_repaint = false;
  tofu = unlocked;
  quality = no_quality;
  ring = no_entries;
  head = 0;
  pending_light = none;
  pending_repeat = false;
  pending_repeat_frame = [];
  repeat_enabled = false;
  repeats_emitted = 0;
  last_census_ms = 0;
  census_uid = (0, 0, 0);
  channel_pref = 0;
  listen_channel = 1;
  last_chan_switch_ms = 0;
  group = 0;
  offset_valid = false;
  tick_offset_ms = 0;
  offset_source_id = 0;
  shows_text = false;
  shows_bitmaps = false;
}

abbrev lume_reads : EnterReads
lume_reads = record {
  antenna = some (record { begins = λ channel. true; accepts = λ frame. true });
  channel_pref = 11;
  repeat_enabled = true;
  group = 2;
  now_ms = 50;
  uid = (1, 2, 3);
  bindings = two_bindings;
}

-- A pulse of source 0x41 for every class and group.
abbrev pulse_frame : ℕ → Bytes
pulse_frame seq =
    0x4E ∷ 0x4E ∷ 4 ∷ 0x41 ∷ 0 ∷ seq ∷ 2 ∷ 3 ∷ 13 ∷ 0 ∷ 0 ∷ 0 ∷ 255 ∷ 128 ∷ 1 ∷ 1 ∷ 2 ∷ 3 ∷ 0 ∷ 0
    ∷ 0 ∷ 0 ∷ []

abbrev pulse_header : ℕ → Header
pulse_header seq = record {
  version = 4;
  source_id = 0x41;
  sequence_number = seq;
  hop_count = 2;
  message_type = light_pulse;
  payload_len = 13;
}

abbrev full_pulse : LightPulsePayload
full_pulse = record {
  target_class = 0;
  target_group = 0;
  r = 255;
  g = 128;
  b = 1;
  attack = 1;
  sustain = 2;
  release = 3;
  chance = 0;
  led_mode = 0;
  led_modifier1 = 0;
  led_modifier2 = 0;
}

pulse_header-read :
    decode_header (pulse_frame 7) (length (pulse_frame 7)) no_header ≡ (ok, pulse_header 7)
unfolding decode_header known_message_type read_u16_le
pulse_header-read = refl

full_pulse-read :
    decode_light_pulse
      (pulse_header 7)
      (drop header_size (pulse_frame 7))
      (length (pulse_frame 7) - header_size)
      no_light_pulse
    ≡ (ok, full_pulse)
unfolding decode_light_pulse read_u16_le
full_pulse-read = refl

abbrev settled_lume : Lume
settled_lume = enter lume_reads blank_lume

pulse_once_example :
    orders_to 1 (
      (render_pulse (pulse_frame 7) (pulse_header 7) settled_lume).1
      ++ (drain_light (render_pulse (pulse_frame 7) (pulse_header 7) settled_lume).0).1)
    ≡ share (addressed 0 0 settled_lume.group (get_or settled_lume.bindings 1 no_binding)) (
        ordered 1 0
          (told_group (get_or settled_lume.bindings 1 no_binding) 0)
          (do_pulse full_pulse))
unfolding enter
pulse_once_example =
    pulse_once (pulse_frame 7) (pulse_header 7) settled_lume full_pulse 1 refl refl full_pulse-read
      (omega arith) (omega arith)

abbrev night_events : List Event
night_events =
    heard (pulse_frame 7) 100
    ∷ ticked none 11000
    ∷ ticked none 12000
    ∷ ticked none 41000
    ∷ heard (pulse_frame 8) 42000
    ∷ []

fallback-ordered_example :
    follow off (edges (run (enter lume_reads blank_lume) night_events).1)
    ≡ some (phase_of (run (enter lume_reads blank_lume) night_events).0)
fallback-ordered_example = fallback-ordered lume_reads blank_lume night_events

-- A copy of the frame, and a tick.
abbrev copies : List Event
copies = heard (pulse_frame 7) 105 ∷ ticked none 110 ∷ []

rendered_once_example :
    IsIgnored (behind (pulse_frame 7) 100 copies (session lume_reads blank_lume [])) (
      receive
        (pulse_frame 7)
        115
        (behind (pulse_frame 7) 100 copies (session lume_reads blank_lume [])))
unfolding run step receive loop_tick enter seen_before any_entry admit is_performance_range
    decode_header known_message_type read_u16_le take_admitted take_fresh refresh mark track_offset
    stage_repeat render render_pulse drain drain_light drain_repeat emit_repeat_census
    fallback_edges scan tick decode_light_pulse
rendered_once_example =
    rendered_once lume_reads blank_lume [] copies (pulse_frame 7) (pulse_header 7) 100 115
      pulse_header-read (omega arith) refl refl (omega arith) refl

staged_hops_example :
    let relayed =
      (stage_repeat (pulse_frame 7) (pulse_header 7) settled_lume).pending_repeat_frame in
    (decode_header relayed (length relayed) no_header
      ≡ (ok, record (pulse_header 7) { hop_count = 3 }))
    × (3 ≤ max_hop_count)
    × (length relayed ≤ lume_repeat_buf_size)
    × (drop header_size relayed ≡ drop header_size (pulse_frame 7))
unfolding enter stage_repeat
staged_hops_example =
    staged_hops (pulse_frame 7) (pulse_header 7) settled_lume pulse_header-read refl refl
