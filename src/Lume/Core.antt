-- ===== src/Lume/Core.antt =====
-- src/modes/lume_mode.cpp: the steps that touch neither the dedup ring nor the fallback.
use nocturnation_stickc.Tofu.{age, clear}
use nocturnation_stickc.Repeater.{is_ok, census_buf, census_header}
use nocturnation_stickc.Lume.FanOut.{fan_out_light_pulse_inline}
use nocturnation_stickc.Lume.Blank.{no_light_pulse}
use nocturnation_stickc.Frame.Wire.{set_hop_count}
use nocturnation_stickc.Frame.Light.{decode_light_pulse, light_pulse_payload_len, LightPulsePayload}
use nocturnation_stickc.Frame.Status.{
  decode_heartbeat, heartbeat_payload_len, encode_repeater_heartbeat,
}
use nocturnation_stickc.Lume.Ticking.{
  drain_light, drain_repeat, emit_repeat_census, drain, scan, drain_pending, next_listen, talkback,
}
use nocturnation_stickc.Lume.Receive.{
  track_offset, stage_repeat, render, render_pulse, no_heartbeat, smoothed,
}
use nocturnation_stickc.Prelude.{
  ltb, leb, ◌==◌, if◌then◌else◌, elapsed, length, drop, ℕ, ◌+◌, ◌-◌, ◌%◌, ◌^◌, ◌≡◌, refl, ◌∙◌, Bool,
  true, false, not, ◌&&◌, none, some, List, [], ◌∷◌, take, ◌||◌, Option,
}
use nocturnation_stickc.Frame.Types.{Bytes, Header, header_size, same_type, heartbeat, light_pulse}
use nocturnation_stickc.Broadcaster.Types.{Antenna}
use nocturnation_stickc.Lume.Types.{
  LumeCall, Lume, max_hop_count, broadcast, lume_repeat_buf_size, rescan_ms, channel_dwell_ms,
  lume_census_interval_ms, tuned,
}

pub record SameCore (s s' : Lume) : Type 0 where
  pub same_active : s'.fallback_active ≡ s.fallback_active
  pub same_fading : s'.fallback_fading ≡ s.fallback_fading
  pub same_ring : s'.ring ≡ s.ring
  pub same_head : s'.head ≡ s.head

pub SameCore-refl : (s : Lume) → SameCore s s
SameCore-refl s = record {
  same_active = refl;
  same_fading = refl;
  same_ring = refl;
  same_head = refl;
}

pub SameCore-trans : (a b c : Lume) → SameCore a b → SameCore b c → SameCore a c
SameCore-trans a b c f g = record {
  same_active = g.same_active ∙ f.same_active;
  same_fading = g.same_fading ∙ f.same_fading;
  same_ring = g.same_ring ∙ f.same_ring;
  same_head = g.same_head ∙ f.same_head;
}

-- Two ways, both of them in the core.
core_either :
    (b : Bool) (s x y : Lume) → SameCore s x → SameCore s y → SameCore s (if b then x else y)
core_either true s x y f g = f
core_either false s x y f g = g

core_either_pair :
    (b : Bool) (s : Lume) (x y : Lume × List LumeCall)
    → SameCore s x.0
    → SameCore s y.0
    → SameCore s (if b then x else y).0
core_either_pair true s x y f g = f
core_either_pair false s x y f g = g

pub track_offset-SameCore :
    (frame : Bytes) (hdr : Header) (s : Lume) → SameCore s (track_offset frame hdr s)
unfolding track_offset
track_offset-SameCore frame hdr s =
    let r =
      decode_heartbeat hdr (drop header_size frame) (length frame - header_size) no_heartbeat in
    let raw = elapsed r.1.tick s.last_rx_ms in
    let valid = s.offset_valid && hdr.source_id == s.offset_source_id in
    let seeded = record s {
      tick_offset_ms = raw;
      offset_source_id = hdr.source_id;
      offset_valid = true;
    } in
    let smooth = record s { tick_offset_ms = smoothed s.tick_offset_ms raw } in
    let same : (x : ℕ) (y : ℕ) (z : Bool)
        → SameCore s (record s { tick_offset_ms = x; offset_source_id = y; offset_valid = z }) =
      λ x y z. record {
        same_active = refl;
        same_fading = refl;
        same_ring = refl;
        same_head = refl;
      } in
    let read : Lume = if not valid then seeded else smooth in
    let checked : Lume = if not (is_ok r.0) then s else read in
    core_either
      (not (
        same_type hdr.message_type heartbeat
        && leb heartbeat_payload_len (length frame - header_size)))
      s s checked (SameCore-refl s)
      (core_either (not (is_ok r.0)) s s read (SameCore-refl s) (
        core_either (not valid) s seeded smooth (same raw hdr.source_id true)
          (same (smoothed s.tick_offset_ms raw) s.offset_source_id s.offset_valid)))

pub stage_repeat-SameCore :
    (frame : Bytes) (hdr : Header) (s : Lume) → SameCore s (stage_repeat frame hdr s)
unfolding stage_repeat
stage_repeat-SameCore frame hdr s =
    core_either
      (s.repeat_enabled
        && ltb hdr.hop_count max_hop_count
        && leb (length frame) lume_repeat_buf_size)
      s
      (record s {
        pending_repeat_frame = set_hop_count frame (hdr.hop_count + 1);
        pending_repeat = true;
      })
      s (record { same_active = refl; same_fading = refl; same_ring = refl; same_head = refl })
      (SameCore-refl s)

pub render-SameCore : (frame : Bytes) (hdr : Header) (s : Lume) → SameCore s (render frame hdr s).0
unfolding render render_pulse
render-SameCore frame hdr s =
    let r =
      decode_light_pulse hdr (drop header_size frame) (length frame - header_size) no_light_pulse in
    let held : Lume × List LumeCall =
      (record s { pending_light = some r.1 }, fan_out_light_pulse_inline r.1 s) in
    let checked : Lume × List LumeCall = if is_ok r.0 then held else (s, []) in
    core_either_pair
      (not (
        same_type hdr.message_type light_pulse
        && length frame == header_size + light_pulse_payload_len))
      s (s, []) checked (SameCore-refl s)
      (core_either_pair (is_ok r.0) s held (s, [])
        (record { same_active = refl; same_fading = refl; same_ring = refl; same_head = refl })
        (SameCore-refl s))

pending-SameCore :
    (pending : Option LightPulsePayload) (s : Lume) → SameCore s (drain_pending pending s).0
pending-SameCore none s = SameCore-refl s
pending-SameCore (some p) s = record {
  same_active = refl;
  same_fading = refl;
  same_ring = refl;
  same_head = refl;
}

drain_light-SameCore : (s : Lume) → SameCore s (drain_light s).0
unfolding drain_light
drain_light-SameCore s = pending-SameCore s.pending_light s

drain_repeat-SameCore : (antenna : Antenna) (s : Lume) → SameCore s (drain_repeat antenna s).0
unfolding drain_repeat
drain_repeat-SameCore none s =
    core_either_pair (not s.pending_repeat) s (s, []) (record s { pending_repeat = false }, [])
      (SameCore-refl s)
      (record { same_active = refl; same_fading = refl; same_ring = refl; same_head = refl })
drain_repeat-SameCore (some radio) s =
    core_either_pair (not s.pending_repeat) s (s, [])
      (
        record s { pending_repeat = false; repeats_emitted = (s.repeats_emitted + 1) % 2 ^ 32 },
        broadcast s.pending_repeat_frame ∷ [],
      )
      (SameCore-refl s)
      (record { same_active = refl; same_fading = refl; same_ring = refl; same_head = refl })

census-SameCore :
    (antenna : Antenna) (now : ℕ) (s : Lume) → SameCore s (emit_repeat_census antenna now s).0
unfolding emit_repeat_census
census-SameCore antenna now s =
    let stamped = record s { last_census_ms = now } in
    let r = encode_repeater_heartbeat census_buf census_header (talkback now stamped) in
    let sent : Lume × List LumeCall = (
      stamped,
      elim antenna [ none ↦ [] | some _ ↦ if ltb 0 r.0 then broadcast (take r.0 r.1) ∷ [] else [] ],
    ) in
    let timed : Lume × List LumeCall =
      if ltb (elapsed now s.last_census_ms) lume_census_interval_ms then (s, []) else sent in
    let locked : Lume × List LumeCall =
      if not s.tofu.has_lock || s.no_signal then (s, []) else timed in
    let stamped_same : SameCore s stamped = record {
      same_active = refl;
      same_fading = refl;
      same_ring = refl;
      same_head = refl;
    } in
    core_either_pair (not s.repeat_enabled || not s.radio_active) s (s, []) locked (SameCore-refl s)
      (core_either_pair (not s.tofu.has_lock || s.no_signal) s (s, []) timed (SameCore-refl s)
        (core_either_pair (ltb (elapsed now s.last_census_ms) lume_census_interval_ms) s (s, [])
          sent (SameCore-refl s) stamped_same))

pub drain-SameCore : (antenna : Antenna) (now : ℕ) (s : Lume) → SameCore s (drain antenna now s).0
unfolding drain
drain-SameCore antenna now s =
    let s1 = (drain_light s).0 in
    let s1' = record s1 { needs_repaint = false } in
    let s2 = (drain_repeat antenna s1').0 in
    let one = drain_light-SameCore s in
    SameCore-trans s s1' (emit_repeat_census antenna now s2).0
      (record {
        same_active = one.same_active;
        same_fading = one.same_fading;
        same_ring = one.same_ring;
        same_head = one.same_head;
      })
      (SameCore-trans s1' s2 (emit_repeat_census antenna now s2).0
        (drain_repeat-SameCore antenna s1') (census-SameCore antenna now s2))

pub scan-SameCore : (antenna : Antenna) (now : ℕ) (s : Lume) → SameCore s (scan antenna now s).0
unfolding scan
scan-SameCore antenna now s =
    let should_rescan = ltb 0 s.rx_count && ltb rescan_ms (age now s.last_rx_ms) in
    let scanning = s.channel_pref == 0 && (s.rx_count == 0 || should_rescan) in
    let next = next_listen s.listen_channel in
    core_either_pair (scanning && leb channel_dwell_ms (elapsed now s.last_chan_switch_ms)) s
      (
        record s { listen_channel = next; last_chan_switch_ms = now; tofu = clear s.tofu },
        elim antenna [ none ↦ [] | some _ ↦ tuned next ∷ [] ],
      )
      (s, [])
      (record { same_active = refl; same_fading = refl; same_ring = refl; same_head = refl })
      (SameCore-refl s)
