-- ===== src/Lume/Ticking.antt =====
-- src/modes/lume_mode.cpp: the entry of a Lume and its loop tick with no pairing window open. What is drawn
-- on the screen and the strip, and the ticks of the bindings themselves, are left out.
use nocturnation_stickc.Frame.Light.{LightPulsePayload}
use nocturnation_stickc.Repeater.Types.{no_entries}
use nocturnation_stickc.Repeater.{census_buf, census_header}
use nocturnation_stickc.Lume.FanOut.{
  fan_out_light_pulse, emit_fallback_wash_start, emit_fallback_wash_fade,
}
use nocturnation_stickc.Tofu.{clear, age, tick}
use nocturnation_stickc.Prelude.{
  ltb, leb, ◌==◌, if◌then◌else◌, elapsed, get_or, take, ℕ, ◌+◌, ◌/◌, ◌%◌, ◌^◌, Bool, true, false,
  not, ◌&&◌, ◌||◌, none, some, List, [], ◌∷◌, ◌++◌, Option,
}
use nocturnation_stickc.Frame.Status.{RepeaterHeartbeatPayload, encode_repeater_heartbeat}
use nocturnation_stickc.Broadcaster.Types.{Antenna}
use nocturnation_stickc.Lume.Types.{
  Binding, LumeCall, Lume, broadcast, no_signal_ms, rescan_ms, no_quality, fallback_enter_ms,
  channel_dwell_ms, fallback_fade_start_ms, tuned, lume_census_interval_ms,
}

-- What `enter` reads: the radio, flash, the clock, the last three bytes of the MAC address and the bindings
-- that the registry gives for this host.
pub record EnterReads : Type 0 where
  pub antenna : Antenna
  pub channel_pref : ℕ
  pub repeat_enabled : Bool
  pub group : ℕ
  pub now_ms : ℕ
  pub uid : ℕ × ℕ × ℕ
  pub bindings : List Binding

unfoldable pub enter : EnterReads → Lume → Lume
enter reads s =
    let chan = if reads.channel_pref == 0 then 11 else reads.channel_pref in
    record s {
      bindings = reads.bindings;
      rx_count = 0;
      last_rx_ms = 0;
      last_source_id = 0;
      last_msg_type = 0xFF;
      radio_active = elim reads.antenna [ none ↦ false | some radio ↦ radio.begins chan ];
      no_signal = false;
      fallback_active = false;
      fallback_fading = false;
      lock_acquired_ms = 0;
      tofu = clear s.tofu;
      quality = no_quality;
      ring = no_entries;
      head = 0;
      pending_light = none;
      pending_repeat = false;
      pending_repeat_frame = [];
      repeat_enabled = reads.repeat_enabled;
      census_uid = elim reads.antenna [ none ↦ s.census_uid | some _ ↦ reads.uid ];
      channel_pref = reads.channel_pref;
      listen_channel = chan;
      last_chan_switch_ms = reads.now_ms;
      group = reads.group;
    }

-- The drain of what is pending.
abbrev pub drain_pending : Option LightPulsePayload → Lume → Lume × List LumeCall
drain_pending none s = (s, [])
drain_pending (some p) s = (record s { pending_light = none }, fan_out_light_pulse p s)

unfoldable pub drain_light : Lume → Lume × List LumeCall
drain_light s = drain_pending s.pending_light s

-- Whether the radio accepts the frame makes no difference.
unfoldable pub drain_repeat : Antenna → Lume → Lume × List LumeCall
drain_repeat antenna s = if not s.pending_repeat then (s, []) else elim antenna [
  | none ↦ (record s { pending_repeat = false }, [])
  | some _ ↦ (
    record s { pending_repeat = false; repeats_emitted = (s.repeats_emitted + 1) % 2 ^ 32 },
    broadcast s.pending_repeat_frame ∷ [],
  )
]

-- The payload of `emit_repeat_census`.
abbrev pub talkback : ℕ → Lume → RepeaterHeartbeatPayload
talkback now s =
    let up = now / 1000 in
    let (uid0, uid1, uid2) = s.census_uid in
    record {
      uid0 = uid0;
      uid1 = uid1;
      uid2 = uid2;
      channel = s.listen_channel;
      uptime_s = if ltb 0xFFFF up then 0xFFFF else up;
      relayed_count = s.repeats_emitted;
    }

unfoldable pub emit_repeat_census : Antenna → ℕ → Lume → Lume × List LumeCall
emit_repeat_census antenna now s =
    let stamped = record s { last_census_ms = now } in
    let (n, frame) = encode_repeater_heartbeat census_buf census_header (talkback now stamped) in
    if not s.repeat_enabled || not s.radio_active
    then (s, [])
    else if not s.tofu.has_lock || s.no_signal
    then (s, [])
    else if ltb (elapsed now s.last_census_ms) lume_census_interval_ms
    then (s, [])
    else (
      stamped,
      elim antenna [ none ↦ [] | some _ ↦ if ltb 0 n then broadcast (take n frame) ∷ [] else [] ],
    )

-- The edge to NO SIGNAL.
abbrev pub loses_signal : ℕ → Lume → Bool
loses_signal now s = ltb 0 s.rx_count && not s.no_signal && ltb no_signal_ms (age now s.last_rx_ms)

unfoldable pub fallback_edges : ℕ → Lume → Lume × List LumeCall
fallback_edges now s =
    let silence = age now s.last_rx_ms in
    let starts = not s.fallback_active && ltb fallback_enter_ms silence in
    let on = s.fallback_active || starts in
    let fades = on && not s.fallback_fading && ltb fallback_fade_start_ms silence in
    if s.rx_count == 0 then (s, []) else (
      record s { fallback_active = on; fallback_fading = s.fallback_fading || fades },
      (if starts then emit_fallback_wash_start s else [])
          ++ (if fades then emit_fallback_wash_fade s else []),
    )

-- The channel behind this one in kScanOrder, the first standing for a channel that is not there.
abbrev pub next_listen : ℕ → ℕ
next_listen chan =
    let idx = if chan == 11 then 0 else if chan == 1 then 1 else if chan == 6 then 2 else 0 in
    get_or (11 ∷ 1 ∷ 6 ∷ []) ((idx + 1) % 3) 0

unfoldable pub scan : Antenna → ℕ → Lume → Lume × List LumeCall
scan antenna now s =
    let should_rescan = ltb 0 s.rx_count && ltb rescan_ms (age now s.last_rx_ms) in
    let scanning = s.channel_pref == 0 && (s.rx_count == 0 || should_rescan) in
    let next = next_listen s.listen_channel in
    if scanning && leb channel_dwell_ms (elapsed now s.last_chan_switch_ms)
    then (
      record s { listen_channel = next; last_chan_switch_ms = now; tofu = clear s.tofu },
      elim antenna [ none ↦ [] | some _ ↦ tuned next ∷ [] ],
    )
    else (s, [])

-- What the tick does first.
unfoldable pub drain : Antenna → ℕ → Lume → Lume × List LumeCall
drain antenna now s =
    let (s1, pulses) = drain_light s in
    let (s2, relays) = drain_repeat antenna (record s1 { needs_repaint = false }) in
    let (s3, beacons) = emit_repeat_census antenna now s2 in (s3, pulses ++ (relays ++ beacons))

unfoldable pub loop_tick : Antenna → ℕ → Lume → Lume × List LumeCall
loop_tick antenna now s =
    let (s1, drained) = drain antenna now s in
    let (s2, edges) = fallback_edges now s1 in
    let (s3, tunes) = scan antenna now s2 in
    if loses_signal now s1
    then (record s1 { no_signal = true; last_chan_switch_ms = now }, drained)
    else (record s3 { tofu = (tick s3.tofu now).0 }, drained ++ (edges ++ tunes))
