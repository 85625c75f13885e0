-- ===== src/Broadcaster/Startup.antt =====
-- src/dal/drivers/espnow_broadcast_driver.cpp: what is heard, and the start and the stop.
use nocturnation_stickc.Repeater.{no_header, is_ok}
use nocturnation_stickc.Broadcaster.Ticks.{is_listening, is_idle}
use nocturnation_stickc.Frame.Wire.{decode_header}
use nocturnation_stickc.Prelude.{
  ltb, ◌==◌, ◌!=◌, if◌then◌else◌, length, drop, ℕ, ◌-◌, ◌^◌, true, false, not, ◌&&◌, ◌||◌, none,
  some, List, [], ◌∷◌,
}
use nocturnation_stickc.Frame.Status.{RepeaterHeartbeatPayload, decode_repeater_heartbeat}
use nocturnation_stickc.Frame.Types.{Bytes, same_type, header_size, heartbeat, repeater_heartbeat}
use nocturnation_stickc.Census.{Entry}
use nocturnation_stickc.Broadcaster.Air.{Answered, refusal}
use nocturnation_stickc.Broadcaster.Types.{
  listening, settled, idle, Broadcaster, DriverCall, RadioAnswers, Antenna, StartReads,
  redundant_sends_min, min_send_interval_ms, listen_max_attempts, radio_begin, redundant_sends_max,
  listen_for_frames, radio_end, note_repeater,
}

-- `m` is m.data, no null pointer, with its m.len bytes.
unfoldable pub on_listen_recv : Bytes → Broadcaster → Broadcaster
on_listen_recv m d =
    let (verdict, hdr) = decode_header m (length m) no_header in
    if not (is_ok verdict)
    then d
    else if not (same_type hdr.message_type heartbeat)
    then d
    else if hdr.source_id == d.listen_candidate
    then record d { listen_collision_heard = true }
    else d

-- The payload that `feed_census` reads into.
abbrev pub no_beacon : RepeaterHeartbeatPayload
no_beacon = record { uid0 = 0; uid1 = 0; uid2 = 0; channel = 0; uptime_s = 0; relayed_count = 0 }

-- The arguments of note().
abbrev pub noted : RepeaterHeartbeatPayload → ℕ → Entry
noted p now = record {
  uid0 = p.uid0;
  uid1 = p.uid1;
  uid2 = p.uid2;
  channel = p.channel;
  relayed = p.relayed_count;
  uptime_s = p.uptime_s;
  last_seen_ms = now;
  used = false;
}

unfoldable pub feed_census : Bytes → ℕ → List DriverCall
feed_census m now =
    let (verdict, hdr) = decode_header m (length m) no_header in
    let (body, p) = decode_repeater_heartbeat hdr (drop header_size m) hdr.payload_len no_beacon in
    if not (is_ok verdict)
    then []
    else if not (same_type hdr.message_type repeater_heartbeat)
    then []
    else if hdr.hop_count != 0
    then []
    else if not (is_ok body)
    then []
    else note_repeater (noted p now) ∷ []

unfoldable pub on_recv : Bytes → ℕ → Broadcaster → Broadcaster × List DriverCall
on_recv m now d =
    (if is_listening d.startup_state then on_listen_recv m d else d, feed_census m now)

-- `mac4` and `mac5` are the bytes of the MAC address.
unfoldable pub derive_source_id : ℕ → StartReads → ℕ
derive_source_id channel reads =
    if channel == 1
    then reads.director_source_id
    else if reads.mac5 == 0 || reads.mac5 == 0xFF
    then if reads.mac4 != 0 && reads.mac4 != 0xFF then reads.mac4 else 1
    else reads.mac5

-- The clamp of the number of copies.
abbrev pub clamped_copies : ℕ → ℕ
clamped_copies n =
    let low = if ltb n redundant_sends_min then redundant_sends_min else n in
    if ltb redundant_sends_max low then redundant_sends_max else low

-- What `start_broadcast` resets first.
unfoldable pub reset_for_start : ℕ → Broadcaster → Broadcaster
reset_for_start retx_count d = record d {
  seq_num = 1;
  last_tx_ms = 0;
  last_airtime_send_ms = 2 ^ 32 - min_send_interval_ms;
  airtime_drop_count = 0;
  retransmit_count = clamped_copies retx_count;
}

-- On channel 11.
unfoldable pub start_listening : RadioAnswers → StartReads → Broadcaster → Answered
start_listening radio reads d =
    let held = record d {
      listen_candidate = reads.director_perf_source_id;
      listen_collision_heard = false;
      listen_attempts_remaining = listen_max_attempts;
    } in
    if radio.begins 11
    then record {
      after = record held { listen_started_ms = reads.start_ms; startup_state = listening };
      calls = listen_for_frames true ∷ radio_begin 11 ∷ [];
      answer = true;
    }
    else record {
      after = held;
      calls = listen_for_frames true ∷ radio_begin 11 ∷ listen_for_frames false ∷ [];
      answer = false;
    }

-- On the other channels.
unfoldable pub start_at_once : ℕ → RadioAnswers → StartReads → Broadcaster → Answered
start_at_once channel radio reads d =
    let up = radio.begins channel in
    record {
      after = record d {
        source_id = derive_source_id channel reads;
        active = up;
        startup_state = if up then settled else idle;
      };
      calls = radio_begin channel ∷ (if up then listen_for_frames true ∷ [] else []);
      answer = up;
    }

unfoldable pub start_broadcast : ℕ → StartReads → Broadcaster → Answered
start_broadcast channel reads d =
    let fresh = reset_for_start reads.retx_count d in
    if d.active || not (is_idle d.startup_state)
    then record { after = d; calls = []; answer = d.active }
    else elim reads.antenna [
      | none ↦ refusal d
      | some radio ↦
          if channel == 11
          then start_listening radio reads fresh
          else start_at_once channel radio reads fresh
    ]

unfoldable pub stop_broadcast : Antenna → Broadcaster → Broadcaster × List DriverCall
stop_broadcast antenna d = if is_idle d.startup_state && not d.active then (d, []) else (
  record d {
    active = false;
    startup_state = idle;
    listen_collision_heard = false;
    listen_attempts_remaining = 0;
  },
  elim antenna [ none ↦ [] | some _ ↦ listen_for_frames false ∷ radio_end ∷ [] ],
)
