-- ===== src/Broadcaster/Ticks.antt =====
-- src/dal/drivers/espnow_broadcast_driver.cpp: the loop tick, with the retransmits, the heartbeat and the
-- listening before the first frame.
use nocturnation_stickc.Broadcaster.Senders.{frame_buf, own_header}
use nocturnation_stickc.Frame.Status.{encode_heartbeat, heartbeat_payload_len}
use nocturnation_stickc.Prelude.{
  ltb, ◌==◌, if◌then◌else◌, elapsed, later, take, ℕ, ◌+◌, ◌-◌, ◌%◌, ◌^◌, Bool, true, false, not,
  ◌||◌, none, some, List, [], ◌∷◌, ◌++◌,
}
use nocturnation_stickc.Broadcaster.Air.{
  Answered, redundant_gap_ms, next_seq, refusal, send_frame_bytes,
}
use nocturnation_stickc.Broadcaster.Types.{
  listening, settled, idle, StartupState, Broadcaster, DriverCall, Antenna, AirReads, TickReads,
  listen_window_ms, on_air, heartbeat_period_ms, put_perf_source_id,
}

unfoldable pub pump_retransmits : Antenna → ℕ → ℕ → Broadcaster → Broadcaster × List DriverCall
pump_retransmits antenna now rand d =
    let spent = d.retransmits_remaining - 1 in
    if not d.active || d.retransmits_remaining == 0
    then (d, [])
    else if ltb now d.next_retransmit_ms
    then (d, [])
    else elim antenna [
      | none ↦ (record d { retransmits_remaining = 0 }, [])
      | some _ ↦ (
        record d {
          last_tx_ms = now;
          retransmits_remaining = spent;
          next_retransmit_ms =
              if ltb 0 spent then later now (redundant_gap_ms rand) else d.next_retransmit_ms;
        },
        on_air d.retransmit_frame ∷ [],
      )
    ]

unfoldable pub send_heartbeat : ℕ → AirReads → Broadcaster → Broadcaster × List DriverCall
send_heartbeat tick air d =
    let (stepped, seq) = next_seq d in
    let (n, buf) =
      encode_heartbeat (frame_buf heartbeat_payload_len) (own_header d.source_id seq)
        (record { tick = tick; days_since_2026 = 0; centiseconds_today = 0 }) in
    if not d.active then (d, []) else send_frame_bytes air (take n buf) stepped

unfoldable pub maybe_send_heartbeat : TickReads → Broadcaster → Answered
maybe_send_heartbeat reads d =
    let (beaten, calls) = send_heartbeat reads.tick_ms reads.air d in
    if not d.active
    then refusal d
    else if ltb (elapsed reads.heartbeat_ms d.last_hb_ms) heartbeat_period_ms
    then refusal d
    else record {
      after = record beaten { last_hb_ms = reads.heartbeat_ms };
      calls = calls;
      answer = true;
    }

-- pick_performance_id_random, from esp_random().
unfoldable pub pick_performance_id : ℕ → ℕ
pick_performance_id random = 0x40 + random % 191

-- The end of `listen_tick`.
abbrev pub settle : Broadcaster → Broadcaster
settle d = record d { source_id = d.listen_candidate; active = true; startup_state = settled }

-- `listen_attempts_remaining` is a byte, and its decrement wraps.
unfoldable pub listen_tick : ℕ → ℕ → Broadcaster → Broadcaster × List DriverCall
listen_tick now random d =
    let left = (d.listen_attempts_remaining + 255) % 2 ^ 8 in
    let spent = record d { listen_attempts_remaining = left } in
    let id = pick_performance_id random in
    if ltb (elapsed now d.listen_started_ms) listen_window_ms
    then (d, [])
    else if not d.listen_collision_heard
    then (settle d, [])
    else if left == 0
    then (settle spent, [])
    else (
      record spent {
        listen_candidate = id;
        listen_collision_heard = false;
        listen_started_ms = now;
      },
      put_perf_source_id id ∷ [],
    )

abbrev pub is_listening : StartupState → Bool
is_listening listening = true
is_listening _ = false

abbrev pub is_idle : StartupState → Bool
is_idle idle = true
is_idle _ = false

unfoldable pub loop_tick : TickReads → Broadcaster → Broadcaster × List DriverCall
loop_tick reads d =
    let (pumped, copies) = pump_retransmits reads.air.antenna reads.pump_ms reads.pump_rand d in
    let beat = maybe_send_heartbeat reads pumped in
    if is_listening d.startup_state
    then listen_tick reads.listen_ms reads.random d
    else if not d.active
    then (d, [])
    else (beat.after, copies ++ beat.calls)
