-- ===== src/Broadcaster/Steady.antt =====
-- src/dal/drivers/espnow_broadcast_driver.cpp: what a loop tick and a frame heard leave as it is.
use nocturnation_stickc.Broadcaster.Senders.{frame_buf, own_header}
use nocturnation_stickc.Frame.Status.{encode_heartbeat, heartbeat_payload_len}
use nocturnation_stickc.Broadcaster.Gate.{gate_time, sent_station}
use nocturnation_stickc.Broadcaster.Air.{redundant_gap_ms, next_seq}
use nocturnation_stickc.Broadcaster.Startup.{on_recv, on_listen_recv}
use nocturnation_stickc.Broadcaster.Ticks.{
  pump_retransmits, send_heartbeat, maybe_send_heartbeat, loop_tick, listen_tick, is_listening,
}
use nocturnation_stickc.Prelude.{
  ltb, ◌==◌, if◌then◌else◌, Bool-cases, Option-cases, elapsed, later, take, ℕ, ◌-◌, ◌≡◌, refl, inl,
  inr, false, not, ◌||◌, none, arith,
}
use nocturnation_stickc.Frame.Types.{Bytes}
use nocturnation_stickc.Broadcaster.Types.{
  Broadcaster, Antenna, AirReads, TickReads, heartbeat_period_ms,
}
use nocturnation_stickc.Broadcaster.Runs.{
  Event, SameStation, SameStation-refl, SameStation-trans, step, heard, ticked, pulsed, washed,
  wash_ended, wash_pulsed, passed,
}

pump-SameStation :
    (antenna : Antenna) (now rand : ℕ) (d : Broadcaster)
    → SameStation d (pump_retransmits antenna now rand d).0
unfolding pump_retransmits
pump-SameStation antenna now rand d =
    let same : (x : ℕ) (y z : ℕ)
        → SameStation d
            (record d { last_tx_ms = x; retransmits_remaining = y; next_retransmit_ms = z }) =
      λ x y z. record {
        same_active = refl;
        same_state = refl;
        same_source = refl;
        same_gate = refl;
      } in
    let spent = d.retransmits_remaining - 1 in
    let next = if ltb 0 spent then later now (redundant_gap_ms rand) else d.next_retransmit_ms in
    elim (Bool-cases (not d.active || d.retransmits_remaining == 0)) [
      | inl off ↦ rw off (SameStation-refl d)
      | inr on ↦ elim (Bool-cases (ltb now d.next_retransmit_ms)) [
        | inl early ↦ rw (on, early) (SameStation-refl d)
        | inr due ↦ elim (Option-cases antenna) [
          | inl e ↦ rw (on, due, e) (same d.last_tx_ms 0 d.next_retransmit_ms)
          | inr (radio, e) ↦ rw (on, due, e) (same now spent next)
        ]
      ]
    ]

heartbeat-SameStation :
    (tick : ℕ) (air : AirReads) (d : Broadcaster) → SameStation d (send_heartbeat tick air d).0
unfolding send_heartbeat
heartbeat-SameStation tick air d =
    let (d1, seq) = next_seq d in
    let (n, buf) =
      encode_heartbeat (frame_buf heartbeat_payload_len) (own_header d.source_id seq)
        (record { tick = tick; days_since_2026 = 0; centiseconds_today = 0 }) in
    elim (Bool-cases (not d.active)) [
      | inl off ↦ rw off (SameStation-refl d)
      | inr on ↦ rw on (sent_station air (take n buf) d)
    ]

beat-SameStation :
    (reads : TickReads) (d : Broadcaster) → SameStation d (maybe_send_heartbeat reads d).after
unfolding maybe_send_heartbeat
beat-SameStation reads d =
    let beaten = heartbeat-SameStation reads.tick_ms reads.air d in
    elim (Bool-cases (not d.active)) [
      | inl off ↦ rw off (SameStation-refl d)
      | inr on ↦
          elim (Bool-cases (ltb (elapsed reads.heartbeat_ms d.last_hb_ms) heartbeat_period_ms)) [
            | inl early ↦ rw (on, early) (SameStation-refl d)
            | inr due ↦
                rw (on, due)
                  (record {
                    same_active = beaten.same_active;
                    same_state = beaten.same_state;
                    same_source = beaten.same_source;
                    same_gate = beaten.same_gate;
                  })
          ]
    ]

-- A tick that does not listen.
pub tick-SameStation :
    (reads : TickReads) (d : Broadcaster)
    → is_listening d.startup_state ≡ false
    → SameStation d (loop_tick reads d).0
unfolding loop_tick
tick-SameStation reads d still =
    let d1 = (pump_retransmits reads.air.antenna reads.pump_ms reads.pump_rand d).0 in
    elim (Bool-cases (not d.active)) [
      | inl off ↦ rw (still, off) (SameStation-refl d)
      | inr on ↦
          rw (still, on)
            (SameStation-trans d d1 (maybe_send_heartbeat reads d1).after
              (pump-SameStation reads.air.antenna reads.pump_ms reads.pump_rand d)
              (beat-SameStation reads d1))
    ]

listen-gate :
    (now random : ℕ) (d : Broadcaster)
    → (listen_tick now random d).0.last_airtime_send_ms ≡ d.last_airtime_send_ms
unfolding listen_tick
listen-gate now random d = ground arith

tick-gate :
    (reads : TickReads) (d : Broadcaster)
    → (loop_tick reads d).0.last_airtime_send_ms ≡ d.last_airtime_send_ms
unfolding loop_tick
tick-gate reads d = elim (Bool-cases (is_listening d.startup_state)) [
  | inl on ↦ rw on (listen-gate reads.listen_ms reads.random d)
  | inr off ↦ (tick-SameStation reads d off).same_gate
]

recv-gate :
    (frame : Bytes) (now : ℕ) (d : Broadcaster)
    → (on_recv frame now d).0.last_airtime_send_ms ≡ d.last_airtime_send_ms
unfolding on_recv on_listen_recv
recv-gate frame now d = ground arith

pub idle-gate :
    (e : Event) (d : Broadcaster)
    → gate_time e ≡ none
    → (step e d).0.last_airtime_send_ms ≡ d.last_airtime_send_ms
unfolding step
idle-gate (heard frame now) d h = recv-gate frame now d
idle-gate (ticked reads) d h = tick-gate reads d
idle-gate (pulsed _ _ _ reads) d h = absurd (ground (arith, h))
idle-gate (washed _ _ _ reads) d h = absurd (ground (arith, h))
idle-gate (wash_ended _ _ _ reads) d h = absurd (ground (arith, h))
idle-gate (wash_pulsed _ _ _ reads) d h = absurd (ground (arith, h))
idle-gate (passed _ reads) d h = absurd (ground (arith, h))
