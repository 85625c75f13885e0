-- ===== src/Broadcaster/Gate.antt =====
-- src/dal/drivers/espnow_broadcast_driver.cpp: the ways that a send can take through the airtime cap.
use nocturnation_stickc.Frame.Light.{
  encode_light_pulse, light_pulse_payload_len, encode_light_wash, light_wash_payload_len,
  encode_light_wash_end, light_wash_end_payload_len, encode_light_wash_pulse,
  light_wash_pulse_payload_len,
}
use nocturnation_stickc.Frame.Wire.{read_u16_le, byte}
use nocturnation_stickc.Broadcaster.Senders.{
  send_light, own_header, send_passthrough, restamped, send, send_wash, send_wash_end,
  send_wash_pulse, frame_buf, pulse_payload, wash_payload, wash_end_payload, wash_pulse_payload,
}
use nocturnation_stickc.Broadcaster.Air.{
  airtime_cap_ready, next_seq, send_frame_bytes, Answered, refusal,
}
use nocturnation_stickc.Prelude.{
  ltb, ◌==◌, ltb→le, Bool-cases, elapsed, take, ℕ, ◌+◌, ◌%◌, ◌^◌, ◌≤◌, ◌≡◌, refl, inl, inr, true,
  false, List, [], arith, ◌!=◌, if◌then◌else◌, length, subst, Bool, not, ◌||◌, Option, none, some,
}
use nocturnation_stickc.Frame.Types.{
  Bytes, Header, broadcast_source_id, max_frame_size, protocol_version, magic0, magic1, header_size,
}
use nocturnation_stickc.Broadcaster.Types.{
  Broadcaster, DriverCall, AirReads, SendReads, min_send_interval_ms,
}
use nocturnation_stickc.Broadcaster.Runs.{
  SameStation, SameStation-refl, SameStation-trans, send_frame-keeps, Event, step, heard, ticked,
  pulsed, washed, wash_ended, wash_pulsed, passed,
}

-- The state as the cap leaves it when it admits a send at `now`, and when it refuses one.
abbrev pub admitted : ℕ → Broadcaster → Broadcaster
admitted now d = record d { last_airtime_send_ms = now }

abbrev pub turned_away : Broadcaster → Broadcaster
turned_away d = record d { airtime_drop_count = (d.airtime_drop_count + 1) % 2 ^ 32 }

-- A send at `now` from `d` ends in `r`: nothing went out, or the cap admitted it.
pub data Gated (d : Broadcaster) (now : ℕ) (r : Broadcaster × List DriverCall) : Type 0 where
  held : SameStation d r.0 → r.1 ≡ [] → (d.active ≡ false → r.0 ≡ d) → Gated d now r
  let_through :
      d.active ≡ true
      → min_send_interval_ms ≤ elapsed now d.last_airtime_send_ms
      → SameStation (admitted now d) r.0
      → Gated d now r

cap_open :
    (now : ℕ) (d : Broadcaster)
    → (airtime_cap_ready now d).1 ≡ true
    → (min_send_interval_ms ≤ elapsed now d.last_airtime_send_ms)
      × ((airtime_cap_ready now d).0 ≡ admitted now d)
unfolding airtime_cap_ready
cap_open now d ready =
    elim (Bool-cases (ltb (elapsed now d.last_airtime_send_ms) min_send_interval_ms)) [
      | inl e ↦ absurd (ground (arith, e, ready))
      | inr e ↦ (ltb→le (elapsed now d.last_airtime_send_ms) min_send_interval_ms e, rw e refl)
    ]

cap_shut :
    (now : ℕ) (d : Broadcaster)
    → (airtime_cap_ready now d).1 ≡ false
    → (airtime_cap_ready now d).0 ≡ turned_away d
unfolding airtime_cap_ready
cap_shut now d ready =
    elim (Bool-cases (ltb (elapsed now d.last_airtime_send_ms) min_send_interval_ms)) [
      | inl e ↦ rw e refl
      | inr e ↦ absurd (ground (arith, e, ready))
    ]

off_air : (d : Broadcaster) (now : ℕ) → Gated d now (d, [])
off_air d now = held (SameStation-refl d) refl (λ _. refl)

dropped : (d : Broadcaster) (now : ℕ) → d.active ≡ true → Gated d now (turned_away d, [])
dropped d now on =
    held (record { same_active = refl; same_state = refl; same_source = refl; same_gate = refl })
      refl (λ off. absurd (ground (arith, on, off)))

-- The state behind `next_seq`, as a station.
numbered_station : (d : Broadcaster) → SameStation d (next_seq d).0
unfolding next_seq
numbered_station d = record {
  same_active = refl;
  same_state = refl;
  same_source = refl;
  same_gate = refl;
}

pub sent_station :
    (reads : AirReads) (frame : Bytes) (d : Broadcaster)
    → SameStation d (send_frame_bytes reads frame (next_seq d).0).0
sent_station reads frame d =
    let d1 = (next_seq d).0 in
    SameStation-trans d d1 (send_frame_bytes reads frame d1).0 (numbered_station d)
      (send_frame-keeps reads frame d1)

abbrev outcome : Answered → Broadcaster × List DriverCall
outcome r = (r.after, r.calls)

answered_either :
    (b : Bool) (d : Broadcaster) (now : ℕ) (x y : Answered)
    → (b ≡ true → Gated d now (outcome x))
    → (b ≡ false → Gated d now (outcome y))
    → Gated d now (outcome (if b then x else y))
answered_either true d now x y f g = f refl
answered_either false d now x y f g = g refl

either :
    (b : Bool) (d : Broadcaster) (now : ℕ) (x y : Broadcaster × List DriverCall)
    → (b ≡ true → Gated d now x)
    → (b ≡ false → Gated d now y)
    → Gated d now (if b then x else y)
either true d now x y f g = f refl
either false d now x y f g = g refl

shut-Gated :
    (now : ℕ) (d : Broadcaster)
    → not d.active ≡ false
    → not (airtime_cap_ready now d).1 ≡ true
    → Gated d now ((airtime_cap_ready now d).0, [])
shut-Gated now d on shut =
    rw (cap_shut now d (ground (arith, shut))) (dropped d now (ground (arith, on)))

through-Gated :
    (now : ℕ) (d : Broadcaster) (r : Broadcaster × List DriverCall)
    → not d.active ≡ false
    → not (airtime_cap_ready now d).1 ≡ false
    → SameStation (airtime_cap_ready now d).0 r.0
    → Gated d now r
through-Gated now d r on free same =
    let (gap, e) = cap_open now d (ground (arith, free)) in
    let_through (ground (arith, on)) gap (subst (λ x. SameStation x r.0) e same)

send_light-Gated :
    (encode : Header → ℕ × Bytes) (reads : SendReads) (d : Broadcaster)
    → Gated d reads.gate_ms (outcome (send_light encode reads d))
unfolding send_light
send_light-Gated encode reads d =
    let now = reads.gate_ms in
    let cap = airtime_cap_ready now d in
    let d1 = (next_seq cap.0).0 in
    let r = encode (own_header d.source_id (next_seq cap.0).1) in
    let out = send_frame_bytes reads.air (take r.0 r.1) d1 in
    let sent : Answered = record { after = out.0; calls = out.1; answer = true } in
    let framed : Answered = if r.0 == 0 then refusal d1 else sent in
    let past_cap : Answered = if not cap.1 then refusal cap.0 else framed in
    answered_either (not d.active) d now (refusal d) past_cap (λ off. off_air d now)
      (λ on.
        answered_either (not cap.1) d now (refusal cap.0) framed (λ shut. shut-Gated now d on shut)
          (λ free.
            answered_either (r.0 == 0) d now (refusal d1) sent
              (λ z. through-Gated now d (d1, []) on free (numbered_station cap.0))
              (λ z. through-Gated now d out on free (sent_station reads.air (take r.0 r.1) cap.0))))

send_passthrough-Gated :
    (frame : Bytes) (reads : SendReads) (d : Broadcaster)
    → Gated d reads.gate_ms (send_passthrough frame reads d)
unfolding send_passthrough
send_passthrough-Gated frame reads d =
    let now = reads.gate_ms in
    let cap = airtime_cap_ready now d in
    let (d1, seq) = next_seq cap.0 in
    let stamped = send_frame_bytes reads.air (restamped d.source_id seq frame) d1 in
    let plain = send_frame_bytes reads.air frame cap.0 in
    let T = Broadcaster × List DriverCall in
    let c5 : T = if read_u16_le frame 3 == broadcast_source_id then stamped else plain in
    let c4 : T = if ltb max_frame_size (length frame) then (cap.0, []) else c5 in
    let c3 : T = if not cap.1 then (cap.0, []) else c4 in
    let c2 : T = if not d.active then (d, []) else c3 in
    let c1 : T = if byte frame 2 != protocol_version then (d, []) else c2 in
    let c0 : T = if byte frame 0 != magic0 || byte frame 1 != magic1 then (d, []) else c1 in
    either (ltb (length frame) header_size) d now (d, []) c0 (λ _. off_air d now)
      (λ _.
        either (byte frame 0 != magic0 || byte frame 1 != magic1) d now (d, []) c1
          (λ _. off_air d now)
          (λ _.
            either (byte frame 2 != protocol_version) d now (d, []) c2 (λ _. off_air d now)
              (λ _.
                either (not d.active) d now (d, []) c3 (λ _. off_air d now)
                  (λ on.
                    either (not cap.1) d now (cap.0, []) c4 (λ shut. shut-Gated now d on shut)
                      (λ free.
                        either (ltb max_frame_size (length frame)) d now (cap.0, []) c5
                          (λ _. through-Gated now d (cap.0, []) on free (SameStation-refl cap.0))
                          (λ _.
                            either (read_u16_le frame 3 == broadcast_source_id) d now stamped plain
                              (λ _.
                                through-Gated now d stamped on free
                                  (sent_station reads.air (restamped d.source_id seq frame) cap.0))
                              (λ _.
                                through-Gated now d plain on free
                                  (send_frame-keeps reads.air frame cap.0))))))))

-- The time at the gate of a send; no time for the other events.
abbrev pub gate_time : Event → Option ℕ
gate_time (heard _ _) = none
gate_time (ticked _) = none
gate_time (pulsed _ _ _ reads) = some reads.gate_ms
gate_time (washed _ _ _ reads) = some reads.gate_ms
gate_time (wash_ended _ _ _ reads) = some reads.gate_ms
gate_time (wash_pulsed _ _ _ reads) = some reads.gate_ms
gate_time (passed _ reads) = some reads.gate_ms

abbrev pub GatedAt : Broadcaster → Broadcaster × List DriverCall → Option ℕ → Type 0
GatedAt d r none = Unit
GatedAt d r (some now) = Gated d now r

-- Every send goes through the cap.
pub step-Gated : (e : Event) (d : Broadcaster) → GatedAt d (step e d) (gate_time e)
unfolding step send send_wash send_wash_end send_wash_pulse
step-Gated (heard _ _) d = tt
step-Gated (ticked _) d = tt
step-Gated (pulsed c g ev reads) d =
    send_light-Gated
      (λ h. encode_light_pulse (frame_buf light_pulse_payload_len) h (pulse_payload c g ev)) reads d
step-Gated (washed c g ev reads) d =
    send_light-Gated
      (λ h. encode_light_wash (frame_buf light_wash_payload_len) h (wash_payload c g ev)) reads d
step-Gated (wash_ended c g t reads) d =
    send_light-Gated
      (λ h. encode_light_wash_end (frame_buf light_wash_end_payload_len) h (wash_end_payload c g t))
      reads d
step-Gated (wash_pulsed c g ev reads) d =
    send_light-Gated
      (λ h.
        encode_light_wash_pulse (frame_buf light_wash_pulse_payload_len) h
          (wash_pulse_payload c g ev))
      reads d
step-Gated (passed frame reads) d = send_passthrough-Gated frame reads d
