-- ===== src/Repeater/Scanning.antt =====
-- modes/repeater_mode.cpp: the channels of a repeater, and its scan for traffic.
use nocturnation_stickc.Frame.Wire.{decode_header}
use nocturnation_stickc.Frame.Types.{Bytes, header_size, same_type, repeater_heartbeat}
use nocturnation_stickc.Repeater.Contract.{Event, run, received, ticked}
use nocturnation_stickc.Repeater.{
  scan_channel, next_setting, service_scan, poll_button, start_radio, apply_channel_setting,
  flush_relay, emit_census, on_recv, loop_tick, valid_repeater_channel, enter, census_frame,
  mark_seen, no_header, is_ok, seen_recently,
}
use nocturnation_stickc.Prelude.{
  ℕ, ◌<◌, ◌≡◌, ◌≢◌, ◌⊎◌, true, arith, none, some, List, [], ◌∷◌, ltb, leb, ◌==◌, if◌then◌else◌,
  Bool-cases, length, refl, inl, inr, Bool, false,
}
use nocturnation_stickc.Repeater.Types.{
  RepeaterMode, Radio, TickInput, repeater_mode, repeat_buf_size,
}

-- A channel that a repeater may be on.
abbrev pub IsFleetChannel : ℕ → Type 0
IsFleetChannel c = (c ≡ 1) ⊎ ((c ≡ 6) ⊎ (c ≡ 11))

-- The setting is auto or a fleet channel, the scan cursor points at a candidate, and a radio that is up is on the
-- channel set, or while scanning on the candidate; a fixed channel counts as locked.
pub record IsTuned (s : RepeaterMode) : Type 0 where
  pub setting_range : (s.channel_setting ≡ 0) ⊎ IsFleetChannel s.channel_setting
  pub cursor_range : s.scan_idx < 3
  pub on_setting :
      s.channel_setting ≢ 0
      → (s.locked ≡ true) × (s.radio_up ≡ true → s.active_channel ≡ s.channel_setting)
  pub on_candidate :
      s.channel_setting ≡ 0 → s.radio_up ≡ true → s.active_channel ≡ scan_channel s.scan_idx

next_setting_range : (c : ℕ) → (next_setting c ≡ 0) ⊎ IsFleetChannel (next_setting c)
next_setting_range c = ground arith

service_scan-IsTuned :
    (radio : Radio) (now : ℕ) (s : RepeaterMode) → IsTuned s → IsTuned (service_scan radio now s).0
unfolding service_scan start_radio
service_scan-IsTuned none now s t = record {
  setting_range = ground (arith, t.setting_range);
  cursor_range = ground arith;
  on_setting = ground arith;
  on_candidate = ground arith;
}
service_scan-IsTuned (some radio) now s t = record {
  setting_range = ground (arith, t.setting_range);
  cursor_range = ground arith;
  on_setting = ground arith;
  on_candidate = ground arith;
}

poll_button-IsTuned :
    (input : TickInput) (s : RepeaterMode) → IsTuned s → IsTuned (poll_button input s).0
unfolding poll_button apply_channel_setting start_radio
poll_button-IsTuned input s t = record {
  setting_range = ground (arith, next_setting_range s.channel_setting);
  cursor_range = ground arith;
  on_setting = ground arith;
  on_candidate = ground arith;
}

flush_relay-IsTuned :
    (radio : Radio) (now : ℕ) (s : RepeaterMode) → IsTuned s → IsTuned (flush_relay radio now s).0
unfolding flush_relay
flush_relay-IsTuned radio now s t = record {
  setting_range = ground arith;
  cursor_range = ground arith;
  on_setting = ground arith;
  on_candidate = ground arith;
}

-- Census and sound leave the tuning alone.
emit_census-IsTuned :
    (radio : Radio) (now : ℕ) (s : RepeaterMode) → IsTuned s → IsTuned (emit_census radio now s).0
unfolding emit_census census_frame
emit_census-IsTuned none now s t = record {
  setting_range = ground arith;
  cursor_range = ground arith;
  on_setting = ground arith;
  on_candidate = ground arith;
}
emit_census-IsTuned (some radio) now s t = record {
  setting_range = ground arith;
  cursor_range = ground arith;
  on_setting = ground arith;
  on_candidate = ground arith;
}

-- Hearing a frame may lock the channel and leaves the rest of the tuning alone.
record KeepsTuning (s s' : RepeaterMode) : Type 0 where
  setting_kept : s'.channel_setting ≡ s.channel_setting
  idx_kept : s'.scan_idx ≡ s.scan_idx
  up_kept : s'.radio_up ≡ s.radio_up
  active_kept : s'.active_channel ≡ s.active_channel
  locks : (s'.locked ≡ s.locked) ⊎ (s'.locked ≡ true)

KeepsTuning-IsTuned : (s s' : RepeaterMode) → KeepsTuning s s' → IsTuned s → IsTuned s'
KeepsTuning-IsTuned s s' k t = record {
  setting_range = rw k.setting_kept t.setting_range;
  cursor_range = omega (arith, k.idx_kept, t.cursor_range);
  on_setting = ground (arith, k.setting_kept, k.up_kept, k.active_kept, k.locks, t.on_setting);
  on_candidate = rw (k.setting_kept, k.up_kept, k.active_kept, k.idx_kept) t.on_candidate;
}

mark_seen-KeepsTuning : (src seq : ℕ) (s : RepeaterMode) → KeepsTuning s (mark_seen src seq s)
unfolding mark_seen
mark_seen-KeepsTuning src seq s = elim (Bool-cases (seq == 0)) [
  | inl zero_seq ↦ rw zero_seq (record {
    setting_kept = refl;
    idx_kept = refl;
    up_kept = refl;
    active_kept = refl;
    locks = inl refl;
  })
  | inr sequenced ↦ rw sequenced (record {
    setting_kept = refl;
    idx_kept = refl;
    up_kept = refl;
    active_kept = refl;
    locks = inl refl;
  })
]

staged_keeps :
    (s marked : RepeaterMode) (frame : Bytes) (fits : Bool)
    → KeepsTuning s marked
    → KeepsTuning s (
        if fits
        then record marked { pending_repeat_frame = frame; pending_repeat = true }
        else marked)
staged_keeps s marked frame true k = record {
  setting_kept = k.setting_kept;
  idx_kept = k.idx_kept;
  up_kept = k.up_kept;
  active_kept = k.active_kept;
  locks = k.locks;
}
staged_keeps s marked frame false k = k

heard_keeps :
    (s marked : RepeaterMode) (clock : ℕ)
    → KeepsTuning (record s { last_rx_ms = clock; locked = true }) marked
    → KeepsTuning s marked
heard_keeps s marked clock k = record {
  setting_kept = k.setting_kept;
  idx_kept = k.idx_kept;
  up_kept = k.up_kept;
  active_kept = k.active_kept;
  locks = inr (ground (arith, k.locks));
}

on_recv-KeepsTuning :
    (frame : Bytes) (clock : ℕ) (s : RepeaterMode) → KeepsTuning s (on_recv frame clock s)
unfolding on_recv
on_recv-KeepsTuning frame clock s =
    let verdict = (decode_header frame (length frame) no_header).0 in
    let hdr = (decode_header frame (length frame) no_header).1 in
    let heard = record s { last_rx_ms = clock; locked = true } in
    let same : KeepsTuning s s = record {
      setting_kept = refl;
      idx_kept = refl;
      up_kept = refl;
      active_kept = refl;
      locks = inl refl;
    } in
    let touched : KeepsTuning s heard = record {
      setting_kept = refl;
      idx_kept = refl;
      up_kept = refl;
      active_kept = refl;
      locks = inr refl;
    } in
    let k = mark_seen-KeepsTuning hdr.source_id hdr.sequence_number heard in
    let marked = mark_seen hdr.source_id hdr.sequence_number heard in
    elim (Bool-cases (ltb (length frame) header_size)) [
      | inl short ↦ rw short same
      | inr long ↦ elim (Bool-cases (is_ok verdict)) [
        | inr bad ↦ rw (long, bad) same
        | inl good ↦ elim (Bool-cases (same_type hdr.message_type repeater_heartbeat)) [
          | inl census ↦ rw (long, good, census) same
          | inr fleet ↦ elim (Bool-cases (hdr.sequence_number == 0)) [
            | inl zero_seq ↦ rw (long, good, fleet, zero_seq) touched
            | inr sequenced ↦
                elim (Bool-cases (seen_recently heard hdr.source_id hdr.sequence_number)) [
                  | inl seen ↦ rw (long, good, fleet, sequenced, seen) touched
                  | inr unseen ↦
                      rw (long, good, fleet, sequenced, unseen)
                        (heard_keeps s _ clock
                          (staged_keeps heard marked frame (leb (length frame) repeat_buf_size) k))
                ]
          ]
        ]
      ]
    ]

on_recv-IsTuned :
    (frame : Bytes) (clock : ℕ) (s : RepeaterMode) → IsTuned s → IsTuned (on_recv frame clock s)
on_recv-IsTuned frame clock s t =
    KeepsTuning-IsTuned s (on_recv frame clock s) (on_recv-KeepsTuning frame clock s) t

loop_tick-IsTuned :
    (input : TickInput) (s : RepeaterMode) → IsTuned s → IsTuned (loop_tick input s).0
unfolding loop_tick
loop_tick-IsTuned input s t =
    let s1 = (flush_relay input.radio input.now_ms s).0 in
    let s2 = (poll_button input s1).0 in
    let s3 = (service_scan input.radio input.now_ms s2).0 in
    emit_census-IsTuned input.radio input.now_ms s3 (
      service_scan-IsTuned input.radio input.now_ms s2
        (poll_button-IsTuned input s1 (flush_relay-IsTuned input.radio input.now_ms s t)))

run-IsTuned : (s : RepeaterMode) (events : List Event) → IsTuned s → IsTuned (run s events).0
unfolding run
run-IsTuned s [] t = t
run-IsTuned s (received frame clock ∷ events) t =
    run-IsTuned (on_recv frame clock s) events (on_recv-IsTuned frame clock s t)
run-IsTuned s (ticked input ∷ events) t =
    run-IsTuned (loop_tick input s).0 events (loop_tick-IsTuned input s t)

valid_setting : (c : ℕ) → (valid_repeater_channel c ≡ 0) ⊎ IsFleetChannel (valid_repeater_channel c)
unfolding valid_repeater_channel
valid_setting c = ground arith

enter-IsTuned :
    (radio : Radio) (boot stored : ℕ) (mac : ℕ × ℕ × ℕ) (s : RepeaterMode)
    → s.scan_idx < 3
    → IsTuned (enter radio boot stored mac s).0
unfolding enter start_radio
enter-IsTuned radio boot stored mac s h =
    let v = valid_setting stored in
    record {
      setting_range = ground (arith, v);
      cursor_range = ground arith;
      on_setting = ground arith;
      on_candidate = ground arith;
    }

-- From the entry on, whatever byte flash holds and whatever is heard, clicked and answered by the radio,
-- the setting stays auto, 1, 6 or 11; on a fixed setting the repeater counts as locked and a radio that is up is on
-- that channel; on auto it is on the candidate that the scan points at.
pub repeater-IsTuned :
    (radio : Radio) (boot stored : ℕ) (mac : ℕ × ℕ × ℕ) (events : List Event)
    → IsTuned (run (enter radio boot stored mac repeater_mode).0 events).0
repeater-IsTuned radio boot stored mac events =
    run-IsTuned (enter radio boot stored mac repeater_mode).0 events
      (enter-IsTuned radio boot stored mac repeater_mode (omega arith))
