-- ===== src/Tests/Repeaters.antt =====
-- The repeater on small runs.
use nocturnation_stickc.Tofu.{admit, unlocked}
use nocturnation_stickc.Tests.Data.{relay_beat}
use nocturnation_stickc.Frame.Status.{decode_repeater_heartbeat, encode_repeater_heartbeat}
use nocturnation_stickc.Frame.Wire.{
  decode_header, read_u16_le, write_header, write_u16_le, write_u32_le,
}
use nocturnation_stickc.Repeater.{
  enter, census_frame, no_header, census_payload, on_recv, loop_tick, flush_relay, poll_button,
  service_scan, emit_census, mark_seen, seen_recently, start_radio, valid_repeater_channel,
  apply_channel_setting, any_entry,
}
use nocturnation_stickc.Prelude.{
  length, take, drop, ℕ, ◌≡◌, refl, inr, true, false, none, some, List, [], ◌∷◌, map, arith,
}
use nocturnation_stickc.Repeater.Beacon.{census-bystanders}
use nocturnation_stickc.Repeater.Contract.{
  Event, received, broadcasts, contract, run, with_censuses, ticked,
}
use nocturnation_stickc.Repeater.Types.{RepeaterMode, Radio, TickInput, repeater_mode}
use nocturnation_stickc.Repeater.Scanning.{IsTuned, repeater-IsTuned}
use nocturnation_stickc.Repeater.Relaying.{repeater-broadcasts}
use nocturnation_stickc.Repeater.Probing.{scan-reaches}
use nocturnation_stickc.Frame.Wire.Transfer.{sent}
use nocturnation_stickc.Frame.Types.{ok, Bytes, header_size, known_message_type}

-- A heartbeat of source 5 with a sequence number.
abbrev numbered : ℕ → Bytes
numbered seq = 0x4E ∷ 0x4E ∷ 4 ∷ 5 ∷ 0 ∷ seq ∷ 0 ∷ 0 ∷ 9 ∷ 1 ∷ 2 ∷ 3 ∷ 4 ∷ 5 ∷ 6 ∷ 7 ∷ 8 ∷ 9 ∷ []

abbrev good_radio : Radio
good_radio = some (λ frame. true)

abbrev calm_tick : ℕ → TickInput
calm_tick now = record {
  radio = good_radio;
  was_clicked = false;
  now_ms = now;
  probe_ms = now;
  confirm_from_ms = now;
}

-- A census of another repeater, with a sequence number.
abbrev heard_census : Bytes
heard_census =
    0x4E ∷ 0x4E ∷ 4 ∷ 5 ∷ 0 ∷ 6 ∷ 0 ∷ 0x0D ∷ 10 ∷ 9 ∷ 8 ∷ 7 ∷ 1 ∷ 1 ∷ 0 ∷ 1 ∷ 0 ∷ 0 ∷ 0 ∷ []

-- A frame heard twice, relayed once, and a census.
abbrev relay_events : List Event
relay_events =
    received heard_census 90
    ∷ received (numbered 7) 100
    ∷ ticked (calm_tick 110)
    ∷ received (numbered 7) 120
    ∷ ticked (calm_tick 130)
    ∷ received (numbered 8) 140
    ∷ ticked (calm_tick 1200)
    ∷ []

abbrev started : RepeaterMode
started = (enter good_radio 50 0 (1, 2, 3) repeater_mode).0

repeater-broadcasts_example :
    broadcasts (run started relay_events).1 ≡ contract [] none (with_censuses started relay_events)
repeater-broadcasts_example = repeater-broadcasts good_radio 50 0 (1, 2, 3) relay_events

-- What is broadcast, written out: the two frames relayed, once each, and the repeater's own census, but not
-- the one that it hears.
relay_test :
    broadcasts (run started relay_events).1
    ≡ numbered 7
      ∷ numbered 8
      ∷ (0x4E ∷ 0x4E ∷ 4 ∷ 0xFF ∷ 0xFF ∷ 0 ∷ 0 ∷ 0x0D ∷ 10 ∷ 1 ∷ 2 ∷ 3 ∷ 1 ∷ 1 ∷ 0 ∷ 2 ∷ 0 ∷ 0 ∷ 0
          ∷ [])
      ∷ []
unfolding run on_recv loop_tick enter decode_header known_message_type read_u16_le flush_relay
    poll_button service_scan emit_census census_frame mark_seen seen_recently start_radio
    encode_repeater_heartbeat write_header write_u16_le write_u32_le valid_repeater_channel
    apply_channel_setting any_entry
relay_test = refl

repeater-IsTuned_example : IsTuned (run started relay_events).0
repeater-IsTuned_example = repeater-IsTuned good_radio 50 0 (1, 2, 3) relay_events

abbrev scanning : RepeaterMode
scanning = record repeater_mode { scan_probe_started_ms = 100 }

abbrev scan_ticks : List TickInput
scan_ticks = calm_tick 500 ∷ calm_tick 800 ∷ calm_tick 1500 ∷ calm_tick 2200 ∷ []

scan-reaches_example :
    (n : ℕ) × ((run scanning (take n (map ticked scan_ticks))).0.active_channel ≡ 11)
scan-reaches_example =
    scan-reaches scanning scan_ticks 11
      (record { auto = refl; unlocked = refl; cursor_range = omega arith })
      (
        (refl, λ e. absurd (ground (arith, e))),
        (
          (refl, λ e. absurd (ground (arith, e))),
          ((refl, λ e. absurd (ground (arith, e))), ((refl, λ e. absurd (ground (arith, e))), tt)),
        ),
      )
      (omega arith) (inr (inr refl))

abbrev online : RepeaterMode
online = record repeater_mode {
  uid0 = 1;
  uid1 = 2;
  uid2 = 3;
  radio_up = true;
  locked = true;
  active_channel = 6;
  relayed_count = 70000;
}

census-bystanders_example :
    let frame = sent (census_frame 5000 online) in
    let hdr = (decode_header frame (length frame) no_header).1 in
    (decode_repeater_heartbeat hdr (drop header_size frame) hdr.payload_len relay_beat
      ≡ (ok, census_payload 5000 online))
    × (on_recv frame 5001 repeater_mode ≡ repeater_mode)
    × (admit unlocked hdr.message_type hdr.source_id 6 5001 ≡ (unlocked, false))
census-bystanders_example =
    census-bystanders 5000 online relay_beat 5001 repeater_mode unlocked 6 5001 (record {
      uid0_range = omega arith;
      uid1_range = omega arith;
      uid2_range = omega arith;
      channel_range = omega arith;
      count_range = omega arith;
    })
