-- ===== src/Tests/Broadcasts.antt =====
-- The Director's broadcast driver on small runs.
use nocturnation_stickc.Broadcaster.Settling.{listening_settles, listening_silent}
use nocturnation_stickc.Broadcaster.Startup.{start_broadcast}
use nocturnation_stickc.Broadcaster.Air.{send_frame_bytes}
use nocturnation_stickc.Prelude.{ℕ, ◌-◌, ◌^◌, ◌≡◌, refl, true, some, List, [], ◌∷◌, ◌++◌, arith}
use nocturnation_stickc.Frame.Types.{Bytes, is_performance_range}
use nocturnation_stickc.Broadcaster.Listening.{IsSettled, windows}
use nocturnation_stickc.Broadcaster.Copies.{frame-copies, pump_all, IsSpaced}
use nocturnation_stickc.Broadcaster.Airtime.{IsPaced, sends-IsPaced}
use nocturnation_stickc.Broadcaster.Runs.{Event, heard, run, aired, pulsed, ticked}
use nocturnation_stickc.Broadcaster.Types.{
  settled, Broadcaster, RadioAnswers, AirReads, TickReads, StartReads, PulseEvent, broadcaster,
  on_air,
}

abbrev open_air : RadioAnswers
open_air = record { begins = λ channel. true; accepts = λ frame. true }

abbrev air_at : ℕ → AirReads
air_at now = record { antenna = some open_air; sent_ms = now; plan_ms = now; rand = 7 }

abbrev tick_at : ℕ → TickReads
tick_at now = record {
  listen_ms = now;
  random = 5;
  pump_ms = now;
  pump_rand = 3;
  heartbeat_ms = now;
  tick_ms = now;
  air = air_at now;
}

abbrev start_at : StartReads
start_at = record {
  antenna = some open_air;
  retx_count = 3;
  director_source_id = 9;
  director_perf_source_id = 0x40;
  mac4 = 1;
  mac5 = 2;
  start_ms = 100;
}

-- A heartbeat under the candidate id.
abbrev clash : Bytes
clash = 0x4E ∷ 0x4E ∷ 4 ∷ 0x40 ∷ 0 ∷ 1 ∷ 0 ∷ 0 ∷ 9 ∷ 0 ∷ 0 ∷ 0 ∷ 0 ∷ 0 ∷ 0 ∷ 0 ∷ 0 ∷ 0 ∷ []

abbrev red : PulseEvent
red = record {
  r = 255;
  g = 0;
  b = 0;
  attack = 1;
  sustain = 2;
  release = 3;
  chance = 0;
  led_mode = 0;
  led_modifier1 = 0;
  led_modifier2 = 0;
}

abbrev early_events : List Event
early_events =
    heard clash 200
    ∷ pulsed 0 0 red (record { gate_ms = 300; air = air_at 300 })
    ∷ ticked (tick_at 900)
    ∷ []

abbrev listen_events : List Event
listen_events =
    heard clash 200 ∷ ticked (tick_at 1100) ∷ ticked (tick_at 2200) ∷ ticked (tick_at 3300) ∷ []

listening_settles_example :
    IsSettled (run (start_broadcast 11 start_at broadcaster).after listen_events).0
unfolding is_performance_range windows
listening_settles_example =
    listening_settles start_at open_air broadcaster listen_events refl refl refl refl refl
      (omega arith)

listening_silent_example :
    aired (run (start_broadcast 11 start_at broadcaster).after early_events).1 ≡ []
unfolding is_performance_range windows
listening_silent_example =
    listening_silent start_at open_air broadcaster early_events refl refl refl refl refl refl

-- A driver on the air with three copies.
abbrev on_channel_1 : Broadcaster
on_channel_1 = record broadcaster {
  active = true;
  startup_state = settled;
  source_id = 9;
  retransmit_count = 3;
}

abbrev paced_events : List Event
paced_events =
    pulsed 0 0 red (record { gate_ms = 1000; air = air_at 1000 })
    ∷ ticked (tick_at 1016)
    ∷ pulsed 1 0 red (record { gate_ms = 1030; air = air_at 1030 })
    ∷ pulsed 1 0 red (record { gate_ms = 1050; air = air_at 1050 })
    ∷ []

sends-IsPaced_example : IsPaced (2 ^ 32 - 50) on_channel_1 paced_events
sends-IsPaced_example = sends-IsPaced on_channel_1 paced_events

frame-copies_example :
    let r = send_frame_bytes (air_at 1000) clash on_channel_1 in
    r.1 ++ (pump_all (some open_air) ((1020, 4) ∷ (1040, 9) ∷ []) r.0).1
    ≡ on_air clash ∷ on_air clash ∷ on_air clash ∷ []
unfolding IsSpaced
frame-copies_example =
    frame-copies (air_at 1000) open_air clash on_channel_1 ((1020, 4) ∷ (1040, 9) ∷ []) refl refl
      (omega arith) (omega arith) (omega arith) (omega arith)
      (omega arith, omega arith, (omega arith, omega arith, tt)) (omega arith)
