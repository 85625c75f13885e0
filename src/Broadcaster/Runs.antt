-- ===== src/Broadcaster/Runs.antt =====
-- src/dal/drivers/espnow_broadcast_driver.cpp: what happens to a broadcaster between a start and a stop,
-- and what of its state stays through a frame.
use nocturnation_stickc.Broadcaster.Senders.{
  send, send_wash, send_wash_end, send_wash_pulse, send_passthrough,
}
use nocturnation_stickc.Broadcaster.Ticks.{loop_tick}
use nocturnation_stickc.Broadcaster.Air.{put_on_air, send_frame_bytes}
use nocturnation_stickc.Broadcaster.Startup.{on_recv}
use nocturnation_stickc.Prelude.{
  Option-cases, ℕ, ◌≡◌, refl, ◌∙◌, inl, inr, List, [], ◌∷◌, ◌++◌, ltb, leb, ◌==◌, Bool-cases,
  length, not, ◌&&◌, ◌||◌, ap,
}
use nocturnation_stickc.Frame.Types.{Bytes}
use nocturnation_stickc.Broadcaster.Types.{
  radio_end, Broadcaster, DriverCall, AirReads, SendReads, TickReads, PulseEvent, WashEvent,
  retransmit_buf_size, on_air, radio_begin, listen_for_frames, put_perf_source_id, note_repeater,
}

-- A frame heard at a time, a loop tick, or one of the sends.
pub data Event : Type 0 where
  heard : Bytes → ℕ → Event
  ticked : TickReads → Event
  pulsed : ℕ → ℕ → PulseEvent → SendReads → Event
  washed : ℕ → ℕ → WashEvent → SendReads → Event
  wash_ended : ℕ → ℕ → ℕ → SendReads → Event
  wash_pulsed : ℕ → ℕ → PulseEvent → SendReads → Event
  passed : Bytes → SendReads → Event

unfoldable pub step : Event → Broadcaster → Broadcaster × List DriverCall
step (heard frame now) d = on_recv frame now d
step (ticked reads) d = loop_tick reads d
step (pulsed c g ev reads) d = let r = send c g ev reads d in (r.after, r.calls)
step (washed c g ev reads) d = let r = send_wash c g ev reads d in (r.after, r.calls)
step (wash_ended c g t reads) d = let r = send_wash_end c g t reads d in (r.after, r.calls)
step (wash_pulsed c g ev reads) d = let r = send_wash_pulse c g ev reads d in (r.after, r.calls)
step (passed frame reads) d = send_passthrough frame reads d

unfoldable pub run : Broadcaster → List Event → Broadcaster × List DriverCall
run d [] = (d, [])
run d (e ∷ events) =
    let (d1, calls) = step e d in let (d2, more) = run d1 events in (d2, calls ++ more)

-- The frames put on the air.
abbrev pub aired : List DriverCall → List Bytes
aired [] = []
aired (on_air frame ∷ calls) = frame ∷ aired calls
aired (radio_begin _ ∷ calls) = aired calls
aired (radio_end ∷ calls) = aired calls
aired (listen_for_frames _ ∷ calls) = aired calls
aired (put_perf_source_id _ ∷ calls) = aired calls
aired (note_repeater _ ∷ calls) = aired calls

pub aired-append : (xs ys : List DriverCall) → aired (xs ++ ys) ≡ aired xs ++ aired ys
aired-append [] ys = refl
aired-append (on_air frame ∷ xs) ys = ap (◌∷◌ frame) (aired-append xs ys)
aired-append (radio_begin _ ∷ xs) ys = aired-append xs ys
aired-append (radio_end ∷ xs) ys = aired-append xs ys
aired-append (listen_for_frames _ ∷ xs) ys = aired-append xs ys
aired-append (put_perf_source_id _ ∷ xs) ys = aired-append xs ys
aired-append (note_repeater _ ∷ xs) ys = aired-append xs ys

-- `d'` differs from `d` in the times of its last frames and in its queue of copies at most.
pub record SameStation (d d' : Broadcaster) : Type 0 where
  pub same_active : d'.active ≡ d.active
  pub same_state : d'.startup_state ≡ d.startup_state
  pub same_source : d'.source_id ≡ d.source_id
  pub same_gate : d'.last_airtime_send_ms ≡ d.last_airtime_send_ms

pub SameStation-refl : (d : Broadcaster) → SameStation d d
SameStation-refl d = record {
  same_active = refl;
  same_state = refl;
  same_source = refl;
  same_gate = refl;
}

pub SameStation-trans : (a b c : Broadcaster) → SameStation a b → SameStation b c → SameStation a c
SameStation-trans a b c f g = record {
  same_active = g.same_active ∙ f.same_active;
  same_state = g.same_state ∙ f.same_state;
  same_source = g.same_source ∙ f.same_source;
  same_gate = g.same_gate ∙ f.same_gate;
}

pub put_on_air-keeps :
    (reads : AirReads) (frame : Bytes) (d : Broadcaster)
    → SameStation d (put_on_air reads frame d).0
unfolding put_on_air
put_on_air-keeps reads frame d = elim (Option-cases reads.antenna) [
  | inl e ↦ rw e (SameStation-refl d)
  | inr (radio, e) ↦ rw e (elim (Bool-cases (radio.accepts frame)) [
    | inl a ↦
        rw a
          (record { same_active = refl; same_state = refl; same_source = refl; same_gate = refl })
    | inr a ↦ rw a (SameStation-refl d)
  ])
]

pub send_frame-keeps :
    (reads : AirReads) (frame : Bytes) (d : Broadcaster)
    → SameStation d (send_frame_bytes reads frame d).0
unfolding send_frame_bytes
send_frame-keeps reads frame d =
    let kept = put_on_air-keeps reads frame d in
    let copied = leb (length frame) retransmit_buf_size && ltb 1 d.retransmit_count in
    elim (Bool-cases (not d.active || length frame == 0)) [
      | inl off ↦ rw off (SameStation-refl d)
      | inr on ↦ elim (Bool-cases copied) [
        | inl c ↦
            rw (on, c)
              (record {
                same_active = kept.same_active;
                same_state = kept.same_state;
                same_source = kept.same_source;
                same_gate = kept.same_gate;
              })
        | inr c ↦
            rw (on, c)
              (record {
                same_active = kept.same_active;
                same_state = kept.same_state;
                same_source = kept.same_source;
                same_gate = kept.same_gate;
              })
      ]
    ]
