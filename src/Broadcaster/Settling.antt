-- ===== src/Broadcaster/Settling.antt =====
-- src/dal/drivers/espnow_broadcast_driver.cpp: a start on channel 11 ends on the air.
use nocturnation_stickc.Broadcaster.Ticks.{loop_tick, is_listening, is_idle}
use nocturnation_stickc.Broadcaster.Startup.{
  feed_census, on_recv, start_broadcast, start_listening, reset_for_start,
}
use nocturnation_stickc.Prelude.{
  Option-cases, ℕ, ◌≡◌, ap, subst, inl, inr, false, none, List, [], ◌∷◌, arith, ◌≤◌, ◌<◌, refl, sym,
  ap₂, ◌∙◌, ◌++◌, leb, elapsed, ◌+◌, ◌-◌, true, not, ◌||◌, some,
}
use nocturnation_stickc.Frame.Types.{Bytes, is_performance_range}
use nocturnation_stickc.Broadcaster.Listening.{
  IsSettled, recv-IsSettled, gated-IsSettled, IsListening, recv-IsListening, windows, tick-Listened,
  station-IsSettled, early, ended, rolled,
}
use nocturnation_stickc.Broadcaster.Types.{
  Broadcaster, DriverCall, RadioAnswers, TickReads, StartReads, listen_window_ms, idle,
  listen_max_attempts,
}
use nocturnation_stickc.Broadcaster.Gate.{Gated, GatedAt, step-Gated, held, gate_time, let_through}
use nocturnation_stickc.Broadcaster.Steady.{tick-SameStation}
use nocturnation_stickc.Broadcaster.Runs.{
  Event, step, run, heard, ticked, pulsed, washed, wash_ended, wash_pulsed, passed, aired-append,
  aired,
}

free_step-IsSettled :
    (e : Event) (d : Broadcaster) → gate_time e ≡ none → IsSettled d → IsSettled (step e d).0
unfolding step
free_step-IsSettled (heard frame now) d h w = recv-IsSettled frame now d w
free_step-IsSettled (ticked reads) d h w =
    station-IsSettled d (loop_tick reads d).0 (tick-SameStation reads d (ap is_listening w.state)) w
free_step-IsSettled (pulsed _ _ _ reads) d h w = absurd (ground (arith, h))
free_step-IsSettled (washed _ _ _ reads) d h w = absurd (ground (arith, h))
free_step-IsSettled (wash_ended _ _ _ reads) d h w = absurd (ground (arith, h))
free_step-IsSettled (wash_pulsed _ _ _ reads) d h w = absurd (ground (arith, h))
free_step-IsSettled (passed _ reads) d h w = absurd (ground (arith, h))

step-IsSettled : (e : Event) (d : Broadcaster) → IsSettled d → IsSettled (step e d).0
step-IsSettled e d w = elim (Option-cases (gate_time e)) [
  | inl none_at ↦ free_step-IsSettled e d none_at w
  | inr (now, some_at) ↦
      gated-IsSettled d now (step e d) (subst (GatedAt d (step e d)) some_at (step-Gated e d)) w
]

run-IsSettled : (events : List Event) (d : Broadcaster) → IsSettled d → IsSettled (run d events).0
unfolding run
run-IsSettled [] d w = w
run-IsSettled (e ∷ events) d w = run-IsSettled events (step e d).0 (step-IsSettled e d w)

gated_silent :
    (d : Broadcaster) (now : ℕ) (r : Broadcaster × List DriverCall)
    → Gated d now r
    → d.active ≡ false
    → (r.0 ≡ d) × (r.1 ≡ [])
gated_silent d now r (held _ quiet still) off = (still off, quiet)
gated_silent d now r (let_through on _ _) off = absurd (ground (arith, on, off))

recv_silent : (frame : Bytes) (now : ℕ) (d : Broadcaster) → aired (on_recv frame now d).1 ≡ []
unfolding on_recv feed_census
recv_silent frame now d = ground arith

-- From a listening driver on: it settles if its windows run out, and is silent until one does.
abbrev Course : ℕ → ℕ → List Event → Broadcaster × List DriverCall → Type 0
Course left started events r =
    (left ≤ windows started events → IsSettled r.0) × (windows started events ≡ 0 → aired r.1 ≡ [])

-- A step that puts nothing on the air goes before a course.
silent_step :
    (left started : ℕ) (e : Event) (events : List Event) (d : Broadcaster)
    → windows started (e ∷ events) ≡ windows started events
    → aired (step e d).1 ≡ []
    → Course left started events (run (step e d).0 events)
    → Course left started (e ∷ events) (run d (e ∷ events))
unfolding run
silent_step left started e events d same quiet (ends, hush) = (
  λ h. ends (omega (arith, h, same)),
  λ h.
      aired-append (step e d).1 (run (step e d).0 events).1
      ∙ ap₂ ◌++◌ quiet (hush (omega (arith, h, same))),
)

send_step :
    (left started now : ℕ) (e : Event) (events : List Event) (d : Broadcaster)
    → IsListening d left started
    → windows started (e ∷ events) ≡ windows started events
    → Gated d now (step e d)
    → Course left started events (run d events)
    → Course left started (e ∷ events) (run d (e ∷ events))
send_step left started now e events d w same gate course =
    let (still, quiet) = gated_silent d now (step e d) gate w.silent in
    silent_step left started e events d same (ap aired quiet)
      (subst (λ x. Course left started events (run x events)) (sym still) course)

window_open :
    (reads : TickReads) (started : ℕ) (events : List Event)
    → elapsed reads.listen_ms started < listen_window_ms
    → windows started (ticked reads ∷ events) ≡ windows started events
unfolding windows
window_open reads started events h =
    let shut : leb listen_window_ms (elapsed reads.listen_ms started) ≡ false = ground (arith, h) in
    rw shut refl

window_over :
    (reads : TickReads) (started : ℕ) (events : List Event)
    → listen_window_ms ≤ elapsed reads.listen_ms started
    → windows started (ticked reads ∷ events) ≡ windows reads.listen_ms events + 1
unfolding windows
window_over reads started events h =
    let over : leb listen_window_ms (elapsed reads.listen_ms started) ≡ true = ground (arith, h) in
    rw over refl

run-Course :
    (events : List Event) (d : Broadcaster) (left started : ℕ)
    → IsListening d left started
    → 1 ≤ left
    → left < 256
    → Course left started events (run d events)
unfolding run windows step
run-Course [] d left started w lo hi = (λ h. absurd (omega (arith, h, lo)), λ h. refl)
run-Course (heard frame now ∷ events) d left started w lo hi =
    silent_step left started (heard frame now) events d refl (recv_silent frame now d) (
      run-Course events (on_recv frame now d).0 left started
        (recv-IsListening frame now d left started w) lo hi)
run-Course (ticked reads ∷ events) d left started w lo hi =
    let r = loop_tick reads d in
    elim (tick-Listened reads d left started w lo hi) [
      | early short still quiet ↦
          silent_step left started (ticked reads) events d (window_open reads started events short)
            (ap aired quiet) (run-Course events r.0 left started still lo hi)
      | ended due done _ ↦ (
        λ _. run-IsSettled events r.0 done,
        λ h. absurd (omega (arith, window_over reads started events due, h)),
      )
      | rolled due more on _ ↦
          let one_more = window_over reads started events due in
          let rest =
            run-Course events r.0 (left - 1) reads.listen_ms on (omega (arith, more))
              (omega (arith, hi)) in
          (λ h. rest.0 (omega (arith, h, one_more)), λ h. absurd (omega (arith, one_more, h)))
    ]
run-Course (pulsed c g ev reads ∷ events) d left started w lo hi =
    let e = pulsed c g ev reads in
    send_step left started reads.gate_ms e events d w refl (step-Gated e d)
      (run-Course events d left started w lo hi)
run-Course (washed c g ev reads ∷ events) d left started w lo hi =
    let e = washed c g ev reads in
    send_step left started reads.gate_ms e events d w refl (step-Gated e d)
      (run-Course events d left started w lo hi)
run-Course (wash_ended c g t reads ∷ events) d left started w lo hi =
    let e = wash_ended c g t reads in
    send_step left started reads.gate_ms e events d w refl (step-Gated e d)
      (run-Course events d left started w lo hi)
run-Course (wash_pulsed c g ev reads ∷ events) d left started w lo hi =
    let e = wash_pulsed c g ev reads in
    send_step left started reads.gate_ms e events d w refl (step-Gated e d)
      (run-Course events d left started w lo hi)
run-Course (passed frame reads ∷ events) d left started w lo hi =
    let e = passed frame reads in
    send_step left started reads.gate_ms e events d w refl (step-Gated e d)
      (run-Course events d left started w lo hi)

start-IsListening :
    (reads : StartReads) (radio : RadioAnswers) (d : Broadcaster)
    → reads.antenna ≡ some radio
    → d.active ≡ false
    → d.startup_state ≡ idle
    → radio.begins 11 ≡ true
    → is_performance_range reads.director_perf_source_id ≡ true
    → IsListening (start_broadcast 11 reads d).after listen_max_attempts reads.start_ms
unfolding start_broadcast start_listening reset_for_start
start-IsListening reads radio d up off rest begins range =
    let free : d.active || not (is_idle d.startup_state) ≡ false = rw (off, rest) refl in
    rw (free, up, begins)
      (record { silent = off; state = refl; attempts = refl; window = refl; candidate = range })

-- A start on channel 11 that the radio accepts, with a performance id in flash, settles on the air under a
-- performance id once three listening windows have run out, whatever is heard and picked in them.
pub listening_settles :
    (reads : StartReads) (radio : RadioAnswers) (d : Broadcaster) (events : List Event)
    → reads.antenna ≡ some radio
    → d.active ≡ false
    → d.startup_state ≡ idle
    → radio.begins 11 ≡ true
    → is_performance_range reads.director_perf_source_id ≡ true
    → listen_max_attempts ≤ windows reads.start_ms events
    → IsSettled (run (start_broadcast 11 reads d).after events).0
listening_settles reads radio d events up off rest begins range over =
    let d1 = (start_broadcast 11 reads d).after in
    let w = start-IsListening reads radio d up off rest begins range in
    (run-Course events d1 listen_max_attempts reads.start_ms w (omega arith) (omega arith)).0 over

-- After such a start nothing is put on the air until a listening window has run out, however often the
-- driver is asked to send.
pub listening_silent :
    (reads : StartReads) (radio : RadioAnswers) (d : Broadcaster) (events : List Event)
    → reads.antenna ≡ some radio
    → d.active ≡ false
    → d.startup_state ≡ idle
    → radio.begins 11 ≡ true
    → is_performance_range reads.director_perf_source_id ≡ true
    → windows reads.start_ms events ≡ 0
    → aired (run (start_broadcast 11 reads d).after events).1 ≡ []
listening_silent reads radio d events up off rest begins range none_over =
    let d1 = (start_broadcast 11 reads d).after in
    let w = start-IsListening reads radio d up off rest begins range in
    (run-Course events d1 listen_max_attempts reads.start_ms w (omega arith) (omega arith)).1
      none_over
