-- ===== src/Broadcaster/Listening.antt =====
-- src/dal/drivers/espnow_broadcast_driver.cpp: how the listening on channel 11 ends.
use nocturnation_stickc.Broadcaster.Ticks.{
  loop_tick, pick_performance_id, settle, listen_tick, is_listening,
}
use nocturnation_stickc.Prelude.{
  ltb, leb, ◌==◌, if◌then◌else◌, ltb→lt, Bool-cases, elapsed, ℕ, ◌+◌, ◌-◌, ◌%◌, ◌^◌, ◌≤◌, ◌<◌, ◌≡◌,
  refl, ap, subst, ◌∙◌, inl, inr, true, false, not, List, [], ◌∷◌, arith, ltb→le,
}
use nocturnation_stickc.Frame.Types.{Bytes, is_performance_range}
use nocturnation_stickc.Broadcaster.Gate.{Gated, held, let_through, admitted}
use nocturnation_stickc.Broadcaster.Runs.{Event, SameStation, ticked}
use nocturnation_stickc.Broadcaster.Types.{
  listening, settled, Broadcaster, DriverCall, TickReads, listen_window_ms, put_perf_source_id,
}
use nocturnation_stickc.Broadcaster.Startup.{on_recv, on_listen_recv}

-- The driver listens, in a window begun at `started`, with `left` attempts.
pub record IsListening (d : Broadcaster) (left started : ℕ) : Type 0 where
  pub silent : d.active ≡ false
  pub state : d.startup_state ≡ listening
  pub attempts : d.listen_attempts_remaining ≡ left
  pub window : d.listen_started_ms ≡ started
  pub candidate : is_performance_range d.listen_candidate ≡ true

-- The driver is on the air under a performance id.
pub record IsSettled (d : Broadcaster) : Type 0 where
  pub active : d.active ≡ true
  pub state : d.startup_state ≡ settled
  pub performance_id : is_performance_range d.source_id ≡ true

-- The windows that run out: the ticks at least a window's length after the start, or after the last
-- tick counted.
unfoldable pub windows : ℕ → List Event → ℕ
windows started [] = 0
windows started (ticked reads ∷ events) =
    if leb listen_window_ms (elapsed reads.listen_ms started)
    then windows reads.listen_ms events + 1
    else windows started events
windows started (_ ∷ events) = windows started events

picked_range : (random : ℕ) → is_performance_range (pick_performance_id random) ≡ true
unfolding is_performance_range pick_performance_id
picked_range random = ground arith

settle-IsSettled :
    (d : Broadcaster) → is_performance_range d.listen_candidate ≡ true → IsSettled (settle d)
settle-IsSettled d h = record { active = refl; state = refl; performance_id = h }

-- What a tick leaves of a listening driver.
pub data Listened (left started now : ℕ) (r : Broadcaster × List DriverCall) : Type 0 where
  early :
      elapsed now started < listen_window_ms
      → IsListening r.0 left started
      → r.1 ≡ []
      → Listened left started now r
  ended :
      listen_window_ms ≤ elapsed now started
      → IsSettled r.0
      → r.1 ≡ []
      → Listened left started now r
  rolled :
      listen_window_ms ≤ elapsed now started
      → 2 ≤ left
      → IsListening r.0 (left - 1) now
      → r.1 ≡ put_perf_source_id r.0.listen_candidate ∷ []
      → Listened left started now r

pub tick-Listened :
    (reads : TickReads) (d : Broadcaster) (left started : ℕ)
    → IsListening d left started
    → 1 ≤ left
    → left < 256
    → Listened left started reads.listen_ms (loop_tick reads d)
unfolding loop_tick listen_tick
tick-Listened reads d left started w some_left byte_left =
    let now = reads.listen_ms in
    let id = pick_performance_id reads.random in
    let on : is_listening d.startup_state ≡ true = rw w.state refl in
    let left' = (d.listen_attempts_remaining + 255) % 2 ^ 8 in
    elim (Bool-cases (ltb (elapsed now d.listen_started_ms) listen_window_ms)) [
      | inl short ↦
          rw (on, short)
            (early
              (subst (λ t. elapsed now t < listen_window_ms) w.window
                (ltb→lt (elapsed now d.listen_started_ms) listen_window_ms short))
              w refl)
      | inr long ↦
          let due : listen_window_ms ≤ elapsed now started =
            subst (λ t. listen_window_ms ≤ elapsed now t) w.window
              (ltb→le (elapsed now d.listen_started_ms) listen_window_ms long) in
          elim (Bool-cases (not d.listen_collision_heard)) [
            | inl quiet ↦ rw (on, long, quiet) (ended due (settle-IsSettled d w.candidate) refl)
            | inr taken ↦ elim (Bool-cases (left' == 0)) [
              | inl last ↦
                  rw (on, long, taken, last)
                    (ended due
                      (settle-IsSettled (record d { listen_attempts_remaining = left' })
                        w.candidate)
                      refl)
              | inr more ↦
                  let e : left' ≡ left - 1 = omega (arith, w.attempts, some_left, byte_left) in
                  rw (on, long, taken, more)
                    (rolled due (ground (arith, e, more, some_left))
                      (record {
                        silent = w.silent;
                        state = w.state;
                        attempts = e;
                        window = refl;
                        candidate = picked_range reads.random;
                      })
                      refl)
            ]
          ]
    ]

pub recv-IsListening :
    (frame : Bytes) (now : ℕ) (d : Broadcaster) (left started : ℕ)
    → IsListening d left started
    → IsListening (on_recv frame now d).0 left started
unfolding on_recv on_listen_recv
recv-IsListening frame now d left started w = record {
  silent = ground (arith, w.silent);
  state = ground (arith, w.state);
  attempts = ground (arith, w.attempts);
  window = ground (arith, w.window);
  candidate = ground (arith, w.candidate);
}

pub recv-IsSettled :
    (frame : Bytes) (now : ℕ) (d : Broadcaster) → IsSettled d → IsSettled (on_recv frame now d).0
unfolding on_recv on_listen_recv
recv-IsSettled frame now d w = record {
  active = ground (arith, w.active);
  state = ground (arith, w.state);
  performance_id = ground (arith, w.performance_id);
}

pub station-IsSettled : (d d' : Broadcaster) → SameStation d d' → IsSettled d → IsSettled d'
station-IsSettled d d' same w = record {
  active = same.same_active ∙ w.active;
  state = same.same_state ∙ w.state;
  performance_id = ap is_performance_range same.same_source ∙ w.performance_id;
}

pub gated-IsSettled :
    (d : Broadcaster) (now : ℕ) (r : Broadcaster × List DriverCall)
    → Gated d now r
    → IsSettled d
    → IsSettled r.0
gated-IsSettled d now r (held same _ _) w = station-IsSettled d r.0 same w
gated-IsSettled d now r (let_through _ _ same) w =
    station-IsSettled (admitted now d) r.0 same
      (record { active = w.active; state = w.state; performance_id = w.performance_id })
