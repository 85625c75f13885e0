-- ===== src/Broadcaster/Airtime.antt =====
-- src/dal/drivers/espnow_broadcast_driver.cpp: the airtime cap over a run.
use nocturnation_stickc.Prelude.{
  Option-cases, elapsed, ℕ, ◌≤◌, ◌≡◌, refl, subst, ◌∙◌, ◌⊎◌, inl, inr, none, some, List, [], ◌∷◌,
}
use nocturnation_stickc.Broadcaster.Types.{Broadcaster, min_send_interval_ms}
use nocturnation_stickc.Broadcaster.Gate.{Gated, GatedAt, step-Gated, gate_time, held, let_through}
use nocturnation_stickc.Broadcaster.Steady.{idle-gate}
use nocturnation_stickc.Broadcaster.Runs.{Event, step}

-- With the last interval begun at `t`, each send of the events puts nothing on the air, or comes after
-- the interval and begins the next one.
unfoldable pub IsPaced : ℕ → Broadcaster → List Event → Type 0
IsPaced t d [] = Unit
IsPaced t d (e ∷ events) = elim (gate_time e) [
  | none ↦ IsPaced t (step e d).0 events
  | some now ↦
      (((step e d).1 ≡ []) × IsPaced t (step e d).0 events)
      ⊎ ((min_send_interval_ms ≤ elapsed now t) × IsPaced now (step e d).0 events)
]

IsPaced-from :
    (t : ℕ) (d : Broadcaster) (events : List Event)
    → d.last_airtime_send_ms ≡ t
    → IsPaced t d events
unfolding IsPaced
IsPaced-from t d [] gate = tt
IsPaced-from t d (e ∷ events) gate = elim (Option-cases (gate_time e)) [
  | inl none_at ↦
      rw (IsPaced, none_at) (IsPaced-from t (step e d).0 events (idle-gate e d none_at ∙ gate))
  | inr (now, some_at) ↦
      let way : Gated d now (step e d) = subst (GatedAt d (step e d)) some_at (step-Gated e d) in
      rw (IsPaced, some_at)
        (elim way [
          | held same quiet _ ↦
              inl (quiet, IsPaced-from t (step e d).0 events (same.same_gate ∙ gate))
          | let_through on gap same ↦ inr (
            subst (λ x. min_send_interval_ms ≤ elapsed now x) gate gap,
            IsPaced-from now (step e d).0 events same.same_gate,
          )
        ])
]

-- Through any sequence of sends, loop ticks and frames heard, each send either puts nothing on the air or
-- comes at least 50 ms (modulo 2^32) after the last send that the cap admitted, and is then the last.
pub sends-IsPaced :
    (d : Broadcaster) (events : List Event) → IsPaced d.last_airtime_send_ms d events
sends-IsPaced d events = IsPaced-from d.last_airtime_send_ms d events refl
