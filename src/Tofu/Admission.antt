-- ===== src/Tofu/Admission.antt =====
-- tofu_lock.cpp: one call of `admit` or `tick`.
use nocturnation_stickc.Prelude.{ℕ, ◌+◌, ◌≤◌, ◌≡◌, ◌≢◌, ◌↔◌, ◌⊎◌, true, false, arith, ◌<◌}
use nocturnation_stickc.Frame.Types.{
  MessageType, broadcast_source_id, source_id_performance_min, is_performance_range,
  source_id_performance_max,
}
use nocturnation_stickc.Tofu.{TofuLock, admit, tick, default_timeout_ms, unlocked}

-- A source id that may be locked on `channel`: never the broadcast id, and on channel 11 a
-- Performance-range id.
abbrev pub Eligible : ℕ → ℕ → Type 0
Eligible source_id channel =
    (source_id ≢ broadcast_source_id)
    × ((channel ≢ 11)
        ⊎ ((source_id_performance_min ≤ source_id) × (source_id ≤ source_id_performance_max)))

-- `admit` lets a frame pass exactly if its source is eligible on the channel, and is the locked one if
-- there is a lock. The message type plays no part, so broadcast frames of the display family are
-- dropped like all others.
pub admit_iff :
    (l : TofuLock) (t : MessageType) (source_id channel now : ℕ)
    → ((admit l t source_id channel now).1 ≡ true)
      ↔ (Eligible source_id channel × ((l.has_lock ≡ false) ⊎ (source_id ≡ l.locked_id)))
unfolding admit is_performance_range
admit_iff l t source_id channel now = ground arith

-- A frame that passes leaves the lock held by its source with the time of the frame; one that does not
-- leaves the lock as it was.
pub admit_effect :
    (l : TofuLock) (t : MessageType) (source_id channel now : ℕ)
    → ((admit l t source_id channel now)
        ≡ (record { has_lock = true; locked_id = source_id; last_frame_ms = now }, true))
      ⊎ (admit l t source_id channel now ≡ (l, false))
unfolding admit is_performance_range
admit_effect l t source_id channel now = ground arith

-- `tick` on a held lock whose last frame is ten seconds old or older clears it and reports so, and the
-- next `tick`, at whatever time, reports nothing; in every other state it changes and reports nothing.
pub tick_expires :
    (l : TofuLock) (now later : ℕ)
    → ((l.has_lock ≡ true)
        × (l.last_frame_ms + default_timeout_ms ≤ now)
        × (tick l now ≡ (unlocked, true))
        × (tick (tick l now).0 later ≡ (unlocked, false)))
      ⊎ (((l.has_lock ≡ false) ⊎ (now < l.last_frame_ms + default_timeout_ms))
          × (tick l now ≡ (l, false)))
unfolding tick
tick_expires l now later = ground arith
