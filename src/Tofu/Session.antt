-- ===== src/Tofu/Session.antt =====
-- tofu_lock.cpp: a history of frames, ticks and rescans.
use nocturnation_stickc.Tofu.Admission.{admit_effect, admit_iff, tick_expires}
use nocturnation_stickc.Prelude.{
  if◌then◌else◌, Bool-cases, ℕ, ◌≡◌, ap, ◌≢◌, ◌⊎◌, inl, inr, Bool, true, false, Option, none, some,
  List, [], ◌∷◌, arith,
}
use nocturnation_stickc.Frame.Types.{MessageType, broadcast_source_id}
use nocturnation_stickc.Tofu.{TofuLock, admit, tick, clear, unlocked}

-- What the Lume does with its lock: `clear` is the operator's rescan or a change of channel.
pub data Event : Type 0 where
  frame : MessageType → ℕ → ℕ → ℕ → Event
  timer : ℕ → Event
  rescan : Event

pub data Outcome : Type 0 where
  rendered : ℕ → Outcome
  dropped kept released : Outcome

abbrev pub framed : ℕ → TofuLock × Bool → TofuLock × Outcome
framed s (l, true) = (l, rendered s)
framed s (l, false) = (l, dropped)

abbrev pub timed : TofuLock × Bool → TofuLock × Outcome
timed (l, true) = (l, released)
timed (l, false) = (l, kept)

unfoldable pub step : TofuLock → Event → TofuLock × Outcome
step l (frame t s ch now) = framed s (admit l t s ch now)
step l (timer now) = timed (tick l now)
step l rescan = (clear l, released)

unfoldable pub trace : TofuLock → List Event → List Outcome
trace l [] = []
trace l (e ∷ es) = (step l e).1 ∷ trace (step l e).0 es

-- One Director at a time: from a frame that is rendered until the next release every rendered frame
-- comes from the same source, which is no broadcast.
pub data OneDirector : Option ℕ → List Outcome → Type 0 where
  done : {held : Option ℕ} → OneDirector held []
  first :
      {s : ℕ} {os : List Outcome}
      → s ≢ broadcast_source_id
      → OneDirector (some s) os
      → OneDirector none (rendered s ∷ os)
  same :
      {s : ℕ} {os : List Outcome} → OneDirector (some s) os → OneDirector (some s) (rendered s ∷ os)
  drop_frame :
      {held : Option ℕ} {os : List Outcome} → OneDirector held os → OneDirector held (dropped ∷ os)
  keep_lock :
      {held : Option ℕ} {os : List Outcome} → OneDirector held os → OneDirector held (kept ∷ os)
  free :
      {held : Option ℕ} {os : List Outcome} → OneDirector none os → OneDirector held (released ∷ os)

-- The source that holds the lock.
abbrev pub holder : TofuLock → Option ℕ
holder l = if l.has_lock then some l.locked_id else none

rendered_case :
    (l : TofuLock) (s : ℕ) (os : List Outcome)
    → s ≢ broadcast_source_id
    → (l.has_lock ≡ false) ⊎ (s ≡ l.locked_id)
    → OneDirector (some s) os
    → OneDirector (holder l) (rendered s ∷ os)
rendered_case l s os real source rest = elim (Bool-cases l.has_lock) [
  | inr free_lock ↦ rw free_lock (first real rest)
  | inl held ↦ let e : l.locked_id ≡ s = ground (arith, held, source) in rw (held, e) (same rest)
]

-- Through any history of frames, ticks and rescans, on whatever channels and at whatever times, a Lume
-- renders one Director at a time.
pub trace-OneDirector : (l : TofuLock) (es : List Event) → OneDirector (holder l) (trace l es)
unfolding trace step
trace-OneDirector l [] = done
trace-OneDirector l (frame t s ch now ∷ es) = elim (admit_effect l t s ch now) [
  | inl e ↦
      let (fit, source) = (admit_iff l t s ch now).0 (ap (λ r. r.1) e) in
      rw e (
        rendered_case l s _ fit.0 source
          (trace-OneDirector (record { has_lock = true; locked_id = s; last_frame_ms = now }) es))
  | inr e ↦ rw e (drop_frame (trace-OneDirector l es))
]
trace-OneDirector l (timer now ∷ es) = elim (tick_expires l now 0) [
  | inl (_, _, e, _) ↦ rw e (free (trace-OneDirector unlocked es))
  | inr (_, e) ↦ rw e (keep_lock (trace-OneDirector l es))
]
trace-OneDirector l (rescan ∷ es) = free (trace-OneDirector unlocked es)
