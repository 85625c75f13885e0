-- ===== src/Lume/Window.antt =====
-- src/modes/lume_mode.cpp: a frame is rendered once.
use nocturnation_stickc.Repeater.{same_entry}
use nocturnation_stickc.Lume.Receive.{receive}
use nocturnation_stickc.Prelude.{
  Bool-cases, get_or-replicate, ℕ, zero, suc, ◌+◌, ◌≡◌, refl, sym, subst, inl, inr, true, ◌||◌,
  List, [], ◌∷◌, arith,
}
use nocturnation_stickc.Frame.Types.{Bytes}
use nocturnation_stickc.Repeater.Types.{DedupEntry}
use nocturnation_stickc.Repeater.Dedup.{IsRing, in_window, slot}
use nocturnation_stickc.Lume.Types.{Lume}
use nocturnation_stickc.Lume.Ring.{receive-Grows, as_repeater, tick-IsRing}
use nocturnation_stickc.Lume.Ticking.{EnterReads, enter, loop_tick}
use nocturnation_stickc.Lume.Runs.{Event, run, heard, step, ticked}

-- The frames heard among the events.
abbrev pub hearings : List Event → ℕ
hearings [] = 0
hearings (heard _ _ ∷ events) = suc (hearings events)
hearings (ticked _ _ ∷ events) = hearings events

-- `x` is among the `k` entries marked last.
abbrev pub Remembers : ℕ → DedupEntry → Lume → Type 0
Remembers k x s =
    (recents : List DedupEntry) × IsRing (as_repeater s) recents × (in_window k x recents ≡ true)

window_grows :
    (k : ℕ) (x : DedupEntry) (es : List DedupEntry)
    → in_window k x es ≡ true
    → in_window (suc k) x es ≡ true
window_grows zero x es h = absurd (ground (arith, h))
window_grows (suc k) x [] h = absurd (ground (arith, h))
window_grows (suc k) x (e ∷ es) h = elim (Bool-cases (same_entry e x)) [
  | inl same ↦ rw same refl
  | inr other ↦ rw other (window_grows k x es (subst (λ b. b || in_window k x es ≡ true) other h))
]

pub window_wider :
    (k n : ℕ) (x : DedupEntry) (es : List DedupEntry)
    → in_window k x es ≡ true
    → in_window (n + k) x es ≡ true
window_wider k zero x es h = let e : 0 + k ≡ k = omega arith in rw e h
window_wider k (suc n) x es h =
    let e : suc n + k ≡ suc (n + k) = omega arith in
    rw e (window_grows (n + k) x es (window_wider k n x es h))

heard-Remembers :
    (frame : Bytes) (now k : ℕ) (x : DedupEntry) (s : Lume)
    → Remembers k x s
    → Remembers (suc k) x (receive frame now s).0
heard-Remembers frame now k x s (recents, ring, known) =
    let (more, ring', grown) = receive-Grows frame now s recents ring in
    let seen : in_window (suc k) x more ≡ true = elim grown [
      | inl same ↦
          subst (λ es. in_window (suc k) x es ≡ true) (sym same) (window_grows k x recents known)
      | inr (y, longer) ↦ subst (λ es. in_window (suc k) x es ≡ true) (sym longer) (later_known y)
    ] in
    (more, ring', seen)
  where
    later_known : (y : DedupEntry) → in_window (suc k) x (y ∷ recents) ≡ true
    later_known y = ground (arith, known)

pub run-Remembers :
    (events : List Event) (k : ℕ) (x : DedupEntry) (s : Lume)
    → Remembers k x s
    → Remembers (hearings events + k) x (run s events).0
unfolding run step
run-Remembers [] k x s r = let e : 0 + k ≡ k = omega arith in subst (λ n. Remembers n x s) (sym e) r
run-Remembers (heard frame now ∷ events) k x s r =
    let s1 = (receive frame now s).0 in
    let e : hearings events + suc k ≡ suc (hearings events) + k = omega arith in
    subst (λ n. Remembers n x (run s1 events).0) e
      (run-Remembers events (suc k) x s1 (heard-Remembers frame now k x s r))
run-Remembers (ticked antenna now ∷ events) k x s (recents, ring, known) =
    run-Remembers events k x (loop_tick antenna now s).0
      (recents, tick-IsRing antenna now s recents ring, known)

-- The ring is one, whatever has happened since the entry.
pub run-IsRing :
    (events : List Event) (s : Lume) (recents : List DedupEntry)
    → IsRing (as_repeater s) recents
    → (more : List DedupEntry) × IsRing (as_repeater (run s events).0) more
unfolding run step
run-IsRing [] s recents ring = (recents, ring)
run-IsRing (heard frame now ∷ events) s recents ring =
    let (more, ring', _) = receive-Grows frame now s recents ring in
    run-IsRing events (receive frame now s).0 more ring'
run-IsRing (ticked antenna now ∷ events) s recents ring =
    run-IsRing events (loop_tick antenna now s).0 recents (tick-IsRing antenna now s recents ring)

pub enter-IsRing : (reads : EnterReads) (s : Lume) → IsRing (as_repeater (enter reads s)) []
unfolding enter
enter-IsRing reads s = record {
  ring_size = refl;
  head_range = omega arith;
  ring_slots = λ j h. get_or-replicate 16 (0, 0) (slot 0 j);
}
