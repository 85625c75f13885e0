-- ===== src/Lume/Once.antt =====
-- src/modes/lume_mode.cpp: a frame that a Lume has rendered is not rendered again.
use nocturnation_stickc.Frame.Types.{ok}
use nocturnation_stickc.Repeater.{no_header}
use nocturnation_stickc.Frame.Wire.{decode_header}
use nocturnation_stickc.Lume.Receive.{
  receive, take_admitted, seen_before, refresh, mark, take_fresh,
}
use nocturnation_stickc.Tofu.{admit}
use nocturnation_stickc.Prelude.{
  ltb, if◌then◌else◌, later, length, ℕ, ◌+◌, ◌-◌, ◌≤◌, ◌≡◌, refl, sym, ap, subst, ◌∙◌, ◌≢◌, Bool,
  true, false, not, ◌&&◌, ◌||◌, List, [], ◌∷◌, arith,
}
use nocturnation_stickc.Frame.Types.{
  Bytes, Header, same_type, repeater_heartbeat, uid_announce, config_ack, config_write,
}
use nocturnation_stickc.Repeater.Types.{DedupEntry}
use nocturnation_stickc.Repeater.Dedup.{IsRing, in_window, same_entry_refl}
use nocturnation_stickc.Lume.Types.{LumeCall, Lume, max_hop_count, config_received}
use nocturnation_stickc.Lume.Ring.{
  seen_before-window, mark-IsRing, as_repeater, fresh_core, core_ring, receive_either,
}
use nocturnation_stickc.Lume.Window.{
  Remembers, run-Remembers, run-IsRing, enter-IsRing, hearings, window_wider,
}
use nocturnation_stickc.Lume.Ticking.{EnterReads, enter}
use nocturnation_stickc.Lume.Runs.{Event, run}

-- The frame of this header is one that the Lume renders and relays, if it is no duplicate: no telemetry, no
-- config frame, no more than three hops, and from the Director that the Lume is locked on, if it is.
abbrev pub takes : Header → ℕ → Lume → Bool
takes hdr now s =
    not (same_type hdr.message_type repeater_heartbeat)
    && not (same_type hdr.message_type uid_announce || same_type hdr.message_type config_ack)
    && not (same_type hdr.message_type config_write)
    && not (ltb max_hop_count hdr.hop_count)
    && (admit s.tofu hdr.message_type hdr.source_id s.listen_channel now).1

all_pass :
    (b1 b2 b3 b4 p : Bool) (x1 x2 x3 x4 x5 y : Lume × List LumeCall)
    → not b1 && not b2 && not b3 && not b4 && p ≡ true
    → (if b1
        then x1
        else if b2
        then x2
        else if b3
        then x3
        else if b4
        then x4
        else if not p
        then x5
        else y)
      ≡ y
all_pass false false false false true x1 x2 x3 x4 x5 y h = refl
all_pass true b2 b3 b4 p x1 x2 x3 x4 x5 y h = absurd (ground (arith, h))
all_pass false true b3 b4 p x1 x2 x3 x4 x5 y h = absurd (ground (arith, h))
all_pass false false true b4 p x1 x2 x3 x4 x5 y h = absurd (ground (arith, h))
all_pass false false false true p x1 x2 x3 x4 x5 y h = absurd (ground (arith, h))
all_pass false false false false false x1 x2 x3 x4 x5 y h = absurd (ground (arith, h))

-- The state in which an admitted frame is taken.
abbrev relocked : Header → ℕ → Lume → Lume
relocked hdr now s = record s {
  tofu = (admit s.tofu hdr.message_type hdr.source_id s.listen_channel now).0;
}

receive_taken :
    (frame : Bytes) (hdr : Header) (now : ℕ) (s : Lume)
    → decode_header frame (length frame) no_header ≡ (ok, hdr)
    → takes hdr now s ≡ true
    → receive frame now s ≡ take_admitted frame hdr now (relocked hdr now s)
unfolding receive
receive_taken frame hdr now s read h =
    let s1 = relocked hdr now s in
    rw read (
      all_pass (same_type hdr.message_type repeater_heartbeat)
        (same_type hdr.message_type uid_announce || same_type hdr.message_type config_ack)
        (same_type hdr.message_type config_write) (ltb max_hop_count hdr.hop_count)
        (admit s.tofu hdr.message_type hdr.source_id s.listen_channel now).1 (s, []) (s, [])
        (s, config_received frame ∷ []) (s, []) (s1, []) (take_admitted frame hdr now s1) h)

-- A frame taken for the first time is the entry marked last.
first-Remembers :
    (frame : Bytes) (hdr : Header) (now : ℕ) (s : Lume) (recents : List DedupEntry)
    → hdr.sequence_number ≢ 0
    → IsRing (as_repeater s) recents
    → seen_before s hdr.source_id hdr.sequence_number ≡ false
    → Remembers 1 (hdr.source_id, hdr.sequence_number) (take_admitted frame hdr now s).0
unfolding take_admitted refresh seen_before
first-Remembers frame hdr now s recents nz ring fresh =
    let x : DedupEntry = (hdr.source_id, hdr.sequence_number) in
    let alive = (refresh now hdr s).0 in
    let marked = mark hdr.source_id hdr.sequence_number alive in
    let core = fresh_core frame hdr alive in
    let ring1 = mark-IsRing alive hdr.source_id hdr.sequence_number recents nz ring in
    let ring2 =
      core_ring marked (take_fresh frame hdr alive).0 (x ∷ recents) core.same_ring core.same_head
        ring1 in
    let known : in_window 1 x (x ∷ recents) ≡ true = rw (same_entry_refl x) refl in
    rw fresh (x ∷ recents, ring2, known)

-- What a duplicate leaves as it is.
pub record IsIgnored (s : Lume) (r : Lume × List LumeCall) : Type 0 where
  pub no_calls : r.1 ≡ []
  pub same_light : r.0.pending_light ≡ s.pending_light
  pub same_repeat : r.0.pending_repeat ≡ s.pending_repeat
  pub same_frame : r.0.pending_repeat_frame ≡ s.pending_repeat_frame

IsIgnored-refl : (s : Lume) → IsIgnored s (s, [])
IsIgnored-refl s = record {
  no_calls = refl;
  same_light = refl;
  same_repeat = refl;
  same_frame = refl;
}

duplicate-IsIgnored :
    (frame : Bytes) (hdr : Header) (now : ℕ) (s : Lume)
    → s.fallback_active ≡ false
    → seen_before s hdr.source_id hdr.sequence_number ≡ true
    → IsIgnored s (take_admitted frame hdr now s)
unfolding take_admitted refresh seen_before
duplicate-IsIgnored frame hdr now s calm seen =
    rw seen
      (record { no_calls = rw calm refl; same_light = refl; same_repeat = refl; same_frame = refl })

received-IsIgnored :
    (frame : Bytes) (hdr : Header) (now : ℕ) (s : Lume)
    → decode_header frame (length frame) no_header ≡ (ok, hdr)
    → same_type hdr.message_type config_write ≡ false
    → s.fallback_active ≡ false
    → seen_before s hdr.source_id hdr.sequence_number ≡ true
    → IsIgnored s (receive frame now s)
unfolding seen_before
received-IsIgnored frame hdr now s read plain calm seen =
    let h = (decode_header frame (length frame) no_header).1 in
    let e : h ≡ hdr = ap (λ r. r.1) read in
    let lock = (admit s.tofu h.message_type h.source_id s.listen_channel now).0 in
    let s1 = record s { tofu = lock } in
    let seen_h : seen_before s1 h.source_id h.sequence_number ≡ true =
      subst (λ x. seen_before s1 x.source_id x.sequence_number ≡ true) (sym e) seen in
    let dup = duplicate-IsIgnored frame h now s1 calm seen_h in
    receive_either (IsIgnored s) frame now s (IsIgnored-refl s)
      (λ c.
        let c' : same_type hdr.message_type config_write ≡ true =
          subst (λ x. same_type x.message_type config_write ≡ true) e c in
        absurd (ground (arith, c', plain)))
      (record { no_calls = refl; same_light = refl; same_repeat = refl; same_frame = refl })
      (record {
        no_calls = dup.no_calls;
        same_light = dup.same_light;
        same_repeat = dup.same_repeat;
        same_frame = dup.same_frame;
      })

-- A Lume after the events of a session.
abbrev pub session : EnterReads → Lume → List Event → Lume
session reads s0 events = (run (enter reads s0) events).0

-- A Lume after a frame and further events.
abbrev pub behind : Bytes → ℕ → List Event → Lume → Lume
behind frame now events s = (run (receive frame now s).0 events).0

type_plain : (b1 b2 b3 b4 p : Bool) → not b1 && not b2 && not b3 && not b4 && p ≡ true → b3 ≡ false
type_plain b1 b2 false b4 p h = refl
type_plain false false true b4 p h = absurd (ground (arith, h))
type_plain true b2 true b4 p h = absurd (ground (arith, h))
type_plain false true true b4 p h = absurd (ground (arith, h))

-- A frame with a sequence number that a Lume, at any time after its entry, takes as no duplicate is ignored
-- whenever it is heard again after at most 15 other frames, however the loop has ticked in between and as
-- long as no fallback wash is on: it makes no call, and stages nothing for the next tick.
pub rendered_once :
    (reads : EnterReads) (s0 : Lume) (before between : List Event) (frame : Bytes) (hdr : Header)
    (now later : ℕ)
    → decode_header frame (length frame) no_header ≡ (ok, hdr)
    → hdr.sequence_number ≢ 0
    → takes hdr now (session reads s0 before) ≡ true
    → seen_before (session reads s0 before) hdr.source_id hdr.sequence_number ≡ false
    → hearings between ≤ 15
    → (behind frame now between (session reads s0 before)).fallback_active ≡ false
    → IsIgnored
        (behind frame now between (session reads s0 before))
        (receive frame later (behind frame now between (session reads s0 before)))
unfolding seen_before
rendered_once reads s0 before between frame hdr now later read nz taken fresh few calm =
    let x : DedupEntry = (hdr.source_id, hdr.sequence_number) in
    let s = (run (enter reads s0) before).0 in
    let s1 = (receive frame now s).0 in
    let s2 = (run s1 between).0 in
    let (recents, ring) = run-IsRing before (enter reads s0) [] (enter-IsRing reads s0) in
    let first = first-Remembers frame hdr now (relocked hdr now s) recents nz ring fresh in
    let at : Remembers 1 x s1 =
      subst (λ r. Remembers 1 x r.0) (sym (receive_taken frame hdr now s read taken)) first in
    let (recents2, ring2, known) = run-Remembers between 1 x s1 at in
    let k = hearings between + 1 in
    let wide = window_wider k (16 - k) x recents2 known in
    let full : 16 - k + k ≡ 16 = omega (arith, few) in
    let in_ring = subst (λ n. in_window n x recents2 ≡ true) full wide in
    let seen =
      seen_before-window s2 hdr.source_id hdr.sequence_number recents2 nz ring2 ∙ in_ring in
    let plain =
      type_plain (same_type hdr.message_type repeater_heartbeat)
        (same_type hdr.message_type uid_announce || same_type hdr.message_type config_ack)
        (same_type hdr.message_type config_write) (ltb max_hop_count hdr.hop_count)
        (admit s.tofu hdr.message_type hdr.source_id s.listen_channel now).1 taken in
    received-IsIgnored frame hdr later s2 read plain calm seen
