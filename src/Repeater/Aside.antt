-- ===== src/Repeater/Aside.antt =====
-- modes/repeater_mode.cpp: `loop_tick` and the contract.
use nocturnation_stickc.Frame.Wire.{write_header, write_u16_le, write_u32_le}
use nocturnation_stickc.Frame.Status.{encode_repeater_heartbeat}
use nocturnation_stickc.Repeater.{
  start_radio, poll_button, service_scan, census_frame, emit_census, flush_relay, loop_tick,
  apply_channel_setting,
}
use nocturnation_stickc.Prelude.{
  ltb, ◌==◌, if◌then◌else◌, Bool-cases, elapsed, length, take, ℕ, ◌≡◌, refl, ap, ap₂, ◌∙◌, inl, inr,
  false, not, ◌&&◌, Option, none, some, List, [], ◌∷◌, ◌++◌, arith,
}
use nocturnation_stickc.Frame.Types.{Bytes}
use nocturnation_stickc.Repeater.Contract.{
  Refines, broadcasts-append, broadcasts, sent_on, own_census, at_census,
}
use nocturnation_stickc.Frame.Wire.Transfer.{sent}
use nocturnation_stickc.Repeater.Types.{
  DedupEntry, RepeaterMode, RepeaterCall, Radio, TickInput, send_broadcast, census_interval_ms,
}

-- A step that leaves the relaying alone and broadcasts these frames.
pub record IsAside (s : RepeaterMode) (r : RepeaterMode × List RepeaterCall) (frames : List Bytes)
    : Type 0 where
  pub ring_kept : r.0.dedup_ring ≡ s.dedup_ring
  pub head_kept : r.0.dedup_head ≡ s.dedup_head
  pub pending_kept : r.0.pending_repeat ≡ s.pending_repeat
  pub frame_kept : r.0.pending_repeat_frame ≡ s.pending_repeat_frame
  pub sends : broadcasts r.1 ≡ frames

pub start_radio-IsAside :
    (radio : Radio) (channel : ℕ) (s : RepeaterMode) → IsAside s (start_radio radio channel s) []
unfolding start_radio
start_radio-IsAside none channel s = record {
  ring_kept = refl;
  head_kept = refl;
  pending_kept = refl;
  frame_kept = refl;
  sends = refl;
}
start_radio-IsAside (some radio) channel s = record {
  ring_kept = refl;
  head_kept = refl;
  pending_kept = refl;
  frame_kept = refl;
  sends = refl;
}

pub poll_button-IsAside :
    (input : TickInput) (s : RepeaterMode) → IsAside s (poll_button input s) []
unfolding poll_button apply_channel_setting start_radio
poll_button-IsAside input s = ground arith

pub service_scan-IsAside :
    (radio : Radio) (now : ℕ) (s : RepeaterMode) → IsAside s (service_scan radio now s) []
unfolding service_scan start_radio
service_scan-IsAside radio now s = ground arith

-- The census that is built is never empty, and the time that it stamps is none of its fields.
census_frame-sent :
    (now : ℕ) (s : RepeaterMode)
    → let (n, frame) = census_frame now (record s { last_census_ms = now }) in
      broadcasts (if ltb 0 n then send_broadcast (take n frame) ∷ [] else [])
      ≡ sent (census_frame now s) ∷ []
unfolding census_frame encode_repeater_heartbeat write_header write_u16_le write_u32_le
census_frame-sent now s = refl

pub emit_census-IsAside :
    (radio : Radio) (now : ℕ) (s : RepeaterMode)
    → IsAside s (emit_census radio now s) (own_census radio now s)
unfolding emit_census own_census
emit_census-IsAside none now s = ground arith
emit_census-IsAside (some radio) now s =
    let stamped = record s { last_census_ms = now } in
    let aside : (calls : List RepeaterCall) → IsAside s (stamped, calls) (broadcasts calls) =
      λ calls. record {
        ring_kept = refl;
        head_kept = refl;
        pending_kept = refl;
        frame_kept = refl;
        sends = refl;
      } in
    elim (Bool-cases (ltb (elapsed now s.last_census_ms) census_interval_ms)) [
      | inl early ↦ rw early (ground arith)
      | inr due ↦ elim (Bool-cases (not s.radio_up)) [
        | inl down ↦ rw (due, down) (aside [])
        | inr up ↦ elim (Bool-cases (s.channel_setting == 0 && not s.locked)) [
          | inl scanning ↦ rw (due, up, scanning) (aside [])
          | inr online ↦
              rw (due, up, online)
                (record {
                  ring_kept = refl;
                  head_kept = refl;
                  pending_kept = refl;
                  frame_kept = refl;
                  sends = census_frame-sent now s;
                })
        ]
      ]
    ]

IsAside-trans :
    (s : RepeaterMode) (r1 r2 : RepeaterMode × List RepeaterCall) (frames1 frames2 : List Bytes)
    → IsAside s r1 frames1
    → IsAside r1.0 r2 frames2
    → IsAside s (r2.0, r1.1 ++ r2.1) (frames1 ++ frames2)
IsAside-trans s r1 r2 frames1 frames2 a b = record {
  ring_kept = b.ring_kept ∙ a.ring_kept;
  head_kept = b.head_kept ∙ a.head_kept;
  pending_kept = b.pending_kept ∙ a.pending_kept;
  frame_kept = b.frame_kept ∙ a.frame_kept;
  sends = broadcasts-append r1.1 r2.1 ∙ ap₂ ◌++◌ a.sends b.sends;
}

-- What `loop_tick` does after the flush.
pub rest-IsAside :
    (input : TickInput) (s : RepeaterMode)
    → let (s2, buttons) = poll_button input s in
      let (s3, scans) = service_scan input.radio input.now_ms s2 in
      let (s4, beacons) = emit_census input.radio input.now_ms s3 in
      IsAside s (s4, buttons ++ (scans ++ beacons)) (own_census input.radio input.now_ms s3)
rest-IsAside input s =
    let r2 = poll_button input s in
    let r3 = service_scan input.radio input.now_ms r2.0 in
    let r4 = emit_census input.radio input.now_ms r3.0 in
    let frames = own_census input.radio input.now_ms r3.0 in
    IsAside-trans s r2 (r4.0, r3.1 ++ r4.1) [] frames (poll_button-IsAside input s)
      (IsAside-trans r2.0 r3 r4 [] frames (service_scan-IsAside input.radio input.now_ms r2.0)
        (emit_census-IsAside input.radio input.now_ms r3.0))

pub Refines-aside :
    (s : RepeaterMode) (r : RepeaterMode × List RepeaterCall) (frames : List Bytes)
    (recents : List DedupEntry) (staged : Option Bytes)
    → IsAside s r frames
    → Refines s recents staged
    → Refines r.0 recents staged
Refines-aside s r frames recents staged a f = record {
  ring = record {
    ring_size = ap length a.ring_kept ∙ f.ring.ring_size;
    head_range = omega (arith, a.head_kept, f.ring.head_range);
    ring_slots = λ j h. rw (a.ring_kept, a.head_kept) (f.ring.ring_slots j h);
  };
  same_staged = rw (a.pending_kept, a.frame_kept) f.same_staged;
}

pub flush_keeps :
    (radio : Radio) (now : ℕ) (s : RepeaterMode)
    → let r = flush_relay radio now s in
      (r.0.dedup_ring ≡ s.dedup_ring)
      × (r.0.dedup_head ≡ s.dedup_head)
      × (r.0.pending_repeat ≡ false)
unfolding flush_relay
flush_keeps radio now s = ground arith

unfoldable pub staged_of : RepeaterMode → Option Bytes
staged_of s = if s.pending_repeat then some s.pending_repeat_frame else none

pub flush_sends :
    (radio : Radio) (now : ℕ) (s : RepeaterMode)
    → broadcasts (flush_relay radio now s).1 ≡ sent_on radio (staged_of s)
unfolding flush_relay staged_of
flush_sends none now s = elim (Bool-cases s.pending_repeat) [
  | inl p ↦ rw p refl
  | inr p ↦ rw p refl
]
flush_sends (some radio) now s = elim (Bool-cases s.pending_repeat) [
  | inl p ↦ elim (Bool-cases (radio s.pending_repeat_frame)) [
    | inl sent ↦ rw (p, sent) refl
    | inr lost ↦ rw (p, lost) refl
  ]
  | inr p ↦ rw p refl
]

-- What the flush sends, and that nothing is staged after it.
pub flush_step :
    (radio : Radio) (now : ℕ) (s : RepeaterMode) (recents : List DedupEntry) (staged : Option Bytes)
    → Refines s recents staged
    → let r = flush_relay radio now s in
      Refines r.0 recents none × (broadcasts r.1 ≡ sent_on radio staged)
unfolding staged_of
flush_step radio now s recents staged f =
    let (ring, head, empty) = flush_keeps radio now s in
    (
      record {
        ring = record {
          ring_size = ap length ring ∙ f.ring.ring_size;
          head_range = omega (arith, head, f.ring.head_range);
          ring_slots = λ j h. rw (ring, head) (f.ring.ring_slots j h);
        };
        same_staged = rw empty refl;
      },
      flush_sends radio now s ∙ ap (sent_on radio) f.same_staged,
    )

pub tick_step :
    (input : TickInput) (s : RepeaterMode) (recents : List DedupEntry) (staged : Option Bytes)
    → Refines s recents staged
    → let r = loop_tick input s in
      Refines r.0 recents none
      × (broadcasts r.1
          ≡ sent_on input.radio staged ++ own_census input.radio input.now_ms (at_census input s))
unfolding loop_tick at_census
tick_step input s recents staged f =
    let (s1, flushed) = flush_relay input.radio input.now_ms s in
    let (f1, sent) = flush_step input.radio input.now_ms s recents staged f in
    let aside = rest-IsAside input s1 in
    (
      Refines-aside s1 _ _ recents none aside f1,
      broadcasts-append flushed _ ∙ ap₂ ◌++◌ sent aside.sends,
    )
