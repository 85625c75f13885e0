-- ===== src/Lume/Ring.antt =====
-- src/modes/lume_mode.cpp: the dedup ring of a Lume, which is the one of a repeater.
use nocturnation_stickc.Lume.Ticking.{fallback_edges, loop_tick, drain, scan, loses_signal}
use nocturnation_stickc.Broadcaster.Types.{Antenna}
use nocturnation_stickc.Tofu.{admit}
use nocturnation_stickc.Frame.Wire.{decode_header}
use nocturnation_stickc.Lume.Quality.{note_frame}
use nocturnation_stickc.Repeater.{seen_recently, mark_seen, no_header, is_ok}
use nocturnation_stickc.Lume.Receive.{
  seen_before, mark, take_fresh, take_admitted, receive, refresh, track_offset, stage_repeat,
  render,
}
use nocturnation_stickc.Prelude.{
  ltb, ◌==◌, if◌then◌else◌, Bool-cases, length, drop, ℕ, ◌%◌, ◌^◌, ◌≡◌, refl, sym, ap₂, subst, ◌≢◌,
  ◌⊎◌, inl, inr, Bool, true, false, not, ◌||◌, List, [], ◌∷◌, arith,
}
use nocturnation_stickc.Frame.Types.{
  Bytes, Header, same_type, config_write, uid_announce, config_ack, repeater_heartbeat,
}
use nocturnation_stickc.Repeater.Types.{DedupEntry, RepeaterMode, repeater_mode}
use nocturnation_stickc.Repeater.Dedup.{IsRing, mark_seen-IsRing, seen_recently-window, in_window}
use nocturnation_stickc.Lume.Core.{
  SameCore, SameCore-trans, track_offset-SameCore, stage_repeat-SameCore, render-SameCore,
  drain-SameCore, scan-SameCore,
}
use nocturnation_stickc.Lume.Types.{LumeCall, Lume, config_received, max_hop_count}

-- The ring and its head, as a repeater's.
abbrev pub as_repeater : Lume → RepeaterMode
as_repeater s = record repeater_mode { dedup_ring = s.ring; dedup_head = s.head }

-- `recents` being the entries marked in `s`, the latest first, those of `s'` are the same or one more.
abbrev pub Grown : List DedupEntry → Lume → Type 0
Grown recents s' =
    (more : List DedupEntry) × IsRing (as_repeater s') more
    × ((more ≡ recents) ⊎ ((y : DedupEntry) × (more ≡ y ∷ recents)))

abbrev pub Grows : Lume → Lume → Type 0
Grows s s' = (recents : List DedupEntry) → IsRing (as_repeater s) recents → Grown recents s'

pub core_ring :
    (s s' : Lume) (recents : List DedupEntry)
    → s'.ring ≡ s.ring
    → s'.head ≡ s.head
    → IsRing (as_repeater s) recents
    → IsRing (as_repeater s') recents
core_ring s s' recents same_ring same_head ring =
    let e : as_repeater s ≡ as_repeater s' = sym (
      ap₂ (λ (r : List DedupEntry) (h : ℕ). record repeater_mode { dedup_ring = r; dedup_head = h })
        same_ring same_head) in
    subst (λ x. IsRing x recents) e ring

pub seen_before-window :
    (s : Lume) (src seq : ℕ) (recents : List DedupEntry)
    → seq ≢ 0
    → IsRing (as_repeater s) recents
    → seen_before s src seq ≡ in_window 16 (src, seq) recents
unfolding seen_before seen_recently
seen_before-window s src seq recents nz ring =
    seen_recently-window (as_repeater s) src seq recents nz ring

mark_ring :
    (s : Lume) (src seq : ℕ) → as_repeater (mark src seq s) ≡ mark_seen src seq (as_repeater s)
unfolding mark mark_seen
mark_ring s src seq = elim (Bool-cases (seq == 0)) [
  | inl e ↦ rw (mark, mark_seen, e) refl
  | inr e ↦ rw (mark, mark_seen, e) refl
]

pub mark-IsRing :
    (s : Lume) (src seq : ℕ) (recents : List DedupEntry)
    → seq ≢ 0
    → IsRing (as_repeater s) recents
    → IsRing (as_repeater (mark src seq s)) ((src, seq) ∷ recents)
mark-IsRing s src seq recents nz ring =
    subst (λ x. IsRing x ((src, seq) ∷ recents)) (sym (mark_ring s src seq))
      (mark_seen-IsRing (as_repeater s) src seq recents nz ring)

mark_zero : (s : Lume) (src seq : ℕ) → seq ≡ 0 → mark src seq s ≡ s
unfolding mark
mark_zero s src seq z = let on : (seq == 0) ≡ true = ground (arith, z) in rw on refl

mark-Grows : (s : Lume) (src seq : ℕ) → Grows s (mark src seq s)
mark-Grows s src seq recents ring = elim (Bool-cases (seq == 0)) [
  | inl e ↦
      let z : seq ≡ 0 = ground (arith, e) in
      (
        recents,
        subst (λ x. IsRing (as_repeater x) recents) (sym (mark_zero s src seq z)) ring,
        inl refl,
      )
  | inr e ↦
      let nz : seq ≢ 0 = λ z. absurd (ground (arith, e, z)) in
      ((src, seq) ∷ recents, mark-IsRing s src seq recents nz ring, inr ((src, seq), refl))
]

-- The ring of a frame taken is the one marked.
pub fresh_core :
    (frame : Bytes) (hdr : Header) (s : Lume)
    → let marked = mark hdr.source_id hdr.sequence_number s in
      SameCore marked (take_fresh frame hdr s).0
unfolding take_fresh
fresh_core frame hdr s =
    let marked = mark hdr.source_id hdr.sequence_number s in
    let noted = record marked {
      quality = note_frame (hdr.source_id % 2 ^ 8) hdr.sequence_number s.last_rx_ms marked.quality;
    } in
    let tracked = track_offset frame hdr noted in
    let staged = stage_repeat frame hdr tracked in
    let r = render frame hdr staged in
    let same : SameCore noted r.0 =
      SameCore-trans noted tracked r.0 (track_offset-SameCore frame hdr noted) (
        SameCore-trans tracked staged r.0 (stage_repeat-SameCore frame hdr tracked)
          (render-SameCore frame hdr staged)) in
    record {
      same_active = same.same_active;
      same_fading = same.same_fading;
      same_ring = same.same_ring;
      same_head = same.same_head;
    }

admitted-Grows :
    (frame : Bytes) (hdr : Header) (now : ℕ) (s : Lume) → Grows s (take_admitted frame hdr now s).0
unfolding take_admitted refresh
admitted-Grows frame hdr now s recents ring =
    let alive = (refresh now hdr s).0 in
    let marked = mark hdr.source_id hdr.sequence_number alive in
    elim (Bool-cases (seen_before alive hdr.source_id hdr.sequence_number)) [
      | inl e ↦ rw e (recents, ring, inl refl)
      | inr e ↦
          let (more, ring1, grown) =
            mark-Grows alive hdr.source_id hdr.sequence_number recents ring in
          let core = fresh_core frame hdr alive in
          let ring2 =
            core_ring marked (take_fresh frame hdr alive).0 more core.same_ring core.same_head
              ring1 in
          rw e (more, ring2, grown)
    ]

way :
    (P : Lume × List LumeCall → Type 0) (b : Bool) (x y : Lume × List LumeCall)
    → (b ≡ true → P x)
    → P y
    → P (if b then x else y)
way P true x y f g = f refl
way P false x y f g = g

-- What holds of a frame dropped, of one handed to the config channel, of one not admitted and of one taken
-- holds of a frame received.
pub receive_either :
    (P : Lume × List LumeCall → Type 0) (frame : Bytes) (now : ℕ) (s : Lume)
    → let hdr = (decode_header frame (length frame) no_header).1 in
      let (lock, passes) = admit s.tofu hdr.message_type hdr.source_id s.listen_channel now in
      P (s, [])
      → (same_type hdr.message_type config_write ≡ true → P (s, config_received frame ∷ []))
      → P (record s { tofu = lock }, [])
      → P (take_admitted frame hdr now (record s { tofu = lock }))
      → P (receive frame now s)
unfolding receive
receive_either P frame now s drop config shut taken =
    let (verdict, hdr) = decode_header frame (length frame) no_header in
    let (lock, passes) = admit s.tofu hdr.message_type hdr.source_id s.listen_channel now in
    let admitted = record s { tofu = lock } in
    let R = Lume × List LumeCall in
    let whole : R = take_admitted frame hdr now admitted in
    let c5 : R = if not passes then (admitted, []) else whole in
    let c4 : R = if ltb max_hop_count hdr.hop_count then (s, []) else c5 in
    let c3 : R =
      if same_type hdr.message_type config_write then (s, config_received frame ∷ []) else c4 in
    let c2 : R =
      if same_type hdr.message_type uid_announce || same_type hdr.message_type config_ack
      then (s, [])
      else c3 in
    let c1 : R = if same_type hdr.message_type repeater_heartbeat then (s, []) else c2 in
    way P (not (is_ok verdict)) (s, []) c1 (λ _. drop)
      (way P (same_type hdr.message_type repeater_heartbeat) (s, []) c2 (λ _. drop)
        (way P (same_type hdr.message_type uid_announce || same_type hdr.message_type config_ack)
          (s, []) c3 (λ _. drop)
          (way P (same_type hdr.message_type config_write) (s, config_received frame ∷ []) c4 config
            (way P (ltb max_hop_count hdr.hop_count) (s, []) c5 (λ _. drop)
              (way P (not passes) (admitted, []) whole (λ _. shut) taken)))))

pub receive-Grows : (frame : Bytes) (now : ℕ) (s : Lume) → Grows s (receive frame now s).0
receive-Grows frame now s recents ring =
    let hdr = (decode_header frame (length frame) no_header).1 in
    let lock = (admit s.tofu hdr.message_type hdr.source_id s.listen_channel now).0 in
    receive_either (λ r. Grown recents r.0) frame now s (recents, ring, inl refl)
      (λ _. (recents, ring, inl refl)) (recents, ring, inl refl)
      (admitted-Grows frame hdr now (record s { tofu = lock }) recents ring)

edges_ring :
    (now : ℕ) (s : Lume)
    → ((fallback_edges now s).0.ring ≡ s.ring) × ((fallback_edges now s).0.head ≡ s.head)
unfolding fallback_edges
edges_ring now s = elim (Bool-cases (s.rx_count == 0)) [
  | inl e ↦ rw (fallback_edges, e) (refl, refl)
  | inr e ↦ rw (fallback_edges, e) (refl, refl)
]

pub tick-IsRing :
    (antenna : Antenna) (now : ℕ) (s : Lume) (recents : List DedupEntry)
    → IsRing (as_repeater s) recents
    → IsRing (as_repeater (loop_tick antenna now s).0) recents
unfolding loop_tick
tick-IsRing antenna now s recents ring =
    let s1 = (drain antenna now s).0 in
    let s2 = (fallback_edges now s1).0 in
    let s3 = (scan antenna now s2).0 in
    let one = drain-SameCore antenna now s in
    let three = scan-SameCore antenna now s2 in
    let (same_ring, same_head) = edges_ring now s1 in
    let ring1 = core_ring s s1 recents one.same_ring one.same_head ring in
    let ring2 = core_ring s1 s2 recents same_ring same_head ring1 in
    let ring3 = core_ring s2 s3 recents three.same_ring three.same_head ring2 in
    elim (Bool-cases (loses_signal now s1)) [ inl e ↦ rw e ring1 | inr e ↦ rw e ring3 ]
