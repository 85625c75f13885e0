-- ===== src/Repeater/Hearing.antt =====
-- modes/repeater_mode.cpp: `on_recv` and the contract.

use nocturnation_stickc.Frame.Wire.{decode_header}
use nocturnation_stickc.Repeater.{is_ok, seen_recently, on_recv, mark_seen, no_header}
use nocturnation_stickc.Prelude.{
  ltb, leb, ◌==◌, if◌then◌else◌, le→ltb, Bool-cases, length, ℕ, ◌≤◌, ◌≡◌, refl, sym, ◌∙◌, ◌≢◌, inl,
  inr, true, false, Option, none, some, List, [], arith,
}
use nocturnation_stickc.Frame.Types.{
  Bytes, Header, DecodeResult, header_size, same_type, repeater_heartbeat,
}
use nocturnation_stickc.Repeater.Contract.{Refines, fleet_id, hear}
use nocturnation_stickc.Repeater.Types.{DedupEntry, RepeaterMode, repeat_buf_size}
use nocturnation_stickc.Repeater.Aside.{IsAside, Refines-aside}
use nocturnation_stickc.Repeater.Dedup.{IsRing, mark_seen-IsRing, seen_recently-window}

-- What hearing a frame does.
pub data HeardCase (s : RepeaterMode) (frame : Bytes) (s' : RepeaterMode) : Type 0 where
  ignored : fleet_id frame ≡ none → IsAside s (s', []) [] → HeardCase s frame s'
  repeated :
      (src seq : ℕ)
      → fleet_id frame ≡ some (src, seq)
      → seq ≢ 0
      → seen_recently s src seq ≡ true
      → IsAside s (s', []) []
      → HeardCase s frame s'
  fresh :
      (src seq clock : ℕ)
      → fleet_id frame ≡ some (src, seq)
      → seq ≢ 0
      → seen_recently s src seq ≡ false
      → s' ≡ (
          let marked = mark_seen src seq (record s { last_rx_ms = clock; locked = true }) in
          if leb (length frame) repeat_buf_size
          then record marked { pending_repeat_frame = frame; pending_repeat = true }
          else marked)
      → HeardCase s frame s'

pub is_ok_eq : (v : DecodeResult) → is_ok v ≡ true → v ≡ DecodeResult.ok
is_ok_eq v h = ground arith

pub decode_header_room :
    (frame : Bytes) (n : ℕ) (out : Header)
    → (decode_header frame n out).0 ≡ DecodeResult.ok
    → header_size ≤ n
unfolding decode_header
decode_header_room frame n out e = ground arith

module _ (s : RepeaterMode) (frame : Bytes) (clock : ℕ) where
  hdr : Header
  hdr = (decode_header frame (length frame) no_header).1

  seen_heard :
      (src seq : ℕ)
      → seen_recently s src seq
        ≡ seen_recently (record s { last_rx_ms = clock; locked = true }) src seq
  unfolding seen_recently
  seen_heard src seq = refl

  pub heard_case : HeardCase s frame (on_recv frame clock s)
  unfolding on_recv fleet_id hdr
  heard_case =
      let verdict = (decode_header frame (length frame) no_header).0 in
      let heard = record s { last_rx_ms = clock; locked = true } in
      let same : IsAside s (s, []) [] = record {
        ring_kept = refl;
        head_kept = refl;
        pending_kept = refl;
        frame_kept = refl;
        sends = refl;
      } in
      let touched : IsAside s (heard, []) [] = record {
        ring_kept = refl;
        head_kept = refl;
        pending_kept = refl;
        frame_kept = refl;
        sends = refl;
      } in
      elim (Bool-cases (is_ok verdict)) [
        | inr bad ↦ ignored (rw bad refl) (elim (Bool-cases (ltb (length frame) header_size)) [
          | inl short ↦ rw (short) same
          | inr long ↦ rw (long, bad) same
        ])
        | inl good ↦
            let room = decode_header_room frame (length frame) no_header (is_ok_eq verdict good) in
            let long = le→ltb (length frame) header_size room in
            elim (Bool-cases (same_type hdr.message_type repeater_heartbeat)) [
              | inl census ↦ ignored (rw (good, census) refl) (rw (long, good, census) same)
              | inr fleet ↦ elim (Bool-cases (hdr.sequence_number == 0)) [
                | inl zero_seq ↦
                    ignored (rw (good, fleet, zero_seq) refl)
                      (rw (long, good, fleet, zero_seq) touched)
                | inr sequenced ↦
                    elim (Bool-cases (seen_recently heard hdr.source_id hdr.sequence_number)) [
                      | inl seen ↦
                          repeated hdr.source_id hdr.sequence_number
                            (rw (good, fleet, sequenced) refl) (ground (arith, sequenced))
                            (seen_heard hdr.source_id hdr.sequence_number ∙ seen)
                            (rw (long, good, fleet, sequenced, seen) touched)
                      | inr unseen ↦
                          fresh hdr.source_id hdr.sequence_number clock
                            (rw (good, fleet, sequenced) refl) (ground (arith, sequenced))
                            (seen_heard hdr.source_id hdr.sequence_number ∙ unseen)
                            (rw (long, good, fleet, sequenced, unseen) refl)
                    ]
              ]
            ]
      ]

pub mark_keeps :
    (src seq : ℕ) (s : RepeaterMode)
    → ((mark_seen src seq s).pending_repeat ≡ s.pending_repeat)
      × ((mark_seen src seq s).pending_repeat_frame ≡ s.pending_repeat_frame)
unfolding mark_seen
mark_keeps src seq s = ground arith

pub hear_step :
    (s : RepeaterMode) (frame : Bytes) (s' : RepeaterMode) (recents : List DedupEntry)
    (staged : Option Bytes)
    → HeardCase s frame s'
    → Refines s recents staged
    → let (recents', staged') = hear frame recents staged in Refines s' recents' staged'
unfolding hear
hear_step s frame s' recents staged (ignored id a) f =
    rw (hear, id) (Refines-aside s (s', []) [] recents staged a f)
hear_step s frame s' recents staged (repeated src seq id nz seen a) f =
    let known = sym (seen_recently-window s src seq recents nz f.ring) ∙ seen in
    rw (hear, id, known) (Refines-aside s (s', []) [] recents staged a f)
hear_step s frame s' recents staged (fresh src seq clock id nz unseen e) f =
    let heard = record s { last_rx_ms = clock; locked = true } in
    let unknown = sym (seen_recently-window s src seq recents nz f.ring) ∙ unseen in
    let heard_ring : IsRing heard recents = record {
      ring_size = f.ring.ring_size;
      head_range = f.ring.head_range;
      ring_slots = f.ring.ring_slots;
    } in
    let marked = mark_seen-IsRing heard src seq recents nz heard_ring in
    elim (Bool-cases (leb (length frame) repeat_buf_size)) [
      | inl fits ↦
          rw (hear, id, unknown, e, fits)
            (record {
              ring = record {
                ring_size = marked.ring_size;
                head_range = marked.head_range;
                ring_slots = marked.ring_slots;
              };
              same_staged = refl;
            })
      | inr long ↦
          let (pending, same) = mark_keeps src seq heard in
          rw (hear, id, unknown, e, long)
            (record { ring = marked; same_staged = rw (pending, same) f.same_staged })
    ]
