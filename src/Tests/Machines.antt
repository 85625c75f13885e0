-- ===== src/Tests/Machines.antt =====
-- Locks, the replay guard, the stream parser and property bags at work.
use nocturnation_stickc.Census.Distinct.{IsDistinct, note_all-IsDistinct, note_all}
use nocturnation_stickc.Census.{Entry, unused_entry, no_repeaters, max_repeaters}
use nocturnation_stickc.Numonce.Guard.{accepts_iff}
use nocturnation_stickc.DmxParser.Channels.{unfinished_frame_overwrites}
use nocturnation_stickc.DmxParser.Framing.{enttec_frame, frame_behind_noise}
use nocturnation_stickc.Numonce.Replay.{replay_refused}
use nocturnation_stickc.Numonce.History.{run}
use nocturnation_stickc.Numonce.{
  check_and_update, fresh_table, last_seen_for, index_where, target_slot, oldest_from,
}
use nocturnation_stickc.DmxParser.Buffer.{IsSound, feed_all-initial-IsSound}
use nocturnation_stickc.Prelude.{
  ltb, get_or, take, replicate, ℕ, ◌+◌, ◌<◌, ◌≡◌, refl, ◌↔◌, ◌⊎◌, Bool, true, false, List, [], ◌∷◌,
  ◌++◌, arith, length,
}
use nocturnation_stickc.Frame.Types.{Bytes, light_pulse}
use nocturnation_stickc.Tofu.Session.{
  Event, OneDirector, trace-OneDirector, frame, holder, timer, trace, rescan,
}
use nocturnation_stickc.Tofu.Admission.{Eligible, admit_iff}
use nocturnation_stickc.Tlv.Reading.{decode_property_bag-walk, entries_then, walk}
use nocturnation_stickc.Tests.Data.{entry-IsEntry, entry}
use nocturnation_stickc.Tlv.{TlvEntry, decode_property_bag}
use nocturnation_stickc.Tofu.{TofuLock, admit, unlocked}
use nocturnation_stickc.DmxParser.{
  feed_all, reset, initial, need_more_bytes, frame_complete, wait_start,
}

abbrev locked : TofuLock
locked = record { has_lock = true; locked_id = 0x41; last_frame_ms = 1000 }

admit_iff_example :
    ((admit locked light_pulse 0x41 11 1500).1 ≡ true)
    ↔ (Eligible 0x41 11 × ((locked.has_lock ≡ false) ⊎ (0x41 ≡ locked.locked_id)))
admit_iff_example = admit_iff locked light_pulse 0x41 11 1500

-- A second Director is dropped until the lock times out.
abbrev evening : List Event
evening =
    frame light_pulse 0x41 11 1000
    ∷ frame light_pulse 0x42 11 2000
    ∷ timer 11000
    ∷ frame light_pulse 0x42 11 12000
    ∷ rescan
    ∷ []

trace-OneDirector_example : OneDirector (holder unlocked) (trace unlocked evening)
trace-OneDirector_example = trace-OneDirector unlocked evening

accepts_iff_example :
    ((check_and_update fresh_table 0x41 1).1 ≡ true) ↔ (last_seen_for fresh_table 0x41 < 1)
accepts_iff_example = accepts_iff fresh_table 0x41 1

replay_refused_example :
    (check_and_update
      (run (check_and_update (run fresh_table ((0x42, 3) ∷ [])) 0x41 9).0 ((0x42, 4) ∷ []))
      0x41
      9).1
    ≡ false
replay_refused_example =
    replay_refused ((0x42, 3) ∷ []) ((0x42, 4) ∷ []) 0x41 9 9 (omega arith) (omega arith)
      (omega arith) (unfold run check_and_update index_where target_slot oldest_from in refl)

-- A frame of label 6 with three bytes of payload, and a byte of the next one.
abbrev stream : Bytes
stream = 1 ∷ 2 ∷ 0x7E ∷ 6 ∷ 3 ∷ 0 ∷ 0 ∷ 10 ∷ 20 ∷ 0xE7 ∷ 0x7E ∷ []

feed_all-initial-IsSound_example : IsSound (feed_all initial stream).0
feed_all-initial-IsSound_example = feed_all-initial-IsSound stream (ground arith)

abbrev frame_bytes : Bytes
frame_bytes = 0 ∷ 10 ∷ 20 ∷ []

frame_behind_noise_example :
    let r = feed_all initial ((1 ∷ 2 ∷ []) ++ enttec_frame 6 frame_bytes) in
    (r.1
      ≡ replicate 2 need_more_bytes
        ++ (replicate 4 need_more_bytes ++ (replicate 3 need_more_bytes ++ frame_complete ∷ [])))
    × (r.0.state ≡ wait_start)
    × (r.0.last_label ≡ 6)
    × (r.0.last_payload_len ≡ 3)
    × (take 3 r.0.payload_buf ≡ frame_bytes)
    × (r.0.frame_count ≡ 1)
    × (r.0.reset_count ≡ 0)
    × (r.0.oversize_count ≡ 0)
frame_behind_noise_example =
    frame_behind_noise initial (1 ∷ 2 ∷ []) 6 frame_bytes refl refl
      ((λ e. ground arith), ((λ e. ground arith), tt)) (omega arith)

unfinished_frame_overwrites_example :
    let q = reset (feed_all initial (0x7E ∷ 6 ∷ 3 ∷ 0 ∷ 99 ∷ [])).0 in
    (q.last_label ≡ 0) × (q.last_payload_len ≡ 0) × (get_or q.payload_buf 0 0 ≡ 99)
unfinished_frame_overwrites_example =
    unfinished_frame_overwrites initial 6 3 99 refl refl (omega arith) (omega arith)

-- A callback that counts the entries and stops at the second.
abbrev two_at_most : TlvEntry → ℕ → Bool × ℕ
two_at_most e n = (ltb n 1, n + 1)

decode_property_bag-walk_example :
    decode_property_bag two_at_most (2 ∷ entries_then (entry ∷ entry ∷ []) (9 ∷ [])) 14 0
    ≡ walk two_at_most (entry ∷ entry ∷ []) 0
decode_property_bag-walk_example =
    decode_property_bag-walk two_at_most (entry ∷ entry ∷ []) (9 ∷ []) 14 0
      (entry-IsEntry, (entry-IsEntry, tt)) (omega arith)

-- Two repeaters, the first of them heard twice.
abbrev beacons : List Entry
beacons =
    record unused_entry { uid0 = 1; last_seen_ms = 100 }
    ∷ record unused_entry { uid0 = 2; last_seen_ms = 200 }
    ∷ record unused_entry { uid0 = 1; last_seen_ms = 1100; relayed = 9 }
    ∷ []

note_all-IsDistinct_example :
    IsDistinct (note_all no_repeaters beacons)
    × (length (note_all no_repeaters beacons) ≡ max_repeaters)
note_all-IsDistinct_example = note_all-IsDistinct beacons
