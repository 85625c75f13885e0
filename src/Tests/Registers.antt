-- ===== src/Tests/Registers.antt =====
-- The pairing register on small runs.
use nocturnation_stickc.Prelude.{
  ◌==◌, if◌then◌else◌, All, ℕ, ◌≤◌, ◌≡◌, refl, none, some, List, [], ◌∷◌,
}
use nocturnation_stickc.PairRegister.Changes.{find-changes, is_known}
use nocturnation_stickc.PairRegister.Fifo.{find-add, found_after_add, oldest}
use nocturnation_stickc.PairRegister.Find.{IsDistinct}
use nocturnation_stickc.PairRegister.{
  RegisterEntry, ConfigSnapshot, PairRegister, zero_entry, find_in, find, remove, clear_in_memory,
  add, mark_configured, update_first, marked_at, remove_first, update_snapshot, with_snapshot,
  after_next,
}
use mathlib.Core.Option
use nocturnation_stickc.PairRegister.History.{
  run, Op, IsRegister, run-IsRegister, added, apply, snapshotted, removed, configured,
}

abbrev lume : ℕ → RegisterEntry
lume uid = record zero_entry { uid = uid; role = 2; last_configured_at = 5 }

-- Two entries, the older one behind.
abbrev two_lumes : PairRegister
two_lumes = record {
  entries = record (lume 7) { captured_at = 2 } ∷ record (lume 9) { captured_at = 1 } ∷ [];
  next_sequence_val = 3;
}

two_lumes-IsDistinct : IsDistinct two_lumes.entries
unfolding IsDistinct find_in
two_lumes-IsDistinct = (refl, (refl, tt))

find-add_example :
    (find 9 (add (lume 9) two_lumes) ≡ found_after_add 9 (lume 9) two_lumes)
    × All (λ e. (oldest two_lumes.entries).captured_at ≤ e.captured_at) two_lumes.entries
find-add_example = find-add 9 (lume 9) two_lumes two_lumes-IsDistinct

abbrev snapshot : ConfigSnapshot
snapshot = record {
  group = 3;
  led_power = 128;
  channel_pref = 6;
  strip_chain = 60;
  strip_group_size = 1;
  pair_win_s = 30;
}

find-changes_example :
    (((remove 9 two_lumes).0 ≡ is_known 9 two_lumes)
      × (find 7 (remove 9 two_lumes).1 ≡ (if 7 == 9 then none else find 7 two_lumes)))
    × (((mark_configured 9 two_lumes).0 ≡ is_known 9 two_lumes)
        × (find 7 (mark_configured 9 two_lumes).1
            ≡ (if 7 == 9 then Option.map (marked_at 3) (find 7 two_lumes) else find 7 two_lumes)))
    × (((update_snapshot 9 snapshot two_lumes).0 ≡ is_known 9 two_lumes)
        × (find 7 (update_snapshot 9 snapshot two_lumes).1 ≡ (
            if 7 == 9
            then Option.map (with_snapshot snapshot 3) (find 7 two_lumes)
            else find 7 two_lumes)))
find-changes_example = find-changes 7 9 snapshot two_lumes two_lumes-IsDistinct

abbrev register_ops : List Op
register_ops =
    added (lume 7)
    ∷ added (lume 9)
    ∷ snapshotted 7 snapshot
    ∷ added (lume 7)
    ∷ removed 9
    ∷ configured 7
    ∷ []

run-IsRegister_example : IsRegister (run clear_in_memory register_ops)
run-IsRegister_example = run-IsRegister register_ops

-- The run, evaluated: the entry kept its capture over the second pairing.
register_test : Option.map (λ e. e.captured_at) (find 7 (run clear_in_memory register_ops)) ≡ some 1
unfolding run apply add find find_in update_first remove remove_first mark_configured
    update_snapshot after_next
register_test = refl
