-- ===== src/PairRegister.antt =====
-- ble/pair_register.cpp and pair_register.h: the Lumes that a Director has paired with. `entries` holds
-- the first count_ slots of entries_, so count_ is its length; the slots behind are never read. A
-- method that returns bool gives it beside the register.
pub mod Find
pub mod Fifo
pub mod Changes
pub mod History
use nocturnation_stickc.Prelude.{
  ltb, leb, ◌==◌, if◌then◌else◌, length, get_or, set, take, drop, ℕ, ◌+◌, Bool, true, false, Option,
  none, some, List, [], ◌∷◌, ◌++◌,
}
use nocturnation_stickc.Frame.Types.{Bytes}

pub record RegisterEntry : Type 0 where
  pub uid : ℕ
  pub secret : Bytes
  pub role : ℕ
  pub host : ℕ
  pub friendly_name : Bytes
  pub captured_at : ℕ
  pub last_configured_at : ℕ
  pub snap_group : ℕ
  pub snap_led_power : ℕ
  pub snap_channel_pref : ℕ
  pub snap_strip_chain : ℕ
  pub snap_strip_group_size : ℕ
  pub snap_pair_win_s : ℕ
  pub snap_valid : ℕ

pub record ConfigSnapshot : Type 0 where
  pub group : ℕ
  pub led_power : ℕ
  pub channel_pref : ℕ
  pub strip_chain : ℕ
  pub strip_group_size : ℕ
  pub pair_win_s : ℕ

pub record PairRegister : Type 0 where
  pub entries : List RegisterEntry
  pub next_sequence_val : ℕ

abbrev pub max_entries : ℕ
max_entries = 20

abbrev pub clear_in_memory : PairRegister
clear_in_memory = record { entries = []; next_sequence_val = 1 }

-- What next_sequence_() leaves in next_sequence_val_; it returns the value before.
unfoldable pub after_next : ℕ → ℕ
after_next v = if ltb v 0xFFFFFFF0 then v + 1 else v

-- `find` on the entries.
unfoldable pub find_in : ℕ → List RegisterEntry → Option RegisterEntry
find_in uid [] = none
find_in uid (e ∷ es) = let rest = find_in uid es in if e.uid == uid then some e else rest

unfoldable pub find : ℕ → PairRegister → Option RegisterEntry
find uid r = find_in uid r.entries

-- The search loop of the mutators: the first entry with the uid is changed by `f`.
unfoldable pub update_first :
    ℕ → (RegisterEntry → RegisterEntry) → List RegisterEntry → List RegisterEntry
update_first uid f [] = []
update_first uid f (e ∷ es) =
    let rest = update_first uid f es in if e.uid == uid then f e ∷ es else e ∷ rest

-- The entry `e` taken over by `in`, which keeps its place in the order and its last write.
abbrev pub repaired : RegisterEntry → RegisterEntry → RegisterEntry
repaired new e = record new {
  captured_at = e.captured_at;
  last_configured_at = e.last_configured_at;
}

-- The eviction loop from index `i` on, with the oldest so far.
unfoldable pub oldest_entry_from : ℕ → ℕ → ℕ → List RegisterEntry → ℕ
oldest_entry_from i oldest_idx oldest_seq [] = oldest_idx
oldest_entry_from i oldest_idx oldest_seq (e ∷ es) =
    let older = ltb e.captured_at oldest_seq in
    oldest_entry_from (i + 1) (if older then i else oldest_idx)
      (if older then e.captured_at else oldest_seq) es

abbrev pub zero_entry : RegisterEntry
zero_entry = record {
  uid = 0;
  secret = [];
  role = 0;
  host = 0;
  friendly_name = [];
  captured_at = 0;
  last_configured_at = 0;
  snap_group = 0;
  snap_led_power = 0;
  snap_channel_pref = 0;
  snap_strip_chain = 0;
  snap_strip_group_size = 0;
  snap_pair_win_s = 0;
  snap_valid = 0;
}

unfoldable pub oldest_idx : List RegisterEntry → ℕ
oldest_idx entries =
    oldest_entry_from 1 0 (get_or entries 0 zero_entry).captured_at (drop 1 entries)

-- `add`, which always returns true.
unfoldable pub add : RegisterEntry → PairRegister → PairRegister
add new r =
    let placed = record new { captured_at = r.next_sequence_val } in
    let slot =
      if leb max_entries (length r.entries) then oldest_idx r.entries else length r.entries in
    elim (find new.uid r) [
      | some _ ↦ record r { entries = update_first new.uid (repaired new) r.entries }
      | none ↦ record {
        entries =
            if leb max_entries (length r.entries)
            then set r.entries slot placed
            else r.entries ++ placed ∷ [];
        next_sequence_val = after_next r.next_sequence_val;
      }
    ]

-- The loop of `remove`.
unfoldable pub remove_first : ℕ → List RegisterEntry → List RegisterEntry
remove_first uid [] = []
remove_first uid (e ∷ es) = let rest = remove_first uid es in if e.uid == uid then es else e ∷ rest

unfoldable pub remove : ℕ → PairRegister → Bool × PairRegister
remove uid r = elim (find uid r) [
  | some _ ↦ (true, record r { entries = remove_first uid r.entries })
  | none ↦ (false, r)
]

-- The entry as `mark_configured` leaves it.
abbrev pub marked_at : ℕ → RegisterEntry → RegisterEntry
marked_at seq e = record e { last_configured_at = seq }

unfoldable pub mark_configured : ℕ → PairRegister → Bool × PairRegister
mark_configured uid r = elim (find uid r) [
  | some _ ↦ (
    true,
    record {
      entries = update_first uid (marked_at r.next_sequence_val) r.entries;
      next_sequence_val = after_next r.next_sequence_val;
    },
  )
  | none ↦ (false, r)
]

-- The entry with the snapshot, written at `seq`.
abbrev pub with_snapshot : ConfigSnapshot → ℕ → RegisterEntry → RegisterEntry
with_snapshot s seq e = record e {
  snap_group = s.group;
  snap_led_power = s.led_power;
  snap_channel_pref = s.channel_pref;
  snap_strip_chain = s.strip_chain;
  snap_strip_group_size = s.strip_group_size;
  snap_pair_win_s = s.pair_win_s;
  snap_valid = 1;
  last_configured_at = seq;
}

unfoldable pub update_snapshot : ℕ → ConfigSnapshot → PairRegister → Bool × PairRegister
update_snapshot uid s r = elim (find uid r) [
  | some _ ↦ (
    true,
    record {
      entries = update_first uid (with_snapshot s r.next_sequence_val) r.entries;
      next_sequence_val = after_next r.next_sequence_val;
    },
  )
  | none ↦ (false, r)
]

-- The inner loop of the insertion sort: `key` moves up past the entries captured before it.
-- `out` shows the sorted part from its end.
unfoldable pub insert_from_end : RegisterEntry → List RegisterEntry → List RegisterEntry
insert_from_end key [] = key ∷ []
insert_from_end key (e ∷ es) =
    let rest = insert_from_end key es in
    if ltb e.captured_at key.captured_at then e ∷ rest else key ∷ e ∷ es

-- The outer loop, with the sorted part from its end.
unfoldable pub sort_onto : List RegisterEntry → List RegisterEntry → List RegisterEntry
sort_onto done [] = done
sort_onto done (e ∷ es) = sort_onto (insert_from_end e done) es

-- The entries written to `out`, which has room for `room`, from the last to the first.
unfoldable pub list_sorted_from_end : ℕ → PairRegister → List RegisterEntry
list_sorted_from_end room r = sort_onto [] (take room r.entries)
