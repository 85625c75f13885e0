-- ===== src/Numonce.antt =====
-- src/transport/espnow/numonce_lru.cpp and numonce_lru.h: the replay guard of the config channel, one
-- slot for each sender with the highest numonce seen from it.
pub mod Guard
pub mod Target
pub mod History
pub mod Replay
pub mod Retention
use nocturnation_stickc.Prelude.{
  ltb, leb, ◌==◌, if◌then◌else◌, get_or, set, drop, replicate, ℕ, suc, ◌+◌, ◌%◌, ◌^◌, Bool, true,
  false, not, ◌&&◌, Option, none, some, List, [], ◌∷◌,
}
use mathlib.Core.Option

pub record Slot : Type 0 where
  pub source_id : ℕ
  pub last_seen : ℕ
  pub last_accessed : ℕ
  pub valid : Bool

abbrev pub slot_count : ℕ
slot_count = 16

-- A slot as zero-initialised.
abbrev pub empty_slot : Slot
empty_slot = record { source_id = 0; last_seen = 0; last_accessed = 0; valid = false }

pub record NumonceLru : Type 0 where
  pub slots : List Slot
  pub tick : ℕ

abbrev pub fresh_table : NumonceLru
fresh_table = record { slots = replicate slot_count empty_slot; tick = 0 }

-- slots_[i]
abbrev pub slot_at : List Slot → ℕ → Slot
slot_at slots i = get_or slots i empty_slot

-- `valid && source_id == source`
abbrev pub holds : ℕ → Slot → Bool
holds source s = s.valid && s.source_id == source

-- The loops that stop at the first slot with a property, by its index.
unfoldable pub index_where : (Slot → Bool) → List Slot → Option ℕ
index_where test [] = none
index_where test (s ∷ ss) = if test s then some 0 else Option.map suc (index_where test ss)

-- The loop over the slots from index `i` on, with `oldest` and `target` so far.
unfoldable pub oldest_from : ℕ → ℕ → ℕ → List Slot → ℕ
oldest_from i oldest target [] = target
oldest_from i oldest target (s ∷ ss) =
    let older = ltb s.last_accessed oldest in
    oldest_from (i + 1) (if older then s.last_accessed else oldest) (if older then i else target) ss

-- The slot for a new source: the first free one, else the one accessed longest ago.
unfoldable pub target_slot : List Slot → ℕ
target_slot slots = elim (index_where (λ s. not s.valid) slots) [
  | some i ↦ i
  | none ↦ oldest_from 1 (slot_at slots 0).last_accessed 0 (drop 1 slots)
]

unfoldable pub check_and_update : NumonceLru → ℕ → ℕ → NumonceLru × Bool
check_and_update l source_id numonce =
    let tick = (l.tick + 1) % 2 ^ 32 in
    let counted = record l { tick = tick } in
    if numonce == 0 then (l, false) else elim (index_where (holds source_id) l.slots) [
      | some i ↦
          let slot = slot_at l.slots i in
          if leb numonce slot.last_seen then (counted, false) else (
            record {
              slots = set l.slots i (record slot { last_seen = numonce; last_accessed = tick });
              tick = tick;
            },
            true,
          )
      | none ↦ (
        record {
          slots = set l.slots (target_slot l.slots) (record {
            source_id = source_id;
            last_seen = numonce;
            last_accessed = tick;
            valid = true;
          });
          tick = tick;
        },
        true,
      )
    ]

unfoldable pub slots_in_use : List Slot → ℕ
slots_in_use [] = 0
slots_in_use (s ∷ ss) = (if s.valid then 1 else 0) + slots_in_use ss

unfoldable pub last_seen_for : NumonceLru → ℕ → ℕ
last_seen_for l source_id = elim (index_where (holds source_id) l.slots) [
  | some i ↦ (slot_at l.slots i).last_seen
  | none ↦ 0
]
