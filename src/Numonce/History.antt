-- ===== src/Numonce/History.antt =====
-- numonce_lru.cpp: a history of calls and the slots it leaves.
use nocturnation_stickc.Numonce.Guard.{index_where-holds}
use nocturnation_stickc.Numonce.Target.{target_slot-Replaceable}
use nocturnation_stickc.Prelude.{
  leb, if◌then◌else◌, length, set, All, ℕ, zero, suc, ◌+◌, ◌≤◌, ◌<◌, ◌≡◌, refl, ◌≢◌, inl, inr, some,
  List, [], ◌∷◌, arith, ◌==◌, Bool-cases, Option-cases, ◌%◌, ◌^◌, true, none,
}
use nocturnation_stickc.Numonce.{
  Slot, NumonceLru, slot_count, check_and_update, index_where, target_slot, holds, slot_at,
}

-- A run of calls, each with its source and its numonce.
unfoldable pub run : NumonceLru → List (ℕ × ℕ) → NumonceLru
run l [] = l
run l ((source_id, numonce) ∷ calls) = run (check_and_update l source_id numonce).0 calls

-- The slots accessed at time `a` or later.
abbrev pub count_since : ℕ → List Slot → ℕ
count_since a [] = 0
count_since a (s ∷ ss) = (if leb a s.last_accessed then 1 else 0) + count_since a ss

pub count_since-set :
    (a : ℕ) (slots : List Slot) (i : ℕ) (v : Slot)
    → count_since a (set slots i v) ≤ count_since a slots + 1
count_since-set a [] i v = omega arith
count_since-set a (s ∷ ss) zero v = ground arith
count_since-set a (s ∷ ss) (suc i) v = omega (arith, count_since-set a ss i v)

count_since-All :
    (a : ℕ) (slots : List Slot)
    → All (λ s. a ≤ s.last_accessed) slots
    → count_since a slots ≡ length slots
count_since-All a [] all = refl
count_since-All a (s ∷ ss) all = ground (arith, count_since-All a ss all.1)

pub count_since_none :
    (a t : ℕ) (slots : List Slot)
    → All (λ s. s.last_accessed ≤ t) slots
    → t < a
    → count_since a slots ≡ 0
count_since_none a t [] all h = refl
count_since_none a t (s ∷ ss) all h = ground (arith, count_since_none a t ss all.1)

-- No slot is stamped with a time to come.
pub record IsStamped (l : NumonceLru) : Type 0 where
  pub size : length l.slots ≡ slot_count
  pub past : All (λ s. s.last_accessed ≤ l.tick) l.slots

-- Source `s` is on record at index `at` with a numonce of at least `n` and a time of at least `a`, and
-- at most `c` slots have such a time.
pub record IsKept (s n a c : ℕ) (l : NumonceLru) : Type 0 where
  pub at : ℕ
  pub size : length l.slots ≡ slot_count
  pub found : index_where (holds s) l.slots ≡ some at
  pub high : n ≤ (slot_at l.slots at).last_seen
  pub recent : a ≤ (slot_at l.slots at).last_accessed
  pub few : count_since a l.slots ≤ c
  pub time : a ≤ l.tick

All-mono :
    (a b : ℕ) (slots : List Slot)
    → a ≤ b
    → All (λ s. b ≤ s.last_accessed) slots
    → All (λ s. a ≤ s.last_accessed) slots
All-mono a b [] h all = tt
All-mono a b (s ∷ ss) h all = (omega arith, All-mono a b ss h all.1)

-- A source with a recent slot does not lose it to a new one.
pub target-ne :
    (s n a c : ℕ) (l : NumonceLru) (k : IsKept s n a c l)
    → c < slot_count
    → target_slot l.slots ≢ k.at
target-ne s n a c l k h e = elim (target_slot-Replaceable l.slots (omega arith)) [
  | inl (_, free) ↦
      let (_, held) = index_where-holds (holds s) l.slots k.at k.found in
      absurd (ground (arith, held, rw e at free))
  | inr (_, eldest) ↦
      let all : All (λ x. (slot_at l.slots k.at).last_accessed ≤ x.last_accessed) l.slots =
        rw e at eldest in
      absurd (
        omega (
          arith,
          count_since-All a l.slots
              (All-mono a (slot_at l.slots k.at).last_accessed l.slots k.recent all),
        ))
]

-- The tick of a call that does not wrap.
abbrev pub next_tick : NumonceLru → ℕ
next_tick l = (l.tick + 1) % 2 ^ 32

-- The table after a numonce of a source on record at `j`, and after one of a new source.
abbrev pub updated : NumonceLru → ℕ → ℕ → NumonceLru
updated l j m = record {
  slots = set l.slots j (record (slot_at l.slots j) { last_seen = m; last_accessed = next_tick l });
  tick = next_tick l;
}

abbrev pub entered : NumonceLru → ℕ → ℕ → NumonceLru
entered l r m = record {
  slots =
      set l.slots (target_slot l.slots)
        (record { source_id = r; last_seen = m; last_accessed = next_tick l; valid = true });
  tick = next_tick l;
}

pub check_cases {ℓ} :
    (P : NumonceLru → Type ℓ) (l : NumonceLru) (r m : ℕ)
    → P l
    → P (record l { tick = next_tick l })
    → ((j : ℕ)
        → index_where (holds r) l.slots ≡ some j
        → (slot_at l.slots j).last_seen < m
        → P (updated l j m))
    → (index_where (holds r) l.slots ≡ none → P (entered l r m))
    → P (check_and_update l r m).0
unfolding check_and_update
check_cases P l r m same counted known fresh = elim (Bool-cases (m == 0)) [
  | inl zero_m ↦ rw zero_m same
  | inr some_m ↦ elim (Option-cases (index_where (holds r) l.slots)) [
    | inl e ↦ rw (some_m, e, check_and_update) (fresh e)
    | inr (j, e) ↦ elim (Bool-cases (leb m (slot_at l.slots j).last_seen)) [
      | inl replay ↦ rw (some_m, e, check_and_update) (rw replay counted)
      | inr newer ↦ rw (some_m, e, check_and_update) (rw newer (known j e (ground arith)))
    ]
  ]
]
