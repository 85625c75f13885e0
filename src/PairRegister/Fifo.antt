-- ===== src/PairRegister/Fifo.antt =====
-- ble/pair_register.cpp: which entry `add` evicts, and what is found after each operation.

use nocturnation_stickc.PairRegister.Find.{
  IsDistinct, find_in-update_first, find_in-append, find_in-set, map_found,
}
use nocturnation_stickc.Prelude.{
  ltb, Bool-cases, length, get_or, All, ℕ, suc, ◌+◌, ◌≤◌, ◌<◌, ◌≡◌, ap, ◌∙◌, inl, inr, List, [],
  ◌∷◌, arith, ◌==◌, ltb→lt, ltb→le, ==_iff, leb, if◌then◌else◌, Option-cases, sym, ◌&&◌, Option,
  none, some,
}
use nocturnation_stickc.PairRegister.{
  RegisterEntry, PairRegister, oldest_entry_from, oldest_idx, zero_entry, find, repaired, add,
  max_entries,
}

-- The scan for the oldest ends at an index of the array whose entry is no younger than any.
oldest_entry_from_least :
    (xs es : List RegisterEntry) (i k : ℕ)
    → length xs ≡ i + length es
    → ((j : ℕ) → get_or es j zero_entry ≡ get_or xs (i + j) zero_entry)
    → k < i
    → ((j : ℕ)
        → j < i
        → (get_or xs k zero_entry).captured_at ≤ (get_or xs j zero_entry).captured_at)
    → let r = oldest_entry_from i k (get_or xs k zero_entry).captured_at es in
      (r < length xs)
      × ((j : ℕ)
          → j < length xs
          → (get_or xs r zero_entry).captured_at ≤ (get_or xs j zero_entry).captured_at)
unfolding oldest_entry_from
oldest_entry_from_least xs [] i k size at below least =
    (omega (arith, size, below), λ j h. least j (omega (arith, h, size)))
oldest_entry_from_least xs (e ∷ es) i k size at below least =
    let here : e ≡ get_or xs i zero_entry = at 0 ∙ ap (λ j. get_or xs j zero_entry) (omega arith) in
    let size' : length xs ≡ i + 1 + length es = omega (arith, size) in
    let at' : (j : ℕ) → get_or es j zero_entry ≡ get_or xs (i + 1 + j) zero_entry =
      λ j. at (suc j) ∙ ap (λ n. get_or xs n zero_entry) (omega arith) in
    let at_i : e.captured_at ≡ (get_or xs i zero_entry).captured_at =
      ap (λ x. x.captured_at) here in
    elim (Bool-cases (ltb e.captured_at (get_or xs k zero_entry).captured_at)) [
      | inl older ↦
          let bound = ltb→lt e.captured_at (get_or xs k zero_entry).captured_at older in
          rw (older, at_i)
            (oldest_entry_from_least xs es (i + 1) i size' at' (omega arith) (λ j h.
              elim (Bool-cases (j == i)) [
                | inl last ↦
                    let same : j ≡ i = (==_iff j i).0 last in rw same (omega (arith, bound, at_i))
                | inr before ↦ omega (arith, least j (ground (arith, before, h)), bound)
              ]))
      | inr younger ↦
          let bound = ltb→le e.captured_at (get_or xs k zero_entry).captured_at younger in
          rw younger (
            oldest_entry_from_least xs es (i + 1) k size' at' (omega (arith, below)) (λ j h.
              elim (Bool-cases (j == i)) [
                | inl last ↦
                    let same : j ≡ i = (==_iff j i).0 last in rw same (omega (arith, bound, at_i))
                | inr before ↦ omega (arith, least j (ground (arith, before, h)), bound)
              ]))
    ]

All-get_or {ℓ κ} :
    {A : Type ℓ} (P : A → Type κ) (xs : List A) (d : A)
    → ((j : ℕ) → j < length xs → P (get_or xs j d))
    → All P xs
All-get_or P [] d h = tt
All-get_or P (x ∷ xs) d h =
    (h 0 (omega arith), All-get_or P xs d (λ j k. h (suc j) (omega (arith, k))))

-- The entry that `add` evicts from a full register.
abbrev pub oldest : List RegisterEntry → RegisterEntry
oldest es = get_or es (oldest_idx es) zero_entry

oldest_least :
    (x : RegisterEntry) (xs : List RegisterEntry)
    → let k = oldest_idx (x ∷ xs) in
      (k < length (x ∷ xs))
      × ((j : ℕ)
          → j < length (x ∷ xs)
          → (get_or (x ∷ xs) k zero_entry).captured_at ≤ (get_or (x ∷ xs) j zero_entry).captured_at)
unfolding oldest_idx
oldest_least x xs =
    oldest_entry_from_least (x ∷ xs) xs 1 0 (omega arith)
      (λ j. ap (λ n. get_or (x ∷ xs) n zero_entry) (let e : suc j ≡ 1 + j = omega arith in e))
      (omega arith) (λ j h. let first : j ≡ 0 = omega (arith, h) in rw first (omega arith))

oldest-IsOldest : (es : List RegisterEntry) → All (λ e. (oldest es).captured_at ≤ e.captured_at) es
oldest-IsOldest [] = tt
oldest-IsOldest (x ∷ xs) =
    All-get_or (λ e. (oldest (x ∷ xs)).captured_at ≤ e.captured_at) (x ∷ xs) zero_entry
      (oldest_least x xs).1

oldest_idx_range : (es : List RegisterEntry) → 0 < length es → oldest_idx es < length es
oldest_idx_range [] h = absurd (omega (arith, h))
oldest_idx_range (x ∷ xs) h = (oldest_least x xs).0

-- What a search finds after `add new`: the new entry, at its old place in the order if the uid was
-- known; the others as before, but for the oldest of a full register if the uid was not.
abbrev pub found_after_add : ℕ → RegisterEntry → PairRegister → Option RegisterEntry
found_after_add u new r = elim (find new.uid r) [
  | some e ↦ if u == new.uid then some (repaired new e) else find u r
  | none ↦
      if u == new.uid
      then some (record new { captured_at = r.next_sequence_val })
      else if leb max_entries (length r.entries) && u == (oldest r.entries).uid
      then none
      else find u r
]

-- On distinct uids a search after `add` finds what the map of uids to entries says, and the entry that a
-- full register loses is one that no entry was captured before.
pub find-add :
    (u : ℕ) (new : RegisterEntry) (r : PairRegister)
    → IsDistinct r.entries
    → (find u (add new r) ≡ found_after_add u new r)
      × All (λ e. (oldest r.entries).captured_at ≤ e.captured_at) r.entries
unfolding find add
find-add u new r d = (
  elim (Option-cases (find new.uid r)) [
    | inr (e, known) ↦
        rw (add, found_after_add, known)
          (find_in-update_first u new.uid (repaired new) r.entries
              (λ x same. sym ((==_iff x.uid new.uid).0 same))
            ∙ map_found u new.uid (repaired new) r.entries e known)
    | inl fresh ↦ elim (Bool-cases (leb max_entries (length r.entries))) [
      | inl full ↦
          rw (add, found_after_add, fresh, full)
            (find_in-set u r.entries (oldest_idx r.entries)
              (record new { captured_at = r.next_sequence_val })
              (oldest_idx_range r.entries (ground (arith, full))) d fresh)
      | inr room ↦
          rw (add, found_after_add, fresh, room)
            (find_in-append u r.entries (record new { captured_at = r.next_sequence_val }) fresh)
    ]
  ],
  oldest-IsOldest r.entries,
)
