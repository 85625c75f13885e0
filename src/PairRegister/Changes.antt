-- ===== src/PairRegister/Changes.antt =====
-- ble/pair_register.cpp: what is found after `remove`, `mark_configured` and `update_snapshot`.
use nocturnation_stickc.Prelude.{
  ◌==◌, if◌then◌else◌, ==_iff, Bool-cases, Option-cases, ℕ, ◌≡◌, refl, ap, ◌∙◌, inl, inr, Bool,
  true, false, none, some,
}
use nocturnation_stickc.PairRegister.Find.{IsDistinct, find_in-update_first, find_in-remove_first}
use nocturnation_stickc.PairRegister.{
  RegisterEntry, ConfigSnapshot, PairRegister, find, remove, mark_configured, update_snapshot,
  with_snapshot, marked_at,
}
use mathlib.Core.Option

-- The uid is registered.
abbrev pub is_known : ℕ → PairRegister → Bool
is_known v r = elim (find v r) [ some _ ↦ true | none ↦ false ]

none_found :
    (u v : ℕ) (f : RegisterEntry → RegisterEntry) (r : PairRegister)
    → find v r ≡ none
    → find u r ≡ (if u == v then Option.map f (find u r) else find u r)
none_found u v f r h = elim (Bool-cases (u == v)) [
  | inl same ↦
      let at : find u r ≡ none = ap (λ k. find k r) ((==_iff u v).0 same) ∙ h in rw (same, at) refl
  | inr other ↦ rw other refl
]

none_removed :
    (u v : ℕ) (r : PairRegister) → find v r ≡ none → find u r ≡ (if u == v then none else find u r)
none_removed u v r h = elim (Bool-cases (u == v)) [
  | inl same ↦ rw same (ap (λ k. find k r) ((==_iff u v).0 same) ∙ h)
  | inr other ↦ rw other refl
]

module _ (u v : ℕ) (r : PairRegister) where
  remove_found :
      IsDistinct r.entries
      → ((remove v r).0 ≡ is_known v r)
        × (find u (remove v r).1 ≡ (if u == v then none else find u r))
  unfolding find remove
  remove_found d = elim (Option-cases (find v r)) [
    | inl unknown ↦ rw (remove, is_known, unknown) (refl, none_removed u v r unknown)
    | inr (e, known) ↦ rw (remove, is_known, known) (refl, find_in-remove_first u v r.entries d)
  ]

  mark_found :
      ((mark_configured v r).0 ≡ is_known v r)
      × (find u (mark_configured v r).1
          ≡ (if u == v then Option.map (marked_at r.next_sequence_val) (find u r) else find u r))
  unfolding find mark_configured
  mark_found = elim (Option-cases (find v r)) [
    | inl unknown ↦
        rw (mark_configured, is_known, unknown)
          (refl, none_found u v (marked_at r.next_sequence_val) r unknown)
    | inr (e, known) ↦
        rw (mark_configured, is_known, known)
          (
            refl,
            find_in-update_first u v (marked_at r.next_sequence_val) r.entries (λ x same. refl),
          )
  ]

  snapshot_found :
      (s : ConfigSnapshot)
      → ((update_snapshot v s r).0 ≡ is_known v r)
        × (find u (update_snapshot v s r).1 ≡ (
            if u == v
            then Option.map (with_snapshot s r.next_sequence_val) (find u r)
            else find u r))
  unfolding find update_snapshot
  snapshot_found s = elim (Option-cases (find v r)) [
    | inl unknown ↦
        rw (update_snapshot, is_known, unknown)
          (refl, none_found u v (with_snapshot s r.next_sequence_val) r unknown)
    | inr (e, known) ↦
        rw (update_snapshot, is_known, known)
          (
            refl,
            find_in-update_first u v (with_snapshot s r.next_sequence_val) r.entries
                (λ x same. refl),
          )
  ]

-- On distinct uids `remove`, `mark_configured` and `update_snapshot` tell whether the uid `v` is registered; a search
-- afterwards finds nothing under a removed uid, the entry with the new write stamp (and snapshot) under a changed one, and
-- what it found before under all others, so an unknown uid changes nothing.
pub find-changes :
    (u v : ℕ) (s : ConfigSnapshot) (r : PairRegister)
    → IsDistinct r.entries
    → (((remove v r).0 ≡ is_known v r)
        × (find u (remove v r).1 ≡ (if u == v then none else find u r)))
      × (((mark_configured v r).0 ≡ is_known v r)
          × (find u (mark_configured v r).1 ≡ (
              if u == v then Option.map (marked_at r.next_sequence_val) (find u r) else find u r)))
      × (((update_snapshot v s r).0 ≡ is_known v r)
          × (find u (update_snapshot v s r).1 ≡ (
              if u == v
              then Option.map (with_snapshot s r.next_sequence_val) (find u r)
              else find u r)))
find-changes u v s r d = (remove_found u v r d, mark_found u v r, snapshot_found u v r s)
