-- ===== src/Numonce/Target.antt =====
-- numonce_lru.cpp: the slot for a new source.
use nocturnation_stickc.Numonce.Guard.{index_where-holds}
use nocturnation_stickc.Prelude.{
  ltb, ltb→lt, ltb→le, Bool-cases, Option-cases, length, drop, All, ℕ, zero, suc, ◌+◌, ◌≤◌, ◌<◌,
  ◌≡◌, refl, ap, ◌⊎◌, inl, inr, false, not, List, [], ◌∷◌, arith, sym, subst, true,
}
use nocturnation_stickc.Numonce.{Slot, slot_at, oldest_from, target_slot, index_where}

-- The slot at `r` was accessed no later than any of `ss`.
abbrev pub Eldest : List Slot → ℕ → List Slot → Type 0
Eldest full r ss = All (λ s. (slot_at full r).last_accessed ≤ s.last_accessed) ss

drop-cons :
    (full : List Slot) (i : ℕ) (s : Slot) (ss : List Slot)
    → drop i full ≡ s ∷ ss
    → (slot_at full i ≡ s) × (drop (i + 1) full ≡ ss)
drop-cons [] zero s ss e = absurd (cc)
drop-cons [] (suc i) s ss e = absurd (cc)
drop-cons (f ∷ full) zero s ss e = (cc, cc)
drop-cons (f ∷ full) (suc i) s ss e =
    let (at, rest) = drop-cons full i s ss e in
    let shift : suc i + 1 ≡ suc (i + 1) = omega arith in (at, rw shift rest)

oldest_from_older :
    (s : Slot) (ss : List Slot) (i oldest target : ℕ)
    → ltb s.last_accessed oldest ≡ true
    → oldest_from i oldest target (s ∷ ss) ≡ oldest_from (i + 1) s.last_accessed i ss
unfolding oldest_from
oldest_from_older s ss i oldest target h = rw h

oldest_from_newer :
    (s : Slot) (ss : List Slot) (i oldest target : ℕ)
    → ltb s.last_accessed oldest ≡ false
    → oldest_from i oldest target (s ∷ ss) ≡ oldest_from (i + 1) oldest target ss
unfolding oldest_from
oldest_from_newer s ss i oldest target h = rw h

-- What the loop has found, at `r`, among the slots seen and the `ss` to come.
abbrev Found : List Slot → ℕ → ℕ → List Slot → ℕ → Type 0
Found full bound oldest ss r =
    (r < bound) × ((slot_at full r).last_accessed ≤ oldest) × Eldest full r ss

oldest_from-Found :
    (ss full : List Slot) (i oldest target : ℕ)
    → drop i full ≡ ss
    → target < i
    → (slot_at full target).last_accessed ≡ oldest
    → Found full (i + length ss) oldest ss (oldest_from i oldest target ss)
oldest_from-Found [] full i oldest target e below at =
    unfold oldest_from in (omega arith, omega arith, tt)
oldest_from-Found (s ∷ ss) full i oldest target e below at =
    let (here, rest) = drop-cons full i s ss e in
    let here_time : (slot_at full i).last_accessed ≡ s.last_accessed =
      ap (λ x. x.last_accessed) here in
    elim (Bool-cases (ltb s.last_accessed oldest)) [
      | inl older ↦
          let (bound, small, all) =
            oldest_from-Found ss full (i + 1) s.last_accessed i rest (omega arith) here_time in
          let less = ltb→lt s.last_accessed oldest older in
          subst (Found full (i + suc (length ss)) oldest (s ∷ ss))
            (sym (oldest_from_older s ss i oldest target older))
            (omega arith, omega arith, (small, all))
      | inr newer ↦
          let (bound, small, all) =
            oldest_from-Found ss full (i + 1) oldest target rest (omega arith) at in
          let more = ltb→le s.last_accessed oldest newer in
          subst (Found full (i + suc (length ss)) oldest (s ∷ ss))
            (sym (oldest_from_newer s ss i oldest target newer))
            (omega arith, omega arith, (omega arith, all))
    ]

-- Slot `r` is free, or was accessed no later than any slot.
abbrev pub Replaceable : List Slot → ℕ → Type 0
Replaceable slots r =
    ((r < length slots) × ((slot_at slots r).valid ≡ false))
    ⊎ ((r < length slots) × Eldest slots r slots)

pub target_slot-Replaceable :
    (slots : List Slot) → 0 < length slots → Replaceable slots (target_slot slots)
target_slot-Replaceable [] h = absurd (omega arith)
target_slot-Replaceable (s ∷ ss) h = elim (Option-cases (index_where (λ s. not s.valid) (s ∷ ss))) [
  | inl full ↦
      let e : target_slot (s ∷ ss) ≡ oldest_from 1 s.last_accessed 0 ss =
        unfold target_slot in rw (full, target_slot) in
      let (bound, small, all) =
        oldest_from-Found ss (s ∷ ss) 1 s.last_accessed 0 refl (omega arith) refl in
      subst (Replaceable (s ∷ ss)) (sym e) (inr (omega arith, (small, all)))
  | inr (i, free) ↦
      let e : target_slot (s ∷ ss) ≡ i = unfold target_slot in rw (free, target_slot) in
      let (below, found) = index_where-holds (λ s. not s.valid) (s ∷ ss) i free in
      subst (Replaceable (s ∷ ss)) (sym e) (inl (below, ground arith))
]
