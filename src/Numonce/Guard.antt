-- ===== src/Numonce/Guard.antt =====
-- numonce_lru.cpp: one call of `check_and_update` against the numonce on record.
use nocturnation_stickc.Prelude.{
  Bool-cases, Option-cases, length, set, ℕ, zero, suc, ◌<◌, ◌≡◌, ◌↔◌, inl, inr, Bool, true, some,
  List, [], ◌∷◌, arith, sym, ap, ◌∙◌, ◌≢◌, ◌⊎◌, false, Option, none,
}
use nocturnation_stickc.Numonce.{
  Slot, NumonceLru, check_and_update, index_where, last_seen_for, slot_at,
}

-- A numonce is accepted exactly if it is greater than the last one on record for its source, which is
-- 0 for a source with no slot.
pub accepts_iff :
    (l : NumonceLru) (source_id numonce : ℕ)
    → ((check_and_update l source_id numonce).1 ≡ true) ↔ (last_seen_for l source_id < numonce)
unfolding check_and_update last_seen_for
accepts_iff l source_id numonce = ground arith

none_ne : {i : ℕ} → ◌≢◌ {A = Option ℕ} none (some i)
none_ne e = cc

module _ (test : Slot → Bool) where
  index_where-cons :
      (s : Slot) (ss : List Slot) (i : ℕ)
      → index_where test (s ∷ ss) ≡ some i
      → ((test s ≡ true) × (i ≡ 0))
        ⊎ ((j : ℕ) × (test s ≡ false) × (i ≡ suc j) × (index_where test ss ≡ some j))
  unfolding index_where
  index_where-cons s ss i e = elim (Bool-cases (test s)) [
    | inl yes_s ↦ inl (yes_s, ground (arith, yes_s))
    | inr no_s ↦ elim (Option-cases (index_where test ss)) [
      | inl nowhere ↦ absurd (ground (arith, no_s, nowhere))
      | inr (j, at) ↦ inr (j, no_s, ground (arith, no_s, at), at)
    ]
  ]

  index_where-skip :
      (s : Slot) (ss : List Slot) (j : ℕ)
      → test s ≡ false
      → index_where test ss ≡ some j
      → index_where test (s ∷ ss) ≡ some (suc j)
  unfolding index_where
  index_where-skip s ss j h e = rw (h, e)

  index_where-stop :
      (s : Slot) (ss : List Slot) → test s ≡ true → index_where test (s ∷ ss) ≡ some 0
  unfolding index_where
  index_where-stop s ss h = rw h

  -- The slot found has the property.
  pub index_where-holds :
      (slots : List Slot) (i : ℕ)
      → index_where test slots ≡ some i
      → (i < length slots) × (test (slot_at slots i) ≡ true)
  index_where-holds [] i e = unfold index_where in cc
  index_where-holds (s ∷ ss) i e = elim (index_where-cons s ss i e) [
    | inl (yes_s, z) ↦ rw z (omega arith, yes_s)
    | inr (j, _, z, at) ↦
        let (below, found) = index_where-holds ss j at in rw z (omega arith, found)
  ]

  -- A store at the slot found that keeps the property.
  pub index_where-set_self :
      (slots : List Slot) (i : ℕ) (v : Slot)
      → index_where test slots ≡ some i
      → test v ≡ true
      → index_where test (set slots i v) ≡ some i
  index_where-set_self [] i v e h = unfold index_where in cc
  index_where-set_self (s ∷ ss) i v e h = elim (index_where-cons s ss i e) [
    | inl (_, z) ↦ rw z (index_where-stop v ss h)
    | inr (j, no_s, z, at) ↦
        rw z (index_where-skip s (set ss j v) j no_s (index_where-set_self ss j v at h))
  ]

  -- A store elsewhere of a slot without the property.
  pub index_where-set_ne :
      (slots : List Slot) (i t : ℕ) (v : Slot)
      → index_where test slots ≡ some i
      → t ≢ i
      → test v ≡ false
      → index_where test (set slots t v) ≡ some i
  index_where-set_ne [] i t v e ne h = e
  index_where-set_ne (s ∷ ss) i zero v e ne h = elim (index_where-cons s ss i e) [
    | inl (_, z) ↦ absurd (ne (sym z))
    | inr (j, _, z, at) ↦ rw z (index_where-skip v ss j h at)
  ]
  index_where-set_ne (s ∷ ss) i (suc t) v e ne h = elim (index_where-cons s ss i e) [
    | inl (yes_s, z) ↦ rw z (index_where-stop s (set ss t v) yes_s)
    | inr (j, no_s, z, at) ↦ rw z (
        index_where-skip s (set ss t v) j no_s
          (index_where-set_ne ss j t v at (λ q. ne (ap suc q ∙ sym z)) h))
  ]

  -- A store of the first slot with the property.
  pub index_where-set_first :
      (slots : List Slot) (t : ℕ) (v : Slot)
      → index_where test slots ≡ none
      → t < length slots
      → test v ≡ true
      → index_where test (set slots t v) ≡ some t
  index_where-set_first [] t v e below h = elim below [ ]
  index_where-set_first (s ∷ ss) zero v e below h = index_where-stop v ss h
  index_where-set_first (s ∷ ss) (suc t) v e below h = elim (Bool-cases (test s)) [
    | inl yes_s ↦ absurd (none_ne (sym e ∙ index_where-stop s ss yes_s))
    | inr no_s ↦ elim (Option-cases (index_where test ss)) [
      | inl nowhere ↦
          index_where-skip s (set ss t v) t no_s
            (index_where-set_first ss t v nowhere (omega arith) h)
      | inr (j, at) ↦ absurd (none_ne (sym e ∙ index_where-skip s ss j no_s at))
    ]
  ]
