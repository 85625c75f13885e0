-- ===== src/Numonce/Retention.antt =====
-- numonce_lru.cpp: a slot that is kept while other sources are heard.
use nocturnation_stickc.Numonce.Guard.{index_where-holds, index_where-set_self, index_where-set_ne}
use nocturnation_stickc.Numonce.History.{
  count_since-set, IsKept, target-ne, next_tick, check_cases, updated,
}
use nocturnation_stickc.Prelude.{
  ◌==◌, ==_iff, Bool-cases, set, length-set, get_or-set_self, get_or-set_ne, ℕ, ◌+◌, ◌^◌, ◌≤◌, ◌<◌,
  ◌≡◌, ◌∙◌, ◌≢◌, inl, inr, true, false, arith, sym, subst, none, some,
}
use nocturnation_stickc.Numonce.{
  Slot, NumonceLru, holds, slot_count, empty_slot, check_and_update, slot_at, target_slot,
  index_where,
}

module _ (s n a c : ℕ) (l : NumonceLru) (k : IsKept s n a c l) where
  -- A call that stores nothing.
  waited : (T : ℕ) → a ≤ T → IsKept s n a (c + 1) (record l { tick = T })
  waited T h = record {
    at = k.at;
    size = k.size;
    found = k.found;
    high = k.high;
    recent = k.recent;
    few = omega arith;
    time = h;
  }

  -- A store in another slot, of another source.
  stored_ne :
      (t T : ℕ) (v : Slot)
      → t ≢ k.at
      → holds s v ≡ false
      → a ≤ T
      → IsKept s n a (c + 1) (record { slots = set l.slots t v; tick = T })
  stored_ne t T v ne other h =
      let same = get_or-set_ne l.slots t k.at v empty_slot ne in
      record {
        at = k.at;
        size = length-set l.slots t v ∙ k.size;
        found = index_where-set_ne (holds s) l.slots k.at t v k.found ne other;
        high = rw same k.high;
        recent = rw same k.recent;
        few = omega (arith, count_since-set a l.slots t v);
        time = h;
      }

  -- A store in the slot of the source itself.
  stored_self :
      (T : ℕ) (v : Slot)
      → holds s v ≡ true
      → n ≤ v.last_seen
      → a ≤ v.last_accessed
      → a ≤ T
      → IsKept s n a (c + 1) (record { slots = set l.slots k.at v; tick = T })
  stored_self T v mine hn ha h =
      let (below, _) = index_where-holds (holds s) l.slots k.at k.found in
      let same = get_or-set_self l.slots k.at v empty_slot below in
      record {
        at = k.at;
        size = length-set l.slots k.at v ∙ k.size;
        found = index_where-set_self (holds s) l.slots k.at v k.found mine;
        high = rw same hn;
        recent = rw same ha;
        few = omega (arith, count_since-set a l.slots k.at v);
        time = h;
      }

  -- A call of the source itself that is accepted.
  known_self :
      (j m : ℕ)
      → index_where (holds s) l.slots ≡ some j
      → (slot_at l.slots j).last_seen < m
      → a ≤ next_tick l
      → IsKept s n a (c + 1) (updated l j m)
  known_self j m e newer later =
      let (_, held) = index_where-holds (holds s) l.slots k.at k.found in
      let found = k.found in
      let z : j ≡ k.at = cc in
      let newer' : (slot_at l.slots k.at).last_seen < m =
        subst (λ x. (slot_at l.slots x).last_seen < m) z newer in
      subst (λ x. IsKept s n a (c + 1) (updated l x m)) (sym z)
        (stored_self (next_tick l)
          (record (slot_at l.slots k.at) { last_seen = m; last_accessed = next_tick l }) held
          (omega (arith, k.high)) later later)

  -- A call of another source on record.
  known_other :
      (r j m : ℕ)
      → (r == s) ≡ false
      → index_where (holds r) l.slots ≡ some j
      → a ≤ next_tick l
      → IsKept s n a (c + 1) (updated l j m)
  known_other r j m other e later =
      let (_, mine) = index_where-holds (holds r) l.slots j e in
      let (_, held) = index_where-holds (holds s) l.slots k.at k.found in
      stored_ne j (next_tick l)
        (record (slot_at l.slots j) { last_seen = m; last_accessed = next_tick l })
        (λ z. absurd (ground (arith, held, subst (λ x. holds r (slot_at l.slots x) ≡ true) z mine)))
        (ground (arith, mine)) later

  not_fresh : (r : ℕ) → index_where (holds r) l.slots ≡ none → (r == s) ≡ false
  not_fresh r e = elim (Bool-cases (r == s)) [
    | inl same ↦
        let found = k.found in
        let e' : index_where (holds s) l.slots ≡ none =
          subst (λ x. index_where (holds x) l.slots ≡ none) ((==_iff r s).0 same) e in
        absurd cc
    | inr other ↦ other
  ]

  pub check-IsKept :
      (r m : ℕ)
      → c < slot_count
      → l.tick + 1 < 2 ^ 32
      → IsKept s n a (c + 1) (check_and_update l r m).0
  check-IsKept r m few early =
      let later : a ≤ next_tick l = omega (arith, k.time) in
      check_cases (IsKept s n a (c + 1)) l r m (waited l.tick k.time) (waited (next_tick l) later)
        (λ j e newer. elim (Bool-cases (r == s)) [
          | inl same ↦
              known_self j m
                (subst (λ x. index_where (holds x) l.slots ≡ some j) ((==_iff r s).0 same) e) newer
                later
          | inr other ↦ known_other r j m other e later
        ])
        (λ e.
          stored_ne (target_slot l.slots) (next_tick l)
            (record { source_id = r; last_seen = m; last_accessed = next_tick l; valid = true })
            (target-ne s n a c l k few) (not_fresh r e) later)
