-- ===== src/Numonce/Replay.antt =====
-- numonce_lru.cpp: a replayed numonce after a history of calls.
use nocturnation_stickc.Numonce.Retention.{check-IsKept}
use nocturnation_stickc.Numonce.Guard.{
  index_where-holds, index_where-set_self, index_where-set_first, accepts_iff,
}
use nocturnation_stickc.Numonce.Target.{target_slot-Replaceable}
use nocturnation_stickc.Numonce.History.{
  count_since-set, IsStamped, IsKept, run, check_cases, next_tick, updated, entered,
  count_since_none,
}
use nocturnation_stickc.Prelude.{
  Bool-cases, Option-cases, length, set, All, length-set, get_or-set_self, ℕ, zero, suc, ◌+◌, ◌^◌,
  ◌≤◌, ◌<◌, ◌≡◌, refl, ◌∙◌, ◌⊎◌, inl, inr, true, false, none, some, List, [], ◌∷◌, arith,
}
use nocturnation_stickc.Numonce.{
  Slot, NumonceLru, check_and_update, index_where, slot_count, holds, last_seen_for, fresh_table,
  slot_at, empty_slot, target_slot,
}

tick_le : (l : NumonceLru) (r m : ℕ) → (check_and_update l r m).0.tick ≤ l.tick + 1
tick_le l r m =
    check_cases (λ x. x.tick ≤ l.tick + 1) l r m (omega arith) (omega arith) (λ j e h. omega arith)
      (λ e. omega arith)

All-set :
    (t : ℕ) (slots : List Slot) (i : ℕ) (v : Slot)
    → All (λ s. s.last_accessed ≤ t) slots
    → v.last_accessed ≤ t
    → All (λ s. s.last_accessed ≤ t) (set slots i v)
All-set t [] i v all h = tt
All-set t (s ∷ ss) zero v all h = (h, all.1)
All-set t (s ∷ ss) (suc i) v all h = (all.0, All-set t ss i v all.1 h)

All-later :
    (t u : ℕ) (slots : List Slot)
    → t ≤ u
    → All (λ s. s.last_accessed ≤ t) slots
    → All (λ s. s.last_accessed ≤ u) slots
All-later t u [] h all = tt
All-later t u (s ∷ ss) h all = (omega arith, All-later t u ss h all.1)

check-IsStamped :
    (l : NumonceLru) (r m : ℕ)
    → l.tick + 1 < 2 ^ 32
    → IsStamped l
    → IsStamped (check_and_update l r m).0
check-IsStamped l r m early v =
    let T = next_tick l in
    let grown : All (λ s. s.last_accessed ≤ T) l.slots =
      All-later l.tick T l.slots (omega arith) v.past in
    check_cases IsStamped l r m v (record { size = v.size; past = grown })
      (λ j e h.
        let slot : Slot = record (slot_at l.slots j) { last_seen = m; last_accessed = T } in
        record {
          size = length-set l.slots j slot ∙ v.size;
          past = All-set T l.slots j slot grown (omega arith);
        })
      (λ e.
        let slot : Slot = record {
          source_id = r;
          last_seen = m;
          last_accessed = T;
          valid = true;
        } in
        record {
          size = length-set l.slots (target_slot l.slots) slot ∙ v.size;
          past = All-set T l.slots (target_slot l.slots) slot grown (omega arith);
        })

run-IsStamped :
    (calls : List (ℕ × ℕ)) (l : NumonceLru)
    → l.tick + length calls < 2 ^ 32
    → IsStamped l
    → IsStamped (run l calls) × ((run l calls).tick ≤ l.tick + length calls)
unfolding run
run-IsStamped [] l early v = (v, omega arith)
run-IsStamped ((r, m) ∷ calls) l early v =
    let slower = tick_le l r m in
    let (w, t) =
      run-IsStamped calls (check_and_update l r m).0 (omega arith)
        (check-IsStamped l r m (omega arith) v) in
    (w, omega arith)

run-IsKept :
    (calls : List (ℕ × ℕ)) (s n a c : ℕ) (l : NumonceLru)
    → c + length calls ≤ slot_count
    → l.tick + length calls < 2 ^ 32
    → IsKept s n a c l
    → IsKept s n a (c + length calls) (run l calls)
unfolding run
run-IsKept [] s n a c l few early k = let e : c + 0 ≡ c = omega arith in rw e k
run-IsKept ((r, m) ∷ calls) s n a c l few early k =
    let slower = tick_le l r m in
    let e : c + suc (length calls) ≡ c + 1 + length calls = omega arith in
    rw e (
      run-IsKept calls s n a (c + 1) (check_and_update l r m).0 (omega arith) (omega arith)
        (check-IsKept s n a c l k r m (omega arith) (omega arith)))

-- What an accepted call has stored.
accepted_cases :
    (l : NumonceLru) (s n : ℕ)
    → (check_and_update l s n).1 ≡ true
    → ((j : ℕ) × (index_where (holds s) l.slots ≡ some j)
        × ((check_and_update l s n).0 ≡ updated l j n))
      ⊎ ((index_where (holds s) l.slots ≡ none) × ((check_and_update l s n).0 ≡ entered l s n))
unfolding check_and_update
accepted_cases l s n h = elim (Option-cases (index_where (holds s) l.slots)) [
  | inl e ↦ inr (e, ground (arith, e))
  | inr (j, e) ↦ inl (j, e, ground (arith, e))
]

stored-IsKept :
    (l : NumonceLru) (s n j : ℕ) (v : Slot)
    → IsStamped l
    → l.tick + 1 < 2 ^ 32
    → j < length l.slots
    → index_where (holds s) (set l.slots j v) ≡ some j
    → v.last_seen ≡ n
    → v.last_accessed ≡ next_tick l
    → IsKept s n (next_tick l) 1 (record { slots = set l.slots j v; tick = next_tick l })
stored-IsKept l s n j v w early below found seen time =
    let here = get_or-set_self l.slots j v empty_slot below in
    record {
      at = j;
      size = length-set l.slots j v ∙ w.size;
      found = found;
      high = rw here (omega arith);
      recent = rw here (omega arith);
      few = omega (
        arith,
        count_since-set (next_tick l) l.slots j v,
        count_since_none (next_tick l) l.tick l.slots w.past (omega arith),
      );
      time = omega arith;
    }

accepted-IsKept :
    (l : NumonceLru) (s n : ℕ)
    → IsStamped l
    → l.tick + 1 < 2 ^ 32
    → (check_and_update l s n).1 ≡ true
    → IsKept s n (next_tick l) 1 (check_and_update l s n).0
accepted-IsKept l s n w early h = elim (accepted_cases l s n h) [
  | inl (j, e, z) ↦
      let (below, mine) = index_where-holds (holds s) l.slots j e in
      let v = record (slot_at l.slots j) { last_seen = n; last_accessed = next_tick l } in
      rw z (
        stored-IsKept l s n j v w early below (index_where-set_self (holds s) l.slots j v e mine)
          refl refl)
  | inr (e, z) ↦
      let v : Slot = record {
        source_id = s;
        last_seen = n;
        last_accessed = next_tick l;
        valid = true;
      } in
      let below : target_slot l.slots < length l.slots =
        elim (target_slot-Replaceable l.slots (omega (arith, w.size))) [
          | inl r ↦ r.0
          | inr r ↦ r.0
        ] in
      rw z (
        stored-IsKept l s n (target_slot l.slots) v w early below
          (index_where-set_first (holds s) l.slots (target_slot l.slots) v e below (ground arith))
          refl refl)
]

kept_refuses :
    (s n a c : ℕ) (l : NumonceLru) (m : ℕ)
    → IsKept s n a c l
    → m ≤ n
    → (check_and_update l s m).1 ≡ false
kept_refuses s n a c l m k h = elim (Bool-cases (check_and_update l s m).1) [
  | inr refused ↦ refused
  | inl accepted ↦
      let low : last_seen_for l s < m = (accepts_iff l s m).0 accepted in
      let e : last_seen_for l s ≡ (slot_at l.slots k.at).last_seen =
        unfold last_seen_for in rw (k.found, last_seen_for) in
      absurd (omega (arith, k.high))
]

-- In a table that starts empty, after any history `before` and then an accepted numonce `n` of source
-- `s`, a numonce of `s` up to `n` is refused through any fifteen further calls, while the 32-bit tick
-- does not wrap.
pub replay_refused :
    (before after : List (ℕ × ℕ)) (s n m : ℕ)
    → length before + length after + 2 < 2 ^ 32
    → length after < slot_count
    → m ≤ n
    → (check_and_update (run fresh_table before) s n).1 ≡ true
    → (check_and_update (run (check_and_update (run fresh_table before) s n).0 after) s m).1 ≡ false
replay_refused before after s n m early few small accepted =
    let start : IsStamped fresh_table = record { size = refl; past = omega arith } in
    let (w, t) = run-IsStamped before fresh_table (omega arith) start in
    let l = run fresh_table before in
    let slower = tick_le l s n in
    let k = accepted-IsKept l s n w (omega arith) accepted in
    kept_refuses s n (next_tick l) (1 + length after) _ m
      (run-IsKept after s n (next_tick l) 1 (check_and_update l s n).0 (omega arith) (omega arith)
        k)
      small
