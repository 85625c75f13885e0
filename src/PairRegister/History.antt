-- ===== src/PairRegister/History.antt =====
-- ble/pair_register.cpp: what holds of a register after any sequence of operations.
use nocturnation_stickc.Prelude.{
  ◌==◌, Bool-cases, length, set, All, ℕ, zero, suc, ◌≤◌, ◌<◌, ◌≡◌, refl, ap, ◌⊎◌, inl, inr, List,
  [], ◌∷◌, ◌++◌, arith, leb, ==_iff, Option-cases, length-append, length-set, sym, true,
}
use nocturnation_stickc.PairRegister.Find.{
  IsDistinct, update_first-IsDistinct, remove_first-IsDistinct, append-IsDistinct, set-IsDistinct,
}
use nocturnation_stickc.PairRegister.{
  RegisterEntry, ConfigSnapshot, PairRegister, add, max_entries, update_first, remove_first,
  after_next, mark_configured, update_snapshot, remove, clear_in_memory, find, marked_at,
  with_snapshot, repaired, oldest_idx,
}

pub data Op : Type 0 where
  added : RegisterEntry → Op
  removed : ℕ → Op
  configured : ℕ → Op
  snapshotted : ℕ → ConfigSnapshot → Op
  cleared : Op

unfoldable pub apply : Op → PairRegister → PairRegister
apply (added new) r = add new r
apply (removed uid) r = (remove uid r).1
apply (configured uid) r = (mark_configured uid r).1
apply (snapshotted uid s) r = (update_snapshot uid s r).1
apply cleared r = clear_in_memory

unfoldable pub run : PairRegister → List Op → PairRegister
run r [] = r
run r (op ∷ ops) = run (apply op r) ops

-- An entry captured before the next one, until the sequence stops at its cap; 0 is never a capture.
abbrev pub IsCaptured : ℕ → RegisterEntry → Type 0
IsCaptured next e = (0 < e.captured_at) × ((e.captured_at < next) ⊎ (next ≡ 0xFFFFFFF0))

-- No more entries than slots, no uid twice, a sequence from 1 to its cap, and captures before it.
pub record IsRegister (r : PairRegister) : Type 0 where
  pub size : length r.entries ≤ max_entries
  pub distinct : IsDistinct r.entries
  pub sequence : (0 < r.next_sequence_val) × (r.next_sequence_val ≤ 0xFFFFFFF0)
  pub captures : All (IsCaptured r.next_sequence_val) r.entries

length-update_first :
    (v : ℕ) (f : RegisterEntry → RegisterEntry) (es : List RegisterEntry)
    → length (update_first v f es) ≡ length es
unfolding update_first
length-update_first v f [] = refl
length-update_first v f (e ∷ es) = elim (Bool-cases (e.uid == v)) [
  | inl here ↦ rw here refl
  | inr later_on ↦ rw later_on (ap suc (length-update_first v f es))
]

length-remove_first : (v : ℕ) (es : List RegisterEntry) → length (remove_first v es) ≤ length es
unfolding remove_first
length-remove_first v [] = omega arith
length-remove_first v (e ∷ es) = elim (Bool-cases (e.uid == v)) [
  | inl here ↦ rw here (omega arith)
  | inr later_on ↦ rw later_on (omega (arith, length-remove_first v es))
]

module _ (P Q : RegisterEntry → Type 0) (weaken : (e : RegisterEntry) → P e → Q e) where
  All-weaken : (es : List RegisterEntry) → All P es → All Q es
  All-weaken [] h = tt
  All-weaken (e ∷ es) h = (weaken e h.0, All-weaken es h.1)

  All-update_first :
      (v : ℕ) (f : RegisterEntry → RegisterEntry) (es : List RegisterEntry)
      → ((e : RegisterEntry) → P e → Q (f e))
      → All P es
      → All Q (update_first v f es)
  unfolding update_first
  All-update_first v f [] change h = tt
  All-update_first v f (e ∷ es) change h = elim (Bool-cases (e.uid == v)) [
    | inl here ↦ rw here (change e h.0, All-weaken es h.1)
    | inr later_on ↦ rw later_on (weaken e h.0, All-update_first v f es change h.1)
  ]

  All-remove_first : (v : ℕ) (es : List RegisterEntry) → All P es → All Q (remove_first v es)
  unfolding remove_first
  All-remove_first v [] h = tt
  All-remove_first v (e ∷ es) h = elim (Bool-cases (e.uid == v)) [
    | inl here ↦ rw here (All-weaken es h.1)
    | inr later_on ↦ rw later_on (weaken e h.0, All-remove_first v es h.1)
  ]

  All-set :
      (es : List RegisterEntry) (i : ℕ) (new : RegisterEntry)
      → Q new
      → All P es
      → All Q (set es i new)
  All-set [] i new q h = tt
  All-set (e ∷ es) zero new q h = (q, All-weaken es h.1)
  All-set (e ∷ es) (suc i) new q h = (weaken e h.0, All-set es i new q h.1)

  All-snoc :
      (es : List RegisterEntry) (new : RegisterEntry) → Q new → All P es → All Q (es ++ new ∷ [])
  All-snoc [] new q h = (q, tt)
  All-snoc (e ∷ es) new q h = (weaken e h.0, All-snoc es new q h.1)

after_next_range :
    (v : ℕ) → 0 < v → v ≤ 0xFFFFFFF0 → (0 < after_next v) × (after_next v ≤ 0xFFFFFFF0)
unfolding after_next
after_next_range v low high = (ground arith, ground arith)

-- The sequence goes on, or stays at its cap.
IsCaptured-after_next :
    (v : ℕ) (e : RegisterEntry) → v ≤ 0xFFFFFFF0 → IsCaptured v e → IsCaptured (after_next v) e
unfolding after_next
IsCaptured-after_next v e high (some_capture, order) = (some_capture, ground (arith, order))

newest :
    (v : ℕ) (new : RegisterEntry)
    → 0 < v
    → v ≤ 0xFFFFFFF0
    → IsCaptured (after_next v) (record new { captured_at = v })
unfolding after_next
newest v new low high = (low, ground arith)

module _ (r : PairRegister) (h : IsRegister r) where
  -- A change of one entry that keeps its uid and its capture.
  update-IsRegister :
      (v next : ℕ) (f : RegisterEntry → RegisterEntry)
      → ((e : RegisterEntry) → (e.uid == v) ≡ true → (f e).uid ≡ e.uid)
      → ((e : RegisterEntry) → (f e).captured_at ≡ e.captured_at)
      → (0 < next) × (next ≤ 0xFFFFFFF0)
      → ((e : RegisterEntry) → IsCaptured r.next_sequence_val e → IsCaptured next e)
      → IsRegister (record { entries = update_first v f r.entries; next_sequence_val = next })
  update-IsRegister v next f keeps same range weaken = record {
    size = omega (arith, length-update_first v f r.entries, h.size);
    distinct = update_first-IsDistinct v f r.entries keeps h.distinct;
    sequence = range;
    captures =
        All-update_first (IsCaptured r.next_sequence_val) (IsCaptured next) weaken v f r.entries
          (λ e c.
            let (low, order) = weaken e c in
            (omega (arith, low, same e), ground (arith, order, same e)))
          h.captures;
  }

  next_range : (0 < after_next r.next_sequence_val) × (after_next r.next_sequence_val ≤ 0xFFFFFFF0)
  next_range = after_next_range r.next_sequence_val h.sequence.0 h.sequence.1

  next_keeps :
      (e : RegisterEntry)
      → IsCaptured r.next_sequence_val e
      → IsCaptured (after_next r.next_sequence_val) e
  next_keeps e c = IsCaptured-after_next r.next_sequence_val e h.sequence.1 c

  mark-IsRegister : (v : ℕ) → IsRegister (mark_configured v r).1
  unfolding mark_configured
  mark-IsRegister v = elim (Option-cases (find v r)) [
    | inl unknown ↦ rw (mark_configured, unknown) h
    | inr (e, known) ↦
        rw (mark_configured, known)
          (update-IsRegister v (after_next r.next_sequence_val) (marked_at r.next_sequence_val)
            (λ x same. refl) (λ x. refl) next_range next_keeps)
  ]

  snapshot-IsRegister : (v : ℕ) (s : ConfigSnapshot) → IsRegister (update_snapshot v s r).1
  unfolding update_snapshot
  snapshot-IsRegister v s = elim (Option-cases (find v r)) [
    | inl unknown ↦ rw (update_snapshot, unknown) h
    | inr (e, known) ↦
        rw (update_snapshot, known)
          (update-IsRegister v (after_next r.next_sequence_val)
            (with_snapshot s r.next_sequence_val) (λ x same. refl) (λ x. refl) next_range
            next_keeps)
  ]

  remove-IsRegister : (v : ℕ) → IsRegister (remove v r).1
  unfolding remove
  remove-IsRegister v = elim (Option-cases (find v r)) [
    | inl unknown ↦ rw (remove, unknown) h
    | inr (e, known) ↦
        rw (remove, known)
          (record {
            size = omega (arith, length-remove_first v r.entries, h.size);
            distinct = remove_first-IsDistinct v r.entries h.distinct;
            sequence = h.sequence;
            captures =
                All-remove_first (IsCaptured r.next_sequence_val) (IsCaptured r.next_sequence_val)
                  (λ x c. c) v r.entries h.captures;
          })
  ]

  add-IsRegister : (new : RegisterEntry) → IsRegister (add new r)
  unfolding add find
  add-IsRegister new = elim (Option-cases (find new.uid r)) [
    | inr (e, known) ↦
        rw (add, known)
          (update-IsRegister new.uid r.next_sequence_val (repaired new)
            (λ x same. sym ((==_iff x.uid new.uid).0 same)) (λ x. refl) h.sequence (λ x c. c))
    | inl fresh ↦
        let v = r.next_sequence_val in
        let placed = record new { captured_at = v } in
        let newest_placed = newest v new h.sequence.0 h.sequence.1 in
        elim (Bool-cases (leb max_entries (length r.entries))) [
          | inl full ↦
              rw (add, fresh, full)
                (record {
                  size = omega (arith, length-set r.entries (oldest_idx r.entries) placed, h.size);
                  distinct =
                      set-IsDistinct r.entries (oldest_idx r.entries) placed fresh h.distinct;
                  sequence = next_range;
                  captures =
                      All-set (IsCaptured v) (IsCaptured (after_next v)) next_keeps r.entries
                        (oldest_idx r.entries) placed newest_placed h.captures;
                })
          | inr room ↦
              rw (add, fresh, room)
                (record {
                  size = ground (arith, length-append r.entries (placed ∷ []), room);
                  distinct = append-IsDistinct r.entries placed fresh h.distinct;
                  sequence = next_range;
                  captures =
                      All-snoc (IsCaptured v) (IsCaptured (after_next v)) next_keeps r.entries
                        placed newest_placed h.captures;
                })
        ]
  ]

cleared-IsRegister : IsRegister clear_in_memory
unfolding IsDistinct
cleared-IsRegister = record {
  size = omega arith;
  distinct = tt;
  sequence = (omega arith, omega arith);
  captures = tt;
}

apply-IsRegister : (op : Op) (r : PairRegister) → IsRegister r → IsRegister (apply op r)
unfolding apply
apply-IsRegister (added new) r h = add-IsRegister r h new
apply-IsRegister (removed uid) r h = remove-IsRegister r h uid
apply-IsRegister (configured uid) r h = mark-IsRegister r h uid
apply-IsRegister (snapshotted uid s) r h = snapshot-IsRegister r h uid s
apply-IsRegister cleared r h = cleared-IsRegister

run_kept : (r : PairRegister) (ops : List Op) → IsRegister r → IsRegister (run r ops)
unfolding run
run_kept r [] h = h
run_kept r (op ∷ ops) h = run_kept (apply op r) ops (apply-IsRegister op r h)

-- After any sequence of operations on an empty register there are at most 20 entries, no two with the
-- same uid; the sequence is between 1 and its cap of 0xFFFFFFF0, so it never wraps to 0; and each entry was
-- captured before the next one would be, unless the sequence has come to its cap.
pub run-IsRegister : (ops : List Op) → IsRegister (run clear_in_memory ops)
run-IsRegister ops = run_kept clear_in_memory ops cleared-IsRegister
