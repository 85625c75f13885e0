-- ===== src/Census/Distinct.antt =====
-- repeater_census.cpp: one entry for each repeater.
use nocturnation_stickc.Prelude.{
  ◌==◌, Bool-cases, Option-cases, length, get_or, set, ℕ, zero, suc, ◌<◌, ◌≡◌, ◌≢◌, inl, inr, true,
  false, ◌&&◌, none, some, List, [], ◌∷◌, arith, leb, replicate, length-set, get_or-set_self,
  get_or-set_ne, ◌+◌, ◌≤◌, refl, sym, ap, ap₂, ◌∙◌,
}
use nocturnation_stickc.Census.{
  Entry, unused_entry, uid_eq, known_at, victim_from, note, no_repeaters, max_repeaters, age_ms,
}

abbrev entry_at : List Entry → ℕ → Entry
entry_at es i = get_or es i unused_entry

-- No two entries in use have the same uid.
abbrev pub IsDistinct : List Entry → Type 0
IsDistinct es =
    (i j : ℕ)
    → (entry_at es i).used ≡ true
    → (entry_at es j).used ≡ true
    → uid_eq (entry_at es i) (entry_at es j) ≡ true
    → i ≡ j

known_at-found :
    (b : Entry) (es : List Entry) (i : ℕ)
    → known_at b es ≡ some i
    → (i < length es) × ((entry_at es i).used ≡ true) × (uid_eq (entry_at es i) b ≡ true)
unfolding known_at
known_at-found b [] i e = cc
known_at-found b (x ∷ es) i e = elim (Bool-cases (x.used && uid_eq x b)) [
  | inl here ↦
      let z : i ≡ 0 = ground (arith, here, e) in
      rw z (omega arith, ground (arith, here), ground (arith, here))
  | inr past ↦ elim (Option-cases (known_at b es)) [
    | inl nowhere ↦ absurd (ground (arith, past, nowhere))
    | inr (j, at) ↦
        let (below, mine, same) = known_at-found b es j at in
        let z : i ≡ suc j = ground (arith, past, at) in rw z (omega arith, mine, same)
  ]
]

known_at-nowhere :
    (b : Entry) (es : List Entry) (j : ℕ)
    → known_at b es ≡ none
    → (entry_at es j).used ≡ true
    → uid_eq (entry_at es j) b ≡ false
unfolding known_at
known_at-nowhere b [] j e u = absurd (ground arith)
known_at-nowhere b (x ∷ es) zero e u = elim (Bool-cases (x.used && uid_eq x b)) [
  | inl here ↦ absurd (ground (arith, here))
  | inr past ↦ ground (arith, past)
]
known_at-nowhere b (x ∷ es) (suc k) e u = elim (Option-cases (known_at b es)) [
  | inl nowhere ↦ known_at-nowhere b es k nowhere u
  | inr (j, at) ↦ absurd (ground (arith, at))
]

uid_eq_sym : (a b : Entry) → uid_eq a b ≡ true → uid_eq b a ≡ true
uid_eq_sym a b h = ground arith

module _ (es : List Entry) (k : ℕ) (v : Entry) (below : k < length es) where
  at_self : (i : ℕ) → (i == k) ≡ true → entry_at (set es k v) i ≡ v
  at_self i h = let e : i ≡ k = ground arith in rw e (get_or-set_self es k v unused_entry below)

  at_other : (i : ℕ) → (i == k) ≡ false → entry_at (set es k v) i ≡ entry_at es i
  at_other i h = get_or-set_ne es k i v unused_entry (λ e. ground arith)

  set-IsDistinct :
      IsDistinct es
      → ((j : ℕ) → j ≢ k → (entry_at es j).used ≡ true → uid_eq (entry_at es j) v ≡ true → ⊥)
      → IsDistinct (set es k v)
  set-IsDistinct d alone i j ui uj same = elim (Bool-cases (i == k)) [
    | inl ik ↦ elim (Bool-cases (j == k)) [
      | inl jk ↦ ground (arith, ik, jk)
      | inr jk ↦ absurd (
          alone j (λ e. ground arith) (sym (ap (λ e. e.used) (at_other j jk)) ∙ uj)
            (uid_eq_sym v (entry_at es j) (sym (ap₂ uid_eq (at_self i ik) (at_other j jk)) ∙ same)))
    ]
    | inr ik ↦ elim (Bool-cases (j == k)) [
      | inl jk ↦ absurd (
          alone i (λ e. ground arith) (sym (ap (λ e. e.used) (at_other i ik)) ∙ ui)
            (sym (ap₂ uid_eq (at_other i ik) (at_self j jk)) ∙ same))
      | inr jk ↦
          d i j (sym (ap (λ e. e.used) (at_other i ik)) ∙ ui)
            (sym (ap (λ e. e.used) (at_other j jk)) ∙ uj)
            (sym (ap₂ uid_eq (at_other i ik) (at_other j jk)) ∙ same)
    ]
  ]

victim_from_lt :
    (now i oldest victim m : ℕ) (es : List Entry)
    → victim < m
    → i + length es ≤ m
    → victim_from now i oldest victim es < m
unfolding victim_from
victim_from_lt now i oldest victim m [] h room = h
victim_from_lt now i oldest victim m (e ∷ es) h room =
    let age = age_ms now e.last_seen_ms in
    elim (Bool-cases e.used) [
      | inr free ↦ rw free (omega arith)
      | inl taken ↦ elim (Bool-cases (leb oldest age)) [
        | inl older ↦
            rw (taken, older) (victim_from_lt now (i + 1) age i m es (omega arith) (omega arith))
        | inr newer ↦
            rw (taken, newer) (victim_from_lt now (i + 1) oldest victim m es h (omega arith))
      ]
    ]

note-IsDistinct :
    (es : List Entry) (b : Entry)
    → length es ≡ max_repeaters
    → IsDistinct es
    → IsDistinct (note es b) × (length (note es b) ≡ max_repeaters)
unfolding note
note-IsDistinct es b size d = elim (Option-cases (known_at b es)) [
  | inr (i, at) ↦
      let (below, mine, same) = known_at-found b es i at in
      let v = record (entry_at es i) {
        channel = b.channel;
        relayed = b.relayed;
        uptime_s = b.uptime_s;
        last_seen_ms = b.last_seen_ms;
      } in
      rw (at, note)
        (
          set-IsDistinct es i v below d (λ j ne uj s. ne (d j i uj mine s)),
          length-set es i v ∙ size,
        )
  | inl nowhere ↦
      let k = victim_from b.last_seen_ms 0 0 0 es in
      let below : k < length es =
        victim_from_lt b.last_seen_ms 0 0 0 (length es) es (omega arith) (omega arith) in
      let v = record b { used = true } in
      rw (nowhere, note)
        (
          set-IsDistinct es k v below d
              (λ j ne uj s. let gone = known_at-nowhere b es j nowhere uj in ground arith),
          length-set es k v ∙ size,
        )
]

get_or-replicate : (n i : ℕ) (a : Entry) → get_or (replicate n a) i a ≡ a
get_or-replicate zero i a = refl
get_or-replicate (suc n) zero a = refl
get_or-replicate (suc n) (suc i) a = get_or-replicate n i a

no_repeaters-IsDistinct : IsDistinct no_repeaters
no_repeaters-IsDistinct i j ui uj same =
    let e : false ≡ true = sym (ap (λ e. e.used) (get_or-replicate 16 i unused_entry)) ∙ ui in
    absurd (ground arith)

-- The beacons of a session, in order.
unfoldable pub note_all : List Entry → List Entry → List Entry
note_all es [] = es
note_all es (b ∷ bs) = note_all (note es b) bs

note_all_kept :
    (bs es : List Entry)
    → length es ≡ max_repeaters
    → IsDistinct es
    → IsDistinct (note_all es bs) × (length (note_all es bs) ≡ max_repeaters)
unfolding note_all
note_all_kept [] es size d = (d, size)
note_all_kept (b ∷ bs) es size d =
    let (d', size') = note-IsDistinct es b size d in note_all_kept bs (note es b) size' d'

-- However many beacons arrive, from whichever repeaters and at whatever times, the census keeps its
-- sixteen entries and no two entries in use are for the same repeater.
pub note_all-IsDistinct :
    (bs : List Entry)
    → IsDistinct (note_all no_repeaters bs) × (length (note_all no_repeaters bs) ≡ max_repeaters)
note_all-IsDistinct bs = note_all_kept bs no_repeaters refl no_repeaters-IsDistinct
