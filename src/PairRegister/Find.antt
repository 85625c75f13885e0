-- ===== src/PairRegister/Find.antt =====
-- ble/pair_register.cpp: what a search finds after each change of the entries.

use mathlib.Core.Option
use nocturnation_stickc.Prelude.{
  ◌==◌, if◌then◌else◌, Bool-cases, length, get_or, set, ℕ, zero, suc, ◌<◌, ◌≡◌, refl, ◌∙◌, inl, inr,
  true, false, none, some, List, [], ◌∷◌, ◌++◌, arith, ap, ==_iff,
}
use nocturnation_stickc.PairRegister.{
  RegisterEntry, find_in, update_first, remove_first, zero_entry,
}

-- No uid stands twice.
unfoldable pub IsDistinct : List RegisterEntry → Type 0
IsDistinct [] = Unit
IsDistinct (e ∷ es) = (find_in e.uid es ≡ none) × IsDistinct es

pub ==_refl : (n : ℕ) → (n == n) ≡ true
==_refl n = ground arith

pub find_in-update_first :
    (u v : ℕ) (f : RegisterEntry → RegisterEntry) (es : List RegisterEntry)
    → ((e : RegisterEntry) → (e.uid == v) ≡ true → (f e).uid ≡ e.uid)
    → find_in u (update_first v f es)
      ≡ (if u == v then Option.map f (find_in u es) else find_in u es)
unfolding find_in update_first
find_in-update_first u v f [] keeps = elim (Bool-cases (u == v)) [
  | inl same ↦ rw same refl
  | inr other ↦ rw other refl
]
find_in-update_first u v f (e ∷ es) keeps =
    let ih = find_in-update_first u v f es keeps in
    elim (Bool-cases (e.uid == v)) [
      | inl here ↦ elim (Bool-cases (e.uid == u)) [
        | inl found ↦
            let same : (u == v) ≡ true = ground (arith, here, found) in
            rw (here, found, same, keeps e here) (rw found refl)
        | inr missed ↦
            let other : (u == v) ≡ false = ground (arith, here, missed) in
            rw (here, missed, other, keeps e here) (rw missed refl)
      ]
      | inr later_on ↦ elim (Bool-cases (e.uid == u)) [
        | inl found ↦
            let other : (u == v) ≡ false = ground (arith, later_on, found) in
            rw (later_on, found, other) refl
        | inr missed ↦ rw (later_on, missed) ih
      ]
    ]

-- The same where the changed entry is known.
pub map_found :
    (u v : ℕ) (f : RegisterEntry → RegisterEntry) (es : List RegisterEntry) (e : RegisterEntry)
    → find_in v es ≡ some e
    → (if u == v then Option.map f (find_in u es) else find_in u es)
      ≡ (if u == v then some (f e) else find_in u es)
map_found u v f es e h = elim (Bool-cases (u == v)) [
  | inl same ↦
      rw same (ap (λ k. Option.map f (find_in k es)) ((==_iff u v).0 same) ∙ ap (Option.map f) h)
  | inr other ↦ rw other refl
]

pub find_in-remove_first :
    (u v : ℕ) (es : List RegisterEntry)
    → IsDistinct es
    → find_in u (remove_first v es) ≡ (if u == v then none else find_in u es)
unfolding find_in remove_first IsDistinct
find_in-remove_first u v [] d = elim (Bool-cases (u == v)) [
  | inl same ↦ rw same refl
  | inr other ↦ rw other refl
]
find_in-remove_first u v (e ∷ es) d =
    let ih = find_in-remove_first u v es d.1 in
    elim (Bool-cases (e.uid == v)) [
      | inl here ↦ elim (Bool-cases (u == v)) [
        | inl same ↦ let at : u ≡ e.uid = ground (arith, here, same) in rw (here, same, at) d.0
        | inr other ↦
            let missed : (e.uid == u) ≡ false = ground (arith, here, other) in
            rw (here, other, missed) refl
      ]
      | inr later_on ↦ elim (Bool-cases (e.uid == u)) [
        | inl found ↦
            let other : (u == v) ≡ false = ground (arith, later_on, found) in
            rw (later_on, found, other) refl
        | inr missed ↦ rw (later_on, missed) ih
      ]
    ]

pub find_in-append :
    (u : ℕ) (es : List RegisterEntry) (new : RegisterEntry)
    → find_in new.uid es ≡ none
    → find_in u (es ++ new ∷ []) ≡ (if u == new.uid then some new else find_in u es)
unfolding find_in
find_in-append u [] new h = elim (Bool-cases (u == new.uid)) [
  | inl same ↦ let back : (new.uid == u) ≡ true = ground (arith, same) in rw (same, back) refl
  | inr other ↦ let back : (new.uid == u) ≡ false = ground (arith, other) in rw (other, back) refl
]
find_in-append u (e ∷ es) new h = elim (Bool-cases (e.uid == new.uid)) [
  | inl clash ↦ absurd (ground (arith, h, clash))
  | inr apart ↦
      let ih = find_in-append u es new ((rw apart refl) ∙ h) in
      elim (Bool-cases (e.uid == u)) [
        | inl found ↦
            let other : (u == new.uid) ≡ false = ground (arith, apart, found) in
            rw (found, other) refl
        | inr missed ↦ rw missed ih
      ]
]

-- What is not found stands nowhere.
pub find_in-none_at :
    (u : ℕ) (es : List RegisterEntry) (i : ℕ)
    → i < length es
    → find_in u es ≡ none
    → (u == (get_or es i zero_entry).uid) ≡ false
unfolding find_in
find_in-none_at u [] i h e = absurd (omega (arith, h))
find_in-none_at u (x ∷ es) zero h e = ground (arith, e)
find_in-none_at u (x ∷ es) (suc i) h e = elim (Bool-cases (x.uid == u)) [
  | inl found ↦ absurd (ground (arith, e, found))
  | inr missed ↦ find_in-none_at u es i (omega (arith, h)) (ground (arith, e, missed))
]

-- An entry put in the place of the one at `i`.
pub find_in-set :
    (u : ℕ) (es : List RegisterEntry) (i : ℕ) (new : RegisterEntry)
    → i < length es
    → IsDistinct es
    → find_in new.uid es ≡ none
    → find_in u (set es i new) ≡ (
        if u == new.uid
        then some new
        else if u == (get_or es i zero_entry).uid
        then none
        else find_in u es)
unfolding find_in IsDistinct
find_in-set u [] i new h d fresh = absurd (omega (arith, h))
find_in-set u (e ∷ es) zero new h d fresh = elim (Bool-cases (u == new.uid)) [
  | inl same ↦ let back : (new.uid == u) ≡ true = ground (arith, same) in rw (same, back) refl
  | inr other ↦
      let back : (new.uid == u) ≡ false = ground (arith, other) in
      elim (Bool-cases (u == e.uid)) [
        | inl gone ↦
            let at : u ≡ e.uid = ground (arith, gone) in
            rw (other, back, gone) (ap (λ k. find_in k es) at ∙ d.0)
        | inr kept ↦
            let missed : (e.uid == u) ≡ false = ground (arith, kept) in
            rw (other, back, kept, missed) refl
      ]
]
find_in-set u (e ∷ es) (suc i) new h d fresh = elim (Bool-cases (e.uid == new.uid)) [
  | inl clash ↦ absurd (ground (arith, fresh, clash))
  | inr apart ↦
      let ih = find_in-set u es i new (omega (arith, h)) d.1 ((rw apart refl) ∙ fresh) in
      elim (Bool-cases (e.uid == u)) [
        | inl found ↦
            let other : (u == new.uid) ≡ false = ground (arith, apart, found) in
            let at : u ≡ e.uid = ground (arith, found) in
            let kept : (u == (get_or es i zero_entry).uid) ≡ false =
              rw at (find_in-none_at e.uid es i (omega (arith, h)) d.0) in
            rw (found, other, kept) refl
        | inr missed ↦ rw missed ih
      ]
]

-- What is not found is not found after a change either.
update_first-none :
    (u v : ℕ) (f : RegisterEntry → RegisterEntry) (es : List RegisterEntry)
    → ((e : RegisterEntry) → (e.uid == v) ≡ true → (f e).uid ≡ e.uid)
    → find_in u es ≡ none
    → find_in u (update_first v f es) ≡ none
update_first-none u v f es keeps h =
    find_in-update_first u v f es keeps
    ∙ elim (Bool-cases (u == v)) [ inl same ↦ rw (same, h) refl | inr other ↦ rw (other, h) refl ]

remove_first-none :
    (u v : ℕ) (es : List RegisterEntry)
    → IsDistinct es
    → find_in u es ≡ none
    → find_in u (remove_first v es) ≡ none
remove_first-none u v es d h =
    find_in-remove_first u v es d
    ∙ elim (Bool-cases (u == v)) [ inl same ↦ rw same refl | inr other ↦ rw (other, h) refl ]

set-none :
    (u : ℕ) (es : List RegisterEntry) (i : ℕ) (new : RegisterEntry)
    → (u == new.uid) ≡ false
    → find_in u es ≡ none
    → find_in u (set es i new) ≡ none
unfolding find_in
set-none u [] i new other h = refl
set-none u (e ∷ es) zero new other h =
    let back : (new.uid == u) ≡ false = ground (arith, other) in rw back (ground (arith, h))
set-none u (e ∷ es) (suc i) new other h = elim (Bool-cases (e.uid == u)) [
  | inl found ↦ absurd (ground (arith, h, found))
  | inr missed ↦ rw missed (set-none u es i new other (ground (arith, h, missed)))
]

append-none :
    (u : ℕ) (es : List RegisterEntry) (new : RegisterEntry)
    → (u == new.uid) ≡ false
    → find_in u es ≡ none
    → find_in u (es ++ new ∷ []) ≡ none
unfolding find_in
append-none u [] new other h =
    let back : (new.uid == u) ≡ false = ground (arith, other) in rw back refl
append-none u (e ∷ es) new other h = elim (Bool-cases (e.uid == u)) [
  | inl found ↦ absurd (ground (arith, h, found))
  | inr missed ↦ rw missed (append-none u es new other (ground (arith, h, missed)))
]

pub update_first-IsDistinct :
    (v : ℕ) (f : RegisterEntry → RegisterEntry) (es : List RegisterEntry)
    → ((e : RegisterEntry) → (e.uid == v) ≡ true → (f e).uid ≡ e.uid)
    → IsDistinct es
    → IsDistinct (update_first v f es)
unfolding IsDistinct update_first
update_first-IsDistinct v f [] keeps d = tt
update_first-IsDistinct v f (e ∷ es) keeps d = elim (Bool-cases (e.uid == v)) [
  | inl here ↦ rw here (ap (λ k. find_in k es) (keeps e here) ∙ d.0, d.1)
  | inr later_on ↦
      rw later_on
        (update_first-none e.uid v f es keeps d.0, update_first-IsDistinct v f es keeps d.1)
]

pub remove_first-IsDistinct :
    (v : ℕ) (es : List RegisterEntry) → IsDistinct es → IsDistinct (remove_first v es)
unfolding IsDistinct remove_first
remove_first-IsDistinct v [] d = tt
remove_first-IsDistinct v (e ∷ es) d = elim (Bool-cases (e.uid == v)) [
  | inl here ↦ rw here d.1
  | inr later_on ↦
      rw later_on (remove_first-none e.uid v es d.1 d.0, remove_first-IsDistinct v es d.1)
]

-- A new uid appended, or put in the place of another.
pub append-IsDistinct :
    (es : List RegisterEntry) (new : RegisterEntry)
    → find_in new.uid es ≡ none
    → IsDistinct es
    → IsDistinct (es ++ new ∷ [])
unfolding IsDistinct find_in
append-IsDistinct [] new fresh d = (refl, tt)
append-IsDistinct (e ∷ es) new fresh d = elim (Bool-cases (e.uid == new.uid)) [
  | inl clash ↦ absurd (ground (arith, fresh, clash))
  | inr apart ↦ (
    append-none e.uid es new apart d.0,
    append-IsDistinct es new (ground (arith, fresh, apart)) d.1,
  )
]

pub set-IsDistinct :
    (es : List RegisterEntry) (i : ℕ) (new : RegisterEntry)
    → find_in new.uid es ≡ none
    → IsDistinct es
    → IsDistinct (set es i new)
unfolding IsDistinct find_in
set-IsDistinct [] i new fresh d = tt
set-IsDistinct (e ∷ es) zero new fresh d = elim (Bool-cases (e.uid == new.uid)) [
  | inl clash ↦ absurd (ground (arith, fresh, clash))
  | inr apart ↦ (ground (arith, fresh, apart), d.1)
]
set-IsDistinct (e ∷ es) (suc i) new fresh d = elim (Bool-cases (e.uid == new.uid)) [
  | inl clash ↦ absurd (ground (arith, fresh, clash))
  | inr apart ↦ (
    set-none e.uid es i new apart d.0,
    set-IsDistinct es i new (ground (arith, fresh, apart)) d.1,
  )
]
