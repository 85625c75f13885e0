-- ===== src/Repeater/Dedup.antt =====
-- modes/repeater_mode.cpp: the dedup ring as a window on the frames marked last.
use nocturnation_stickc.Repeater.{same_entry, mark_seen, any_entry, seen_recently}
use nocturnation_stickc.Prelude.{
  ◌==◌, Bool-cases, length, get_or, length-set, ℕ, zero, suc, ◌+◌, ◌-◌, ◌%◌, ◌<◌, ◌≡◌, refl, ◌∙◌,
  ◌≢◌, inl, inr, Bool, true, false, ◌||◌, List, [], ◌∷◌, arith, set, get_or-set_self, get_or-set_ne,
  sym, ap,
}
use nocturnation_stickc.Repeater.Types.{DedupEntry, RepeaterMode}

-- `x` is among the first `n` of `recents`.
abbrev pub in_window : ℕ → DedupEntry → List DedupEntry → Bool
in_window zero x es = false
in_window (suc n) x [] = false
in_window (suc n) x (e ∷ es) = same_entry e x || in_window n x es

-- The slot of the ring that was written `j` marks before the next.
abbrev pub slot : ℕ → ℕ → ℕ
slot head j = (head + 15 - j) % 16

-- The ring holds the sixteen entries marked last, `recents` being all, the latest first.
pub record IsRing (s : RepeaterMode) (recents : List DedupEntry) : Type 0 where
  pub ring_size : length s.dedup_ring ≡ 16
  pub head_range : s.dedup_head < 16
  pub ring_slots :
      (j : ℕ) → j < 16 → get_or s.dedup_ring (slot s.dedup_head j) (0, 0) ≡ get_or recents j (0, 0)

marked_slots :
    (ring recents : List DedupEntry) (head : ℕ) (x : DedupEntry)
    → length ring ≡ 16
    → head < 16
    → ((j : ℕ) → j < 16 → get_or ring (slot head j) (0, 0) ≡ get_or recents j (0, 0))
    → (j : ℕ) → j < 16
    → get_or (set ring head x) (slot ((head + 1) % 16) j) (0, 0) ≡ get_or (x ∷ recents) j (0, 0)
marked_slots ring recents head x size range slots zero h =
    let e : slot ((head + 1) % 16) 0 ≡ head = omega (arith, range) in
    rw e (get_or-set_self ring head x (0, 0) (omega (arith, size, range)))
marked_slots ring recents head x size range slots (suc j) h =
    let e : slot ((head + 1) % 16) (suc j) ≡ slot head j = omega (arith, range, h) in
    rw e (
      get_or-set_ne ring head (slot head j) x (0, 0) (λ k. absurd (omega (arith, k, range, h)))
      ∙ slots j (omega (arith, h)))

pub mark_seen-IsRing :
    (s : RepeaterMode) (src seq : ℕ) (recents : List DedupEntry)
    → seq ≢ 0
    → IsRing s recents
    → IsRing (mark_seen src seq s) ((src, seq) ∷ recents)
unfolding mark_seen
mark_seen-IsRing s src seq recents nz r =
    let on : (seq == 0) ≡ false = ground arith in
    rw on (record {
      ring_size = length-set s.dedup_ring s.dedup_head (src, seq) ∙ r.ring_size;
      head_range = omega arith;
      ring_slots =
          marked_slots s.dedup_ring recents s.dedup_head (src, seq) r.ring_size r.head_range
            r.ring_slots;
    })

same_entry_eq : (x y : DedupEntry) → same_entry x y ≡ true → x ≡ y
same_entry_eq (a, b) (c, d) h = ground arith

pub same_entry_refl : (x : DedupEntry) → same_entry x x ≡ true
same_entry_refl (a, b) = ground arith

any_entry_at :
    (x : DedupEntry) (es : List DedupEntry) (i : ℕ)
    → i < length es
    → same_entry (get_or es i (0, 0)) x ≡ true
    → any_entry x es ≡ true
unfolding any_entry
any_entry_at x [] i h e = absurd (omega arith)
any_entry_at x (y ∷ es) zero h e = rw e refl
any_entry_at x (y ∷ es) (suc i) h e = ground (arith, any_entry_at x es i (omega arith) e)

any_entry_found :
    (x : DedupEntry) (es : List DedupEntry)
    → any_entry x es ≡ true
    → (i : ℕ) × (i < length es) × (same_entry (get_or es i (0, 0)) x ≡ true)
unfolding any_entry
any_entry_found x [] h = absurd (ground (arith, h))
any_entry_found x (y ∷ es) h = elim (Bool-cases (same_entry y x)) [
  | inl e ↦ (0, omega arith, e)
  | inr e ↦ let (i, b, f) = any_entry_found x es (ground (arith, h, e)) in (suc i, omega arith, f)
]

in_window_at :
    (n : ℕ) (src seq : ℕ) (es : List DedupEntry) (j : ℕ)
    → seq ≢ 0
    → j < n
    → same_entry (get_or es j (0, 0)) (src, seq) ≡ true
    → in_window n (src, seq) es ≡ true
in_window_at zero src seq es j nz h e = absurd (omega arith)
in_window_at (suc n) src seq [] j nz h e = absurd (nz (ground (arith, e)))
in_window_at (suc n) src seq (y ∷ es) zero nz h e = rw e refl
in_window_at (suc n) src seq (y ∷ es) (suc j) nz h e =
    ground (arith, in_window_at n src seq es j nz (omega arith) e)

in_window_found :
    (n : ℕ) (x : DedupEntry) (es : List DedupEntry)
    → in_window n x es ≡ true
    → (j : ℕ) × (j < n) × (same_entry (get_or es j (0, 0)) x ≡ true)
in_window_found zero x es h = absurd (ground (arith, h))
in_window_found (suc n) x [] h = absurd (ground (arith, h))
in_window_found (suc n) x (y ∷ es) h = elim (Bool-cases (same_entry y x)) [
  | inl e ↦ (0, omega arith, e)
  | inr e ↦ let (i, b, f) = in_window_found n x es (ground (arith, h, e)) in (suc i, omega arith, f)
]

Bool-ext : (a b : Bool) → (a ≡ true → b ≡ true) → (b ≡ true → a ≡ true) → a ≡ b
Bool-ext true b f g = sym (f refl)
Bool-ext false true f g = g refl
Bool-ext false false f g = refl

-- In the ring is in the window of sixteen.
pub seen_recently-window :
    (s : RepeaterMode) (src seq : ℕ) (recents : List DedupEntry)
    → seq ≢ 0
    → IsRing s recents
    → seen_recently s src seq ≡ in_window 16 (src, seq) recents
unfolding seen_recently
seen_recently-window s src seq recents nz r =
    let on : (seq == 0) ≡ false = ground arith in
    let same = same_entry in
    rw on (
      Bool-ext (any_entry (src, seq) s.dedup_ring) (in_window 16 (src, seq) recents)
        (λ h.
          let (i, b, f) = any_entry_found (src, seq) s.dedup_ring h in
          let j = slot s.dedup_head i in
          let back : slot s.dedup_head j ≡ i = omega (arith, b, r.ring_size, r.head_range) in
          let at : get_or recents j (0, 0) ≡ get_or s.dedup_ring i (0, 0) =
            sym (r.ring_slots j (omega arith)) ∙ ap (λ k. get_or s.dedup_ring k (0, 0)) back in
          in_window_at 16 src seq recents j nz (omega arith)
            (ap (λ e. same_entry e (src, seq)) at ∙ f))
        (λ h.
          let (j, b, f) = in_window_found 16 (src, seq) recents h in
          any_entry_at (src, seq) s.dedup_ring (slot s.dedup_head j) (omega (arith, r.ring_size))
            (ap (λ e. same_entry e (src, seq)) (r.ring_slots j b) ∙ f)))
