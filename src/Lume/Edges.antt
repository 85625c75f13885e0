-- ===== src/Lume/Edges.antt =====
-- src/modes/lume_mode.cpp: the edges of the fallback wash among the calls.
use nocturnation_stickc.Lume.FanOut.{fan_from, to_binding}
use nocturnation_stickc.Prelude.{
  if◌then◌else◌, Bool-cases, ℕ, ◌+◌, ◌≡◌, refl, ap, inl, inr, Bool, false, Option, none, some, List,
  [], ◌∷◌, ◌++◌,
}
use nocturnation_stickc.Lume.Types.{
  fallback_started, fallback_faded, fallback_recovered, Binding, Order, LumeCall, Lume, ordered,
  broadcast, tuned, config_received,
}

pub data Edge : Type 0 where
  starts fades recovers : Edge

-- The edges among the calls.
unfoldable pub edges : List LumeCall → List Edge
edges [] = []
edges (fallback_started ∷ calls) = starts ∷ edges calls
edges (fallback_faded ∷ calls) = fades ∷ edges calls
edges (fallback_recovered ∷ calls) = recovers ∷ edges calls
edges (ordered _ _ _ _ ∷ calls) = edges calls
edges (broadcast _ ∷ calls) = edges calls
edges (tuned _ ∷ calls) = edges calls
edges (config_received _ ∷ calls) = edges calls

-- The fallback is off, on, or fading out.
pub data Phase : Type 0 where
  off on fading : Phase

-- The edges that are possible in a phase, and the phase behind them: the wash starts when off, fades once
-- when on, and recovers when on or fading.
abbrev pub next_phase : Phase → Edge → Option Phase
next_phase off starts = some on
next_phase on fades = some fading
next_phase on recovers = some off
next_phase fading recovers = some off
next_phase off fades = none
next_phase off recovers = none
next_phase on starts = none
next_phase fading starts = none
next_phase fading fades = none

unfoldable pub follow_from : Option Phase → List Edge → Option Phase
follow_from none es = none
follow_from (some phase) [] = some phase
follow_from (some phase) (e ∷ es) = follow_from (next_phase phase e) es

abbrev pub follow : Phase → List Edge → Option Phase
follow phase es = follow_from (some phase) es

-- The phase of a Lume.
abbrev pub phase_of : Lume → Phase
phase_of s = if s.fallback_active then (if s.fallback_fading then fading else on) else off

-- A fallback fades only while it is active.
abbrev pub IsPhased : Lume → Type 0
IsPhased s = s.fallback_active ≡ false → s.fallback_fading ≡ false

pub edges-append : (xs ys : List LumeCall) → edges (xs ++ ys) ≡ edges xs ++ edges ys
unfolding edges
edges-append [] ys = refl
edges-append (fallback_started ∷ xs) ys = ap (◌∷◌ starts) (edges-append xs ys)
edges-append (fallback_faded ∷ xs) ys = ap (◌∷◌ fades) (edges-append xs ys)
edges-append (fallback_recovered ∷ xs) ys = ap (◌∷◌ recovers) (edges-append xs ys)
edges-append (ordered _ _ _ _ ∷ xs) ys = edges-append xs ys
edges-append (broadcast _ ∷ xs) ys = edges-append xs ys
edges-append (tuned _ ∷ xs) ys = edges-append xs ys
edges-append (config_received _ ∷ xs) ys = edges-append xs ys

pub edges-fan_from :
    (takes : Binding → Bool) (c g : ℕ) (order : Order) (i : ℕ) (bs : List Binding)
    → edges (fan_from takes (to_binding c g order) i bs) ≡ []
unfolding fan_from edges
edges-fan_from takes c g order i [] = refl
edges-fan_from takes c g order i (b ∷ bs) = elim (Bool-cases (takes b)) [
  | inl e ↦ rw e (edges-fan_from takes c g order (i + 1) bs)
  | inr e ↦ rw e (edges-fan_from takes c g order (i + 1) bs)
]

pub follow-append :
    (phase : Option Phase) (xs ys : List Edge)
    → follow_from phase (xs ++ ys) ≡ follow_from (follow_from phase xs) ys
unfolding follow_from
follow-append none xs ys = refl
follow-append (some phase) [] ys = refl
follow-append (some phase) (x ∷ xs) ys = follow-append (next_phase phase x) xs ys
