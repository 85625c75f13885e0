-- ===== src/Lume/Phases.antt =====
-- src/modes/lume_mode.cpp: the phases of the fallback wash, and the edges of a tick.
use nocturnation_stickc.Lume.Unmarked.{wash_edges, wash_end_edges}
use nocturnation_stickc.Tofu.{age}
use nocturnation_stickc.Lume.Ticking.{fallback_edges}
use nocturnation_stickc.Lume.FanOut.{
  emit_fallback_wash_start, emit_fallback_wash_fade, emit_fallback_wash_recovery, fallback_wash,
  fallback_end,
}
use nocturnation_stickc.Prelude.{
  ltb, ◌==◌, if◌then◌else◌, ℕ, ◌≡◌, refl, sym, ap, ap₂, ◌∙◌, Bool, true, false, not, ◌&&◌, ◌||◌,
  some, List, [], ◌∷◌, ◌++◌, arith,
}
use nocturnation_stickc.Frame.Types.{Bytes}
use nocturnation_stickc.Lume.Core.{SameCore, SameCore-refl}
use nocturnation_stickc.Lume.Types.{
  LumeCall, Lume, config_received, fallback_enter_ms, fallback_fade_start_ms, fallback_fade_ticks,
  fallback_recovery_ticks,
}
use nocturnation_stickc.Lume.Edges.{
  Phase, IsPhased, edges-append, follow-append, fading, follow, phase_of, follow_from, edges, on,
  starts, fades, recovers, off,
}

-- The phase of the two flags.
abbrev pub phase_at : Bool → Bool → Phase
phase_at active faded = if active then (if faded then fading else on) else off

-- What a step owes: the edges among its calls lead from the phase before it to the one behind it, and a
-- fallback fades only while it is active.
pub record Follows (s : Lume) (r : Lume × List LumeCall) : Type 0 where
  pub phased : IsPhased r.0
  pub leads : follow (phase_of s) (edges r.1) ≡ some (phase_of r.0)

pub Follows-either :
    (b : Bool) (s : Lume) (x y : Lume × List LumeCall)
    → Follows s x
    → Follows s y
    → Follows s (if b then x else y)
Follows-either true s x y f g = f
Follows-either false s x y f g = g

same_phase : (s s' : Lume) → SameCore s s' → phase_of s' ≡ phase_of s
same_phase s s' same = ap₂ phase_at same.same_active same.same_fading

same-IsPhased : (s s' : Lume) → SameCore s s' → IsPhased s → IsPhased s'
same-IsPhased s s' same phased h = same.same_fading ∙ phased (sym same.same_active ∙ h)

-- A step without an edge in the same phase.
pub stay :
    (s : Lume) (r : Lume × List LumeCall)
    → IsPhased s
    → SameCore s r.0
    → edges r.1 ≡ []
    → Follows s r
unfolding follow_from
stay s r phased same none_of = record {
  phased = same-IsPhased s r.0 same phased;
  leads = ap (λ es. follow (phase_of s) es) none_of ∙ ap some (sym (same_phase s r.0 same));
}

-- Steps in a row.
pub chain :
    (s : Lume) (r r' : Lume × List LumeCall)
    → Follows s r
    → Follows r.0 r'
    → Follows s (r'.0, r.1 ++ r'.1)
chain s r r' f g = record {
  phased = g.phased;
  leads =
      ap (λ es. follow (phase_of s) es) (edges-append r.1 r'.1)
      ∙ follow-append (some (phase_of s)) (edges r.1) (edges r'.1)
      ∙ ap (λ p. follow_from p (edges r'.1)) f.leads
      ∙ g.leads;
}

start_edges : (s : Lume) → edges (emit_fallback_wash_start s) ≡ starts ∷ []
unfolding emit_fallback_wash_start edges
start_edges s = ap (◌∷◌ starts) (wash_edges fallback_wash s)

fade_edges : (s : Lume) → edges (emit_fallback_wash_fade s) ≡ fades ∷ []
unfolding emit_fallback_wash_fade edges
fade_edges s = ap (◌∷◌ fades) (wash_end_edges (fallback_end fallback_fade_ticks) s)

pub recovery_edges : (s : Lume) → edges (emit_fallback_wash_recovery s) ≡ recovers ∷ []
unfolding emit_fallback_wash_recovery edges
recovery_edges s = ap (◌∷◌ recovers) (wash_end_edges (fallback_end fallback_recovery_ticks) s)

-- The calls of a tick at the edges, by which edges there are.
tick_edges :
    (starting ending : Bool) (s : Lume)
    → edges (
        (if starting then emit_fallback_wash_start s else [])
        ++ (if ending then emit_fallback_wash_fade s else []))
      ≡ (if starting then starts ∷ [] else []) ++ (if ending then fades ∷ [] else [])
unfolding edges
tick_edges true true s =
    edges-append (emit_fallback_wash_start s) (emit_fallback_wash_fade s)
    ∙ ap₂ ◌++◌ (start_edges s) (fade_edges s)
tick_edges true false s =
    edges-append (emit_fallback_wash_start s) [] ∙ ap₂ ◌++◌ (start_edges s) refl
tick_edges false true s = fade_edges s
tick_edges false false s = refl

pub config_edges : (frame : Bytes) → edges (config_received frame ∷ []) ≡ []
unfolding edges
config_edges frame = refl

pub edges_none : edges [] ≡ []
unfolding edges
edges_none = refl

-- The flags of the fallback, with the tests of the silence `enters` and `ends`.
edge_phases :
    (active faded enters ends : Bool)
    → (active ≡ false → faded ≡ false)
    → let starting = not active && enters in
      let ending = (active || starting) && not faded && ends in
      (follow
          (phase_at active faded)
          ((if starting then starts ∷ [] else []) ++ (if ending then fades ∷ [] else []))
        ≡ some (phase_at (active || starting) (faded || ending)))
      × (active || starting ≡ false → faded || ending ≡ false)
unfolding follow_from
edge_phases true true enters ends h = (refl, λ e. absurd (ground (arith, e)))
edge_phases true false enters true h = (refl, λ e. absurd (ground (arith, e)))
edge_phases true false enters false h = (refl, λ e. refl)
edge_phases false true enters ends h = absurd (ground (arith, h refl))
edge_phases false false true true h = (refl, λ e. absurd (ground (arith, e)))
edge_phases false false true false h = (refl, λ e. refl)
edge_phases false false false ends h = (refl, λ e. refl)

pub fallback_edges-Follows : (now : ℕ) (s : Lume) → IsPhased s → Follows s (fallback_edges now s)
unfolding fallback_edges
fallback_edges-Follows now s phased =
    let silence = age now s.last_rx_ms in
    let enters = ltb fallback_enter_ms silence in
    let ends = ltb fallback_fade_start_ms silence in
    let starting = not s.fallback_active && enters in
    let on_now = s.fallback_active || starting in
    let ending = on_now && not s.fallback_fading && ends in
    let (leads, keeps) = edge_phases s.fallback_active s.fallback_fading enters ends phased in
    Follows-either (s.rx_count == 0) s (s, [])
      (
        record s { fallback_active = on_now; fallback_fading = s.fallback_fading || ending },
        (if starting then emit_fallback_wash_start s else [])
            ++ (if ending then emit_fallback_wash_fade s else []),
      )
      (stay s (s, []) phased (SameCore-refl s) (edges_none))
      (record {
        phased = keeps;
        leads = ap (λ es. follow (phase_of s) es) (tick_edges starting ending s) ∙ leads;
      })
