-- ===== src/Lume/Fallback.antt =====
-- src/modes/lume_mode.cpp: the fallback wash over a session.
use nocturnation_stickc.Tofu.{admit, tick}
use nocturnation_stickc.Repeater.{no_header, is_ok}
use nocturnation_stickc.Lume.Unmarked.{edges-drain, edges-scan, edges-render}
use nocturnation_stickc.Frame.Wire.{decode_header}
use nocturnation_stickc.Lume.Quality.{note_frame}
use nocturnation_stickc.Lume.FanOut.{emit_fallback_wash_recovery}
use nocturnation_stickc.Lume.Receive.{
  refresh, mark, take_fresh, take_admitted, receive, track_offset, seen_before, stage_repeat,
  render,
}
use nocturnation_stickc.Prelude.{
  ltb, ◌==◌, if◌then◌else◌, Bool-cases, length, ℕ, ◌%◌, ◌^◌, ◌≡◌, refl, sym, ap, ap₂, ◌∙◌, inl, inr,
  Bool, true, false, not, ◌||◌, some, List, [], ◌∷◌, ◌++◌,
}
use nocturnation_stickc.Frame.Types.{
  Bytes, Header, same_type, config_write, uid_announce, config_ack, repeater_heartbeat,
}
use nocturnation_stickc.Broadcaster.Types.{Antenna}
use nocturnation_stickc.Lume.Core.{
  SameCore, SameCore-refl, SameCore-trans, track_offset-SameCore, stage_repeat-SameCore,
  render-SameCore, drain-SameCore, scan-SameCore,
}
use nocturnation_stickc.Lume.Types.{LumeCall, Lume, max_hop_count, config_received}
use nocturnation_stickc.Lume.Phases.{
  Follows, fallback_edges-Follows, stay, Follows-either, phase_at, edges_none, recovery_edges,
  chain, config_edges,
}
use nocturnation_stickc.Lume.Edges.{IsPhased, edges, follow_from, phase_of, follow, off, recovers}
use nocturnation_stickc.Lume.Runs.{Event, step, run, heard, ticked}
use nocturnation_stickc.Lume.Ticking.{
  enter, loop_tick, EnterReads, drain, fallback_edges, scan, loses_signal,
}

drain-Follows :
    (antenna : Antenna) (now : ℕ) (s : Lume) → IsPhased s → Follows s (drain antenna now s)
drain-Follows antenna now s phased =
    stay s (drain antenna now s) phased (drain-SameCore antenna now s) (edges-drain antenna now s)

tick-Follows :
    (antenna : Antenna) (now : ℕ) (s : Lume) → IsPhased s → Follows s (loop_tick antenna now s)
unfolding loop_tick
tick-Follows antenna now s phased =
    let r1 = drain antenna now s in
    let r2 = fallback_edges now r1.0 in
    let r3 = scan antenna now r2.0 in
    let drained = drain-Follows antenna now s phased in
    let edged = fallback_edges-Follows now r1.0 drained.phased in
    let scanned =
      stay r2.0 r3 edged.phased (scan-SameCore antenna now r2.0) (edges-scan antenna now r2.0) in
    let whole = chain s r1 (r3.0, r2.1 ++ r3.1) drained (chain r1.0 r2 r3 edged scanned) in
    Follows-either (loses_signal now r1.0) s
      (record r1.0 { no_signal = true; last_chan_switch_ms = now }, r1.1)
      (record r3.0 { tofu = (tick r3.0.tofu now).0 }, r1.1 ++ (r2.1 ++ r3.1))
      (record { phased = drained.phased; leads = drained.leads })
      (record { phased = whole.phased; leads = whole.leads })

recovery_if :
    (active : Bool) (s : Lume)
    → edges (if active then emit_fallback_wash_recovery s else [])
      ≡ (if active then recovers ∷ [] else [])
unfolding edges
recovery_if true s = recovery_edges s
recovery_if false s = refl

refresh_phases :
    (active faded : Bool)
    → (active ≡ false → faded ≡ false)
    → (follow (phase_at active faded) (if active then recovers ∷ [] else []) ≡ some off)
      × ((if active then false else faded) ≡ false)
unfolding follow_from
refresh_phases true true h = (refl, refl)
refresh_phases true false h = (refl, refl)
refresh_phases false faded h = (refl, h refl)

refresh-Follows : (now : ℕ) (hdr : Header) (s : Lume) → IsPhased s → Follows s (refresh now hdr s)
unfolding refresh
refresh-Follows now hdr s phased =
    let (leads, clear_now) = refresh_phases s.fallback_active s.fallback_fading phased in
    record {
      phased = λ _. clear_now;
      leads = ap (λ es. follow (phase_of s) es) (recovery_if s.fallback_active s) ∙ leads;
    }

mark_flags :
    (src seq : ℕ) (s : Lume)
    → ((mark src seq s).fallback_active ≡ s.fallback_active)
      × ((mark src seq s).fallback_fading ≡ s.fallback_fading)
unfolding mark
mark_flags src seq s = elim (Bool-cases (seq == 0)) [
  | inl e ↦ rw (mark, e) (refl, refl)
  | inr e ↦ rw (mark, e) (refl, refl)
]

fresh-Follows :
    (frame : Bytes) (hdr : Header) (s : Lume) → IsPhased s → Follows s (take_fresh frame hdr s)
unfolding take_fresh
fresh-Follows frame hdr s phased =
    let marked = mark hdr.source_id hdr.sequence_number s in
    let noted = record marked {
      quality = note_frame (hdr.source_id % 2 ^ 8) hdr.sequence_number s.last_rx_ms marked.quality;
    } in
    let tracked = track_offset frame hdr noted in
    let staged = stage_repeat frame hdr tracked in
    let r = render frame hdr staged in
    let same : SameCore noted r.0 =
      SameCore-trans noted tracked r.0 (track_offset-SameCore frame hdr noted) (
        SameCore-trans tracked staged r.0 (stage_repeat-SameCore frame hdr tracked)
          (render-SameCore frame hdr staged)) in
    let (active, faded) = mark_flags hdr.source_id hdr.sequence_number s in
    let noted_phased : IsPhased noted = λ h. faded ∙ phased (sym active ∙ h) in
    let f = stay noted r noted_phased same (edges-render frame hdr staged) in
    record {
      phased = f.phased;
      leads = ap (λ p. follow p (edges r.1)) (sym (ap₂ phase_at active faded)) ∙ f.leads;
    }

admitted-Follows :
    (frame : Bytes) (hdr : Header) (now : ℕ) (s : Lume)
    → IsPhased s
    → Follows s (take_admitted frame hdr now s)
unfolding take_admitted
admitted-Follows frame hdr now s phased =
    let r = refresh now hdr s in
    let t = take_fresh frame hdr r.0 in
    let alive = refresh-Follows now hdr s phased in
    Follows-either (seen_before r.0 hdr.source_id hdr.sequence_number) s r (t.0, r.1 ++ t.1) alive
      (chain s r t alive (fresh-Follows frame hdr r.0 alive.phased))

receive-Follows :
    (frame : Bytes) (now : ℕ) (s : Lume) → IsPhased s → Follows s (receive frame now s)
unfolding receive
receive-Follows frame now s phased =
    let (verdict, hdr) = decode_header frame (length frame) no_header in
    let (lock, passes) = admit s.tofu hdr.message_type hdr.source_id s.listen_channel now in
    let admitted = record s { tofu = lock } in
    let R = Lume × List LumeCall in
    let taken : R = take_admitted frame hdr now admitted in
    let c5 : R = if not passes then (admitted, []) else taken in
    let c4 : R = if ltb max_hop_count hdr.hop_count then (s, []) else c5 in
    let c3 : R =
      if same_type hdr.message_type config_write then (s, config_received frame ∷ []) else c4 in
    let c2 : R =
      if same_type hdr.message_type uid_announce || same_type hdr.message_type config_ack
      then (s, [])
      else c3 in
    let c1 : R = if same_type hdr.message_type repeater_heartbeat then (s, []) else c2 in
    let dropped = stay s (s, []) phased (SameCore-refl s) edges_none in
    let whole = admitted-Follows frame hdr now admitted phased in
    Follows-either (not (is_ok verdict)) s (s, []) c1 dropped
      (Follows-either (same_type hdr.message_type repeater_heartbeat) s (s, []) c2 dropped
        (Follows-either
          (same_type hdr.message_type uid_announce || same_type hdr.message_type config_ack) s
          (s, []) c3 dropped
          (Follows-either (same_type hdr.message_type config_write) s
            (s, config_received frame ∷ []) c4
            (stay s (s, config_received frame ∷ []) phased (SameCore-refl s) (config_edges frame))
            (Follows-either (ltb max_hop_count hdr.hop_count) s (s, []) c5 dropped
              (Follows-either (not passes) s (admitted, []) taken
                (record { phased = phased; leads = dropped.leads })
                (record { phased = whole.phased; leads = whole.leads }))))))

step-Follows : (e : Event) (s : Lume) → IsPhased s → Follows s (step e s)
unfolding step
step-Follows (heard frame now) s phased = receive-Follows frame now s phased
step-Follows (ticked antenna now) s phased = tick-Follows antenna now s phased

run-Follows : (events : List Event) (s : Lume) → IsPhased s → Follows s (run s events)
unfolding run
run-Follows [] s phased = stay s (s, []) phased (SameCore-refl s) edges_none
run-Follows (e ∷ events) s phased =
    let now = step-Follows e s phased in
    chain s (step e s) (run (step e s).0 events) now (run-Follows events (step e s).0 now.phased)

enter_off :
    (reads : EnterReads) (s : Lume) → (phase_of (enter reads s) ≡ off) × IsPhased (enter reads s)
unfolding enter
enter_off reads s = (refl, λ _. refl)

-- From an entry on, whatever is heard and whenever the loop ticks, the fallback events come in order: the wash
-- starts only when it is off, fades at most once and only when it is on, and recovers only when it has
-- started; and the flags of the Lume say at the end which phase the events have reached.
pub fallback-ordered :
    (reads : EnterReads) (s : Lume) (events : List Event)
    → let r = run (enter reads s) events in follow off (edges r.1) ≡ some (phase_of r.0)
fallback-ordered reads s events =
    let (start, phased) = enter_off reads s in
    let r = run (enter reads s) events in
    ap (λ p. follow p (edges r.1)) (sym start) ∙ (run-Follows events (enter reads s) phased).leads
