-- ===== src/DmxMapper/Strobes.antt =====
-- dmx_channel_mapper.cpp: the pace of the strobe.
use nocturnation_stickc.DmxMapper.{maybe_emit_strobe, channel}
use nocturnation_stickc.Prelude.{
  set, All, ℕ, ◌+◌, ◌-◌, ◌*◌, ◌/◌, ◌^◌, ◌≤◌, ◌<◌, ◌≡◌, sym, subst, ◌∙◌, ◌≢◌, ◌⊎◌, List, [], ◌∷◌,
  ◌++◌, arith,
}
use nocturnation_stickc.Frame.Types.{Bytes}
use nocturnation_stickc.DmxMapper.Pulses.{pulse_count-append, pulse_count}
use nocturnation_stickc.DmxMapper.Types.{SinkCall, DmxChannelMapper, min_strobe_interval_ms}
use native.Mathlib.Nat.{div-le_self}

-- `maybe_emit_strobe` on a run of blocks, each with its time.
unfoldable pub strobes : DmxChannelMapper → List (Bytes × ℕ) → DmxChannelMapper × List SinkCall
strobes m [] = (m, [])
strobes m ((block, now) ∷ rest) =
    let (m1, calls) = maybe_emit_strobe m block (channel block 0) now in
    let (m2, more) = strobes m1 rest in (m2, calls ++ more)

-- A block at `rate`, no later than `last`.
abbrev pub IsPaced : ℕ → ℕ → Bytes × ℕ → Type 0
IsPaced rate last (block, now) = (channel block 1 ≡ rate) × (now ≤ last)

-- With a deadline set, a call at the same rate fires at the deadline and not before it.
record StrobeStep (m : DmxChannelMapper) (now : ℕ) (r : DmxChannelMapper × List SinkCall)
    : Type 0 where
  same_rate : r.0.last_strobe_rate ≡ m.last_strobe_rate
  paced :
      ((pulse_count r.1 ≡ 1)
        × ((m.next_strobe_fire_ms ≤ now)
            × (now + min_strobe_interval_ms ≤ r.0.next_strobe_fire_ms)))
      ⊎ ((pulse_count r.1 ≡ 0) × (r.0.next_strobe_fire_ms ≡ m.next_strobe_fire_ms))

strobe_step :
    (m : DmxChannelMapper) (block : Bytes) (now : ℕ)
    → channel block 1 ≡ m.last_strobe_rate
    → m.last_strobe_rate ≢ 0
    → m.next_strobe_fire_ms ≢ 0
    → now + 63750 < 2 ^ 32
    → StrobeStep m now (maybe_emit_strobe m block (channel block 0) now)
unfolding maybe_emit_strobe
strobe_step m block now same on set wrap =
    let short : 63750 / m.last_strobe_rate ≤ 63750 = div-le_self 63750 m.last_strobe_rate in
    rw same (record { same_rate = ground arith; paced = ground arith })

-- While a rate that is not 0 is held and a deadline is set, pulses come no faster than one in 250 ms:
-- of the calls up to the time `last` (63,750 ms or more before the clock wraps) none fires before the
-- deadline, and n pulses take up at least n - 1 gaps of 250 ms after it.
pub strobes_paced :
    (m : DmxChannelMapper) (history : List (Bytes × ℕ)) (last : ℕ)
    → All (IsPaced m.last_strobe_rate last) history
    → m.last_strobe_rate ≢ 0
    → m.next_strobe_fire_ms ≢ 0
    → last + 63750 < 2 ^ 32
    → pulse_count (strobes m history).1 * min_strobe_interval_ms
      ≤ last + min_strobe_interval_ms - m.next_strobe_fire_ms
unfolding strobes
strobes_paced m [] last h on set wrap = omega arith
strobes_paced m ((block, now) ∷ rest) last h on set wrap =
    let (m1, calls) = maybe_emit_strobe m block (channel block 0) now in
    let s = strobe_step m block now h.0.0 on set (omega (arith, h.0.1)) in
    let h1 : All (IsPaced m1.last_strobe_rate last) rest =
      subst (λ rate. All (IsPaced rate last) rest) (sym s.same_rate) h.1 in
    let ih =
      strobes_paced m1 rest last h1 (λ e. on (sym s.same_rate ∙ e)) (ground (arith, s.paced, set))
        wrap in
    ground (arith, s.paced, ih, pulse_count-append calls (strobes m1 rest).1, h.0.1)
