-- ===== src/DmxMapper/Steps.antt =====
-- dmx_channel_mapper.cpp: the ways in which each part of `process` can go.

use nocturnation_stickc.DmxMapper.{
  same_rgb, same_wash, maybe_emit_pulse_on_trigger, maybe_emit_strobe, process_fx,
  maybe_emit_wash_on_change, maybe_emit_raw_wash_on_change, wash_event, wash_channels,
  raw_wash_event, scaled_raw, strobe_interval, build_pulse_event, channel,
}
use nocturnation_stickc.DmxMapper.Types.{
  LightWashEvent, SinkCall, WashMemory, DmxChannelMapper, min_wash_emit_gap_ms,
  min_raw_wash_emit_gap_ms, on_wash, on_pulse, trigger_lo, trigger_hi,
}
use nocturnation_stickc.Prelude.{
  ltb, leb, ◌==◌, ◌!=◌, if◌then◌else◌, Bool-cases, elapsed, later, ℕ, ◌<◌, ◌≡◌, refl, ap, ◌∙◌, inl,
  inr, Bool, true, false, ◌&&◌, ◌||◌, Option, some, List, [], ◌∷◌, ◌++◌, arith,
}
use nocturnation_stickc.Frame.Types.{Bytes}

-- The wash that receivers were last told, after some calls of the sink.
abbrev pub told_after : Option LightWashEvent → List SinkCall → Option LightWashEvent
told_after told [] = told
told_after told (on_wash _ ev ∷ calls) = told_after (some ev) calls
told_after told (on_pulse _ _ ∷ calls) = told_after told calls

-- Calls that send no wash.
abbrev pub OnlyPulses : List SinkCall → Type 0
OnlyPulses calls = (told : Option LightWashEvent) → told_after told calls ≡ told

pub told_after-append :
    (told : Option LightWashEvent) (xs ys : List SinkCall)
    → told_after told (xs ++ ys) ≡ told_after (told_after told xs) ys
told_after-append told [] ys = refl
told_after-append told (on_wash _ ev ∷ xs) ys = told_after-append (some ev) xs ys
told_after-append told (on_pulse _ _ ∷ xs) ys = told_after-append told xs ys

same_rgb_eq : (x y : ℕ × ℕ × ℕ) → same_rgb x y ≡ true → x ≡ y
same_rgb_eq (r, g, b) (r', g', b') h = ground arith

same_wash_eq : (w v : WashMemory) → same_wash w v ≡ true → w ≡ v
same_wash_eq w v h = ground arith

pulse_shape :
    (m : DmxChannelMapper) (ch : Bytes) (master : ℕ)
    → (armed : Bool) × (trig : ℕ) × (calls : List SinkCall) × (maybe_emit_pulse_on_trigger m ch
          master
        ≡ (record m { pulse_armed = armed; last_trigger = trig }, calls))
      × OnlyPulses calls
unfolding maybe_emit_pulse_on_trigger
pulse_shape m ch master =
    let trig = channel ch 5 in
    let armed = if ltb trig trigger_lo then true else m.pulse_armed in
    elim (Bool-cases (armed && leb trigger_hi trig)) [
      | inl fires ↦ (
        false,
        trig,
        on_pulse m.target_group (build_pulse_event ch master) ∷ [],
        rw fires,
        λ told. refl,
      )
      | inr not_now ↦ (armed, trig, [], rw not_now, λ told. refl)
    ]

strobe_shape :
    (m : DmxChannelMapper) (ch : Bytes) (master now : ℕ)
    → (rate : ℕ) × (due : ℕ) × (calls : List SinkCall) × (maybe_emit_strobe m ch master now
        ≡ (record m { last_strobe_rate = rate; next_strobe_fire_ms = due }, calls))
      × OnlyPulses calls
unfolding maybe_emit_strobe
strobe_shape m ch master now =
    let rate = channel ch 1 in
    let due = later now (strobe_interval rate) in
    let pulse = on_pulse m.target_group (build_pulse_event ch master) in
    elim (Bool-cases (rate == 0)) [
      | inl off ↦ (0, 0, [], rw off, λ told. refl)
      | inr on ↦
          elim (Bool-cases (
            rate != m.last_strobe_rate
            || (m.next_strobe_fire_ms != 0 && leb m.next_strobe_fire_ms now))) [
              | inl fires ↦ (rate, due, pulse ∷ [], rw (on, fires), λ told. refl)
              | inr not_now ↦ elim (Bool-cases (m.next_strobe_fire_ms == 0)) [
                | inl unset ↦ (rate, due, [], rw (on, not_now, unset), λ told. refl)
                | inr pending ↦
                    (rate, m.next_strobe_fire_ms, [], rw (on, not_now, pending), λ told. refl)
              ]
            ]
    ]

-- The FX mapper as `process` enters it: out of raw mode the wash counts as never sent.
abbrev pub entered : DmxChannelMapper → DmxChannelMapper
entered m = if m.raw_active then record m { raw_active = false; wash_seeded = false } else m

-- On the FX path pulse and strobe leave the wash alone.
pub process_fx_shape :
    (m : DmxChannelMapper) (block : Bytes) (now : ℕ)
    → let w = maybe_emit_wash_on_change (entered m) block (channel block 0) now in
      (armed : Bool) × (trig : ℕ) × (rate : ℕ) × (due : ℕ) × (calls : List SinkCall) × (process_fx m
          block now
        ≡ (
          record w.0 {
            pulse_armed = armed;
            last_trigger = trig;
            last_strobe_rate = rate;
            next_strobe_fire_ms = due;
          },
          w.1 ++ calls,
        ))
      × OnlyPulses calls
unfolding process_fx
process_fx_shape m block now =
    let master = channel block 0 in
    let w = maybe_emit_wash_on_change (entered m) block master now in
    let (armed, trig, pulses, p, quiet) = pulse_shape w.0 block master in
    let (rate, due, strobes, s, still) =
      strobe_shape (record w.0 { pulse_armed = armed; last_trigger = trig }) block master now in
    (
      armed,
      trig,
      rate,
      due,
      pulses ++ strobes,
      rw (p, s),
      λ told.
          told_after-append told pulses strobes
          ∙ ap (λ t. told_after t strobes) (quiet told)
          ∙ still told,
    )

-- The wash is unchanged, or held back, or sent.
pub data WashCase (m : DmxChannelMapper) (asked : WashMemory) (now : ℕ)
    (r : DmxChannelMapper × List SinkCall) : Type 0 where
  unchanged : m.wash_seeded ≡ true → asked ≡ m.last_wash → r ≡ (m, []) → WashCase m asked now r
  held :
      m.wash_seeded ≡ true
      → elapsed now m.last_wash_emit_ms < min_wash_emit_gap_ms
      → r ≡ (m, [])
      → WashCase m asked now r
  sent :
      r ≡ (
        record m { last_wash = asked; last_wash_emit_ms = now; wash_seeded = true },
        on_wash m.target_group (wash_event asked) ∷ [],
      )
      → WashCase m asked now r

pub wash_case :
    (m : DmxChannelMapper) (ch : Bytes) (master now : ℕ)
    → WashCase m (wash_channels ch master) now (maybe_emit_wash_on_change m ch master now)
unfolding maybe_emit_wash_on_change
wash_case m ch master now =
    let asked = wash_channels ch master in
    elim (Bool-cases (m.wash_seeded && same_wash asked m.last_wash)) [
      | inl same ↦
          unchanged (ground (arith, same)) (same_wash_eq asked m.last_wash (ground (arith, same)))
            (rw same)
      | inr differs ↦
          elim (Bool-cases
            (m.wash_seeded && ltb (elapsed now m.last_wash_emit_ms) min_wash_emit_gap_ms)) [
              | inl early ↦
                  held (ground (arith, early)) (ground (arith, early)) (rw (differs, early))
              | inr due ↦ sent (rw (differs, due))
            ]
    ]

pub data RawCase (m : DmxChannelMapper) (rgb : ℕ × ℕ × ℕ) (now : ℕ)
    (r : DmxChannelMapper × List SinkCall) : Type 0 where
  unchanged : m.raw_active ≡ true → rgb ≡ m.last_raw → r ≡ (m, []) → RawCase m rgb now r
  held :
      m.raw_active ≡ true
      → elapsed now m.last_wash_emit_ms < min_raw_wash_emit_gap_ms
      → r ≡ (m, [])
      → RawCase m rgb now r
  sent :
      r ≡ (
        record m { raw_active = true; last_raw = rgb; last_wash_emit_ms = now },
        on_wash m.target_group (raw_wash_event rgb) ∷ [],
      )
      → RawCase m rgb now r

pub raw_case :
    (m : DmxChannelMapper) (ch : Bytes) (master now : ℕ)
    → RawCase m (scaled_raw ch master) now (maybe_emit_raw_wash_on_change m ch master now)
unfolding maybe_emit_raw_wash_on_change
raw_case m ch master now =
    let rgb = scaled_raw ch master in
    elim (Bool-cases (m.raw_active && same_rgb rgb m.last_raw)) [
      | inl same ↦
          RawCase.unchanged (ground (arith, same))
            (same_rgb_eq rgb m.last_raw (ground (arith, same))) (rw same)
      | inr differs ↦
          elim (Bool-cases
            (m.raw_active && ltb (elapsed now m.last_wash_emit_ms) min_raw_wash_emit_gap_ms)) [
              | inl early ↦
                  RawCase.held (ground (arith, early)) (ground (arith, early)) (rw (differs, early))
              | inr due ↦ RawCase.sent (rw (differs, due))
            ]
    ]
