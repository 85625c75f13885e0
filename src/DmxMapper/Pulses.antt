-- ===== src/DmxMapper/Pulses.antt =====
-- dmx_channel_mapper.cpp: when the trigger channel fires a pulse.
use nocturnation_stickc.DmxMapper.Held.{process_raw, process_not_raw}
use nocturnation_stickc.DmxMapper.Steps.{entered}
use nocturnation_stickc.DmxMapper.Settling.{run}
use nocturnation_stickc.DmxMapper.{
  maybe_emit_wash_on_change, maybe_emit_raw_wash_on_change, maybe_emit_pulse_on_trigger,
  maybe_emit_strobe, process_fx, process, channel,
}
use nocturnation_stickc.Prelude.{
  ltb, leb, if◌then◌else◌, Bool-cases, length, All, ℕ, suc, ◌+◌, ◌≤◌, ◌≡◌, refl, ap, ap₂, ◌∙◌, inl,
  inr, Bool, true, false, not, ◌&&◌, List, [], ◌∷◌, ◌++◌, arith,
}
use nocturnation_stickc.Frame.Types.{Bytes}
use nocturnation_stickc.DmxMapper.Types.{
  SinkCall, DmxChannelMapper, raw_enable_threshold, active_channels_per_block, on_pulse, on_wash,
}

-- How many pulses the calls hold.
abbrev pub pulse_count : List SinkCall → ℕ
pulse_count [] = 0
pulse_count (on_pulse _ _ ∷ calls) = suc (pulse_count calls)
pulse_count (on_wash _ _ ∷ calls) = pulse_count calls

pub pulse_count-append :
    (xs ys : List SinkCall) → pulse_count (xs ++ ys) ≡ pulse_count xs + pulse_count ys
pulse_count-append [] ys = omega arith
pulse_count-append (on_pulse _ _ ∷ xs) ys = omega (arith, pulse_count-append xs ys)
pulse_count-append (on_wash _ _ ∷ xs) ys = pulse_count-append xs ys

-- The trigger channel is seen low; a raw block hides it.
abbrev pub is_low : Bytes → Bool
is_low block = not (leb raw_enable_threshold (channel block 26)) && ltb (channel block 5) 128

-- The trigger channel is seen to cross 128 upwards.
abbrev pub crosses : Bool → Bytes → Bool
crosses was_low block =
    not (leb raw_enable_threshold (channel block 26)) && (was_low && leb 128 (channel block 5))

-- How many times it does so in a history.
unfoldable pub rising_edges : Bool → List (Bytes × ℕ) → ℕ
rising_edges was_low [] = 0
rising_edges was_low ((block, now) ∷ rest) =
    let more = rising_edges (is_low block) rest in if crosses was_low block then suc more else more

if_suc : (b : Bool) (n : ℕ) → (if b then 1 else 0) + n ≡ (if b then suc n else n)
if_suc true n = omega arith
if_suc false n = omega arith

-- A full block with the strobe off.
abbrev pub IsQuiet : Bytes × ℕ → Type 0
IsQuiet (block, now) = (active_channels_per_block ≤ length block) × (channel block 1 ≡ 0)

-- What `process` does about the trigger.
record TriggerStep (m : DmxChannelMapper) (block : Bytes) (r : DmxChannelMapper × List SinkCall)
    : Type 0 where
  armed : r.0.pulse_armed ≡ is_low block
  fired : pulse_count r.1 ≡ (if crosses m.pulse_armed block then 1 else 0)

module _ (m : DmxChannelMapper) (block : Bytes) (now : ℕ) where
  wash-keeps :
      let r = maybe_emit_wash_on_change (entered m) block (channel block 0) now in
      (r.0.pulse_armed ≡ m.pulse_armed) × (pulse_count r.1 ≡ 0)
  unfolding maybe_emit_wash_on_change
  wash-keeps = ground arith

  raw-keeps : pulse_count (maybe_emit_raw_wash_on_change m block (channel block 0) now).1 ≡ 0
  unfolding maybe_emit_raw_wash_on_change
  raw-keeps = ground arith

  trigger_step :
      let r = maybe_emit_pulse_on_trigger m block (channel block 0) in
      (r.0.pulse_armed ≡ ltb (channel block 5) 128)
      × (pulse_count r.1 ≡ (if m.pulse_armed && leb 128 (channel block 5) then 1 else 0))
  unfolding maybe_emit_pulse_on_trigger
  trigger_step = ground arith

  strobe_off :
      channel block 1 ≡ 0
      → maybe_emit_strobe m block (channel block 0) now
        ≡ (record m { last_strobe_rate = 0; next_strobe_fire_ms = 0 }, [])
  unfolding maybe_emit_strobe
  strobe_off off = rw off

module _ (m : DmxChannelMapper) (block : Bytes) (now : ℕ) where
  fx_trigger :
      channel block 1 ≡ 0
      → let r = process_fx m block now in
        (r.0.pulse_armed ≡ ltb (channel block 5) 128)
        × (pulse_count r.1 ≡ (if m.pulse_armed && leb 128 (channel block 5) then 1 else 0))
  unfolding process_fx
  fx_trigger off =
      let w = maybe_emit_wash_on_change (entered m) block (channel block 0) now in
      let p = maybe_emit_pulse_on_trigger w.0 block (channel block 0) in
      let (kept, quiet) = wash-keeps m block now in
      let (armed, fired) = trigger_step w.0 block now in
      let count : pulse_count (w.1 ++ (p.1 ++ [])) ≡ pulse_count p.1 =
        omega (arith, pulse_count-append w.1 (p.1 ++ []), pulse_count-append p.1 [], quiet) in
      rw (strobe_off p.0 block now off) (armed, count ∙ fired ∙ (rw kept))

  process-TriggerStep : IsQuiet (block, now) → TriggerStep m block (process m block now)
  process-TriggerStep (full, off) =
      elim (Bool-cases (leb raw_enable_threshold (channel block 26))) [
        | inl raw ↦
            rw (process_raw m block now full raw)
              (record { armed = rw raw; fired = raw-keeps m block now ∙ (rw raw) })
        | inr fx ↦
            let (armed, fired) = fx_trigger off in
            rw (process_not_raw m block now full fx)
              (record { armed = armed ∙ (rw fx); fired = fired ∙ (rw fx) })
      ]

-- A history of full blocks with the strobe off gives one pulse for each upward crossing of 128 of the
-- trigger channel, however long the channel stays high and whatever the wash does; raw blocks give none.
pub run-rising_edges :
    (m : DmxChannelMapper) (history : List (Bytes × ℕ))
    → All IsQuiet history
    → pulse_count (run m history).1 ≡ rising_edges m.pulse_armed history
unfolding run rising_edges
run-rising_edges m [] h = refl
run-rising_edges m ((block, now) ∷ rest) h =
    let (m1, calls) = process m block now in
    let t = process-TriggerStep m block now h.0 in
    let ih : pulse_count (run m1 rest).1 ≡ rising_edges (is_low block) rest =
      run-rising_edges m1 rest h.1 ∙ ap (λ a. rising_edges a rest) t.armed in
    pulse_count-append calls (run m1 rest).1
    ∙ ap₂ ◌+◌ t.fired ih
    ∙ if_suc (crosses m.pulse_armed block) (rising_edges (is_low block) rest)
