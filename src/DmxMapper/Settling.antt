-- ===== src/DmxMapper/Settling.antt =====
-- dmx_channel_mapper.cpp: what receivers are told of the wash, through a history of blocks.
use nocturnation_stickc.DmxMapper.{
  raw_wash_event, channel, scaled_raw, process, wash_event, wash_channels,
}
use nocturnation_stickc.Prelude.{
  ltb, leb, if◌then◌else◌, Bool-cases, length, ℕ, ◌≡◌, refl, ◌⊎◌, inl, inr, Bool, false, Option,
  none, some, List, ◌++◌, All, ◌∙◌, true, [], ◌∷◌, arith,
}
use nocturnation_stickc.Frame.Types.{Bytes, IsDword}
use nocturnation_stickc.DmxMapper.Steps.{
  OnlyPulses, WashCase, RawCase, told_after, entered, raw_case, process_fx_shape, wash_case,
  told_after-append,
}
use nocturnation_stickc.DmxMapper.Types.{
  LightWashEvent, SinkCall, DmxChannelMapper, raw_enable_threshold, active_channels_per_block,
}

-- The wash that the mapper remembers as sent.
abbrev pub remembered : DmxChannelMapper → Option LightWashEvent
remembered m =
    if m.raw_active
    then some (raw_wash_event m.last_raw)
    else if m.wash_seeded
    then some (wash_event m.last_wash)
    else none

-- The wash that a block asks for.
abbrev pub commanded : Bytes → LightWashEvent
commanded block =
    let master = channel block 0 in
    if leb raw_enable_threshold (channel block 26)
    then raw_wash_event (scaled_raw block master)
    else wash_event (wash_channels block master)

pub entered_fx : (m : DmxChannelMapper) → (entered m).raw_active ≡ false
entered_fx m = elim (Bool-cases m.raw_active) [ inl raw ↦ rw raw | inr fx ↦ rw fx ]

-- With a wash on record the FX path is entered from itself.
pub entered_same : (m : DmxChannelMapper) → (entered m).wash_seeded ≡ true → entered m ≡ m
entered_same m on = elim (Bool-cases m.raw_active) [
  | inl raw ↦ absurd (ground (arith, raw))
  | inr fx ↦ rw fx
]

-- After a step the mapper remembers what was told, and knows when.
record Tells (told : Option LightWashEvent) (m : DmxChannelMapper) (now : ℕ)
    (r : DmxChannelMapper × List SinkCall) : Type 0 where
  same_told : told_after told r.1 ≡ remembered r.0
  emit_time : (r.0.last_wash_emit_ms ≡ m.last_wash_emit_ms) ⊎ (r.0.last_wash_emit_ms ≡ now)

module _ (told : Option LightWashEvent) (m : DmxChannelMapper) (block : Bytes) (now : ℕ)
    (start : told ≡ remembered m) where
  raw-Tells :
      (r : DmxChannelMapper × List SinkCall)
      → RawCase m (scaled_raw block (channel block 0)) now r
      → Tells told m now (record r.0 { pulse_armed = false }, r.1)
  raw-Tells r (RawCase.unchanged on same e) =
      rw e (record { same_told = start; emit_time = inl refl })
  raw-Tells r (RawCase.held on early e) = rw e (record { same_told = start; emit_time = inl refl })
  raw-Tells r (RawCase.sent e) = rw e (record { same_told = refl; emit_time = inr refl })

  fx-Tells :
      (r : DmxChannelMapper × List SinkCall) (armed : Bool) (trig rate due : ℕ)
      (calls : List SinkCall)
      → WashCase (entered m) (wash_channels block (channel block 0)) now r
      → OnlyPulses calls
      → Tells told m now (
        record r.0 {
          pulse_armed = armed;
          last_trigger = trig;
          last_strobe_rate = rate;
          next_strobe_fire_ms = due;
        },
        r.1 ++ calls,
      )
  fx-Tells r armed trig rate due calls (WashCase.unchanged on same e) quiet =
      rw (e, entered_same m on) (record { same_told = quiet told ∙ start; emit_time = inl refl })
  fx-Tells r armed trig rate due calls (WashCase.held on early e) quiet =
      rw (e, entered_same m on) (record { same_told = quiet told ∙ start; emit_time = inl refl })
  fx-Tells r armed trig rate due calls (WashCase.sent e) quiet =
      rw e (record { same_told = quiet _ ∙ (rw (entered_fx m)); emit_time = inr refl })

  process-Tells : Tells told m now (process m block now)
  unfolding process
  process-Tells = elim (Bool-cases (ltb (length block) active_channels_per_block)) [
    | inl short ↦ rw short (record { same_told = start; emit_time = inl refl })
    | inr long ↦ elim (Bool-cases (leb raw_enable_threshold (channel block 26))) [
      | inl raw ↦ rw (long, raw) (raw-Tells _ (raw_case m block (channel block 0) now))
      | inr fx ↦
          let (armed, trig, rate, due, calls, e, quiet) = process_fx_shape m block now in
          rw (long, fx, e)
            (fx-Tells _ armed trig rate due calls
              (wash_case (entered m) block (channel block 0) now) quiet)
    ]
  ]

-- A history of blocks, each with its time.
unfoldable pub run : DmxChannelMapper → List (Bytes × ℕ) → DmxChannelMapper × List SinkCall
run m [] = (m, [])
run m ((block, now) ∷ rest) =
    let (m1, calls) = process m block now in let (m2, more) = run m1 rest in (m2, calls ++ more)

abbrev pub IsTimed : Bytes × ℕ → Type 0
IsTimed (block, now) = IsDword now

-- After a history the mapper remembers what was told last, and its time is a time of the history.
pub run-Tells :
    (told : Option LightWashEvent) (m : DmxChannelMapper) (history : List (Bytes × ℕ))
    → told ≡ remembered m
    → IsDword m.last_wash_emit_ms
    → All IsTimed history
    → (told_after told (run m history).1 ≡ remembered (run m history).0)
      × IsDword (run m history).0.last_wash_emit_ms
unfolding run
run-Tells told m [] start time h = (start, time)
run-Tells told m ((block, now) ∷ rest) start time h =
    let t = process-Tells told m block now start in
    let time' : IsDword (process m block now).0.last_wash_emit_ms =
      ground (arith, t.emit_time, time, h.0) in
    let (same, last) =
      run-Tells (told_after told (process m block now).1) (process m block now).0 rest t.same_told
        time' h.1 in
    (
      told_after-append told (process m block now).1 (run (process m block now).0 rest).1 ∙ same,
      last,
    )
