-- ===== src/DmxMapper/Held.antt =====
-- dmx_channel_mapper.cpp: a block that is held reaches the sink.
use nocturnation_stickc.DmxMapper.{
  process, channel, scaled_raw, maybe_emit_raw_wash_on_change, process_fx, raw_wash_event,
  wash_channels, wash_event,
}
use nocturnation_stickc.Prelude.{
  leb, le→ltb, Bool-cases, elapsed, length, All, All-append, ℕ, ◌^◌, ◌≤◌, ◌<◌, ◌≡◌, refl, sym, ap,
  ◌∙◌, ◌⊎◌, inl, inr, Bool, true, false, none, some, List, [], ◌∷◌, ◌++◌, arith, All-middle,
}
use nocturnation_stickc.Frame.Types.{Bytes, IsDword}
use nocturnation_stickc.DmxMapper.Settling.{
  IsTimed, run-Tells, run, remembered, commanded, entered_fx, entered_same,
}
use nocturnation_stickc.DmxMapper.Steps.{
  WashCase, RawCase, told_after, entered, raw_case, process_fx_shape, wash_case,
}
use nocturnation_stickc.DmxMapper.Types.{
  SinkCall, DmxChannelMapper, min_raw_wash_emit_gap_ms, raw_enable_threshold,
  active_channels_per_block, dmx_channel_mapper,
}

run-append :
    (m : DmxChannelMapper) (xs ys : List (Bytes × ℕ))
    → (run m (xs ++ ys)).0 ≡ (run (run m xs).0 ys).0
unfolding run
run-append m [] ys = refl
run-append m ((block, now) ∷ xs) ys = run-append (process m block now).0 xs ys

-- A step that holds the wash back.
record IsHeld (m : DmxChannelMapper) (now : ℕ) (m' : DmxChannelMapper) : Type 0 where
  early : elapsed now m.last_wash_emit_ms < min_raw_wash_emit_gap_ms
  emit_kept : m'.last_wash_emit_ms ≡ m.last_wash_emit_ms
  memory_kept : remembered m' ≡ remembered m

module _ (m : DmxChannelMapper) (block : Bytes) (now : ℕ) where
  raw_settles :
      (r : DmxChannelMapper × List SinkCall)
      → leb raw_enable_threshold (channel block 26) ≡ true
      → RawCase m (scaled_raw block (channel block 0)) now r
      → (remembered (record r.0 { pulse_armed = false }) ≡ some (commanded block))
        ⊎ IsHeld m now (record r.0 { pulse_armed = false })
  raw_settles r raw (RawCase.unchanged on same e) =
      inl (rw (e, on, raw) (ap (λ c. some (raw_wash_event c)) (sym same)))
  raw_settles r raw (RawCase.held on early e) =
      inr (rw e (record { early = early; emit_kept = refl; memory_kept = refl }))
  raw_settles r raw (RawCase.sent e) = inl (rw (e, raw))

  fx_settles :
      (r : DmxChannelMapper × List SinkCall) (armed : Bool) (trig rate due : ℕ)
      → leb raw_enable_threshold (channel block 26) ≡ false
      → WashCase (entered m) (wash_channels block (channel block 0)) now r
      → let m' = record r.0 {
        pulse_armed = armed;
        last_trigger = trig;
        last_strobe_rate = rate;
        next_strobe_fire_ms = due;
      } in
        (remembered m' ≡ some (commanded block)) ⊎ IsHeld m now m'
  fx_settles r armed trig rate due fx (WashCase.unchanged on same e) =
      inl (rw (e, entered_fx m, on, fx) (ap (λ w. some (wash_event w)) (sym same)))
  fx_settles r armed trig rate due fx (WashCase.held on early e) = inr (
      rw (e, entered_same m on)
        (record {
          early = ground (arith, early, entered_same m on);
          emit_kept = refl;
          memory_kept = refl;
        }))
  fx_settles r armed trig rate due fx (WashCase.sent e) = inl (rw (e, entered_fx m, fx))

  pub process_raw :
      active_channels_per_block ≤ length block
      → leb raw_enable_threshold (channel block 26) ≡ true
      → let r = maybe_emit_raw_wash_on_change m block (channel block 0) now in
        process m block now ≡ (record r.0 { pulse_armed = false }, r.1)
  unfolding process
  process_raw full raw = rw (le→ltb (length block) active_channels_per_block full, raw)

  pub process_not_raw :
      active_channels_per_block ≤ length block
      → leb raw_enable_threshold (channel block 26) ≡ false
      → process m block now ≡ process_fx m block now
  unfolding process
  process_not_raw full fx = rw (le→ltb (length block) active_channels_per_block full, fx)

  process_settles :
      active_channels_per_block ≤ length block
      → (remembered (process m block now).0 ≡ some (commanded block))
        ⊎ IsHeld m now (process m block now).0
  process_settles full = elim (Bool-cases (leb raw_enable_threshold (channel block 26))) [
    | inl raw ↦
        rw (process_raw full raw) (raw_settles _ raw (raw_case m block (channel block 0) now))
    | inr fx ↦
        let (armed, trig, rate, due, calls, e, quiet) = process_fx_shape m block now in
        rw (process_not_raw full fx, e)
          (fx_settles _ armed trig rate due fx (wash_case (entered m) block (channel block 0) now))
  ]

-- The calls of `process` that pass one block, at these times.
abbrev pub hold : Bytes → List ℕ → List (Bytes × ℕ)
hold block [] = []
hold block (now ∷ times) = (block, now) ∷ hold block times

hold-append :
    (block : Bytes) (xs ys : List ℕ) → hold block (xs ++ ys) ≡ hold block xs ++ hold block ys
hold-append block [] ys = refl
hold-append block (now ∷ xs) ys = ap (◌∷◌ (block, now)) (hold-append block xs ys)

hold-IsTimed : (block : Bytes) (times : List ℕ) → All IsDword times → All IsTimed (hold block times)
hold-IsTimed block [] h = tt
hold-IsTimed block (now ∷ times) (w, h) = (w, hold-IsTimed block times h)

module _ (block : Bytes) (full : active_channels_per_block ≤ length block) where
  -- What is remembered of the block stays so while the block is held.
  settled_stays :
      (m : DmxChannelMapper) (times : List ℕ)
      → remembered m ≡ some (commanded block)
      → remembered (run m (hold block times)).0 ≡ some (commanded block)
  unfolding run
  settled_stays m [] settled = settled
  settled_stays m (now ∷ times) settled =
      settled_stays (process m block now).0 times (elim (process_settles m block now full) [
        | inl again ↦ again
        | inr h ↦ h.memory_kept ∙ settled
      ])

  -- While the block is held, either it is remembered or the time of the last wash is as it was.
  held_through :
      (m : DmxChannelMapper) (times : List ℕ)
      → let m' = (run m (hold block times)).0 in
        (remembered m' ≡ some (commanded block)) ⊎ (m'.last_wash_emit_ms ≡ m.last_wash_emit_ms)
  unfolding run
  held_through m [] = inr refl
  held_through m (now ∷ times) =
      let m1 = (process m block now).0 in
      elim (process_settles m block now full) [
        | inl settled ↦ inl (settled_stays m1 times settled)
        | inr h ↦ elim (held_through m1 times) [
          | inl settled ↦ inl settled
          | inr same ↦ inr (same ∙ h.emit_kept)
        ]
      ]

  -- A block held for 200 ms, however often `process` is called meanwhile, is what the mapper remembers.
  held_block :
      (m : DmxChannelMapper) (t1 t2 : ℕ) (between : List ℕ)
      → IsDword m.last_wash_emit_ms
      → IsDword t1
      → IsDword t2
      → min_raw_wash_emit_gap_ms ≤ elapsed t2 t1
      → elapsed t2 t1 < 2 ^ 31
      → remembered (process (run (process m block t1).0 (hold block between)).0 block t2).0
        ≡ some (commanded block)
  held_block m t1 t2 between w w1 w2 enough wrap =
      let m1 = (process m block t1).0 in
      let m2 = (run m1 (hold block between)).0 in
      elim (process_settles m2 block t2 full) [
        | inl settled ↦ settled
        | inr h2 ↦ h2.memory_kept ∙ elim (held_through m1 between) [
          | inl settled ↦ settled
          | inr same ↦ elim (process_settles m block t1 full) [
            | inl settled ↦ settled_stays m1 between settled
            | inr h1 ↦ absurd (omega (arith, h1.early, h2.early, h1.emit_kept, same))
          ]
        ]
      ]

-- After any history of blocks, let a full block be held: from `t1` on every call of `process`, however
-- many there are and at whatever times, passes this block. Once one of the calls comes 200 ms or more
-- (and less than 2^31 ms) after the first one, the last wash sent is the one that the block asks for, and
-- it is after every further call of the hold.
pub held_block_told :
    (group : ℕ) (history : List (Bytes × ℕ)) (block : Bytes) (t1 t2 : ℕ) (between after : List ℕ)
    → All IsTimed history
    → active_channels_per_block ≤ length block
    → All IsDword (t1 ∷ (between ++ t2 ∷ after))
    → min_raw_wash_emit_gap_ms ≤ elapsed t2 t1
    → elapsed t2 t1 < 2 ^ 31
    → let calls = history ++ hold block (t1 ∷ (between ++ t2 ∷ after)) in
      told_after none (run (dmx_channel_mapper group) calls).1 ≡ some (commanded block)
unfolding run
held_block_told group history block t1 t2 between after h full w enough wrap =
    let m = dmx_channel_mapper group in
    let last = hold block (t1 ∷ (between ++ t2 ∷ after)) in
    let m1 = (run m history).0 in
    let m2 = (process m1 block t1).0 in
    let (_, time) = run-Tells none m history refl (omega arith) h in
    let (told, _) =
      run-Tells none m (history ++ last) refl (omega arith)
        (All-append IsTimed history last h (hold-IsTimed block (t1 ∷ (between ++ t2 ∷ after)) w)) in
    let settled =
      held_block block full m1 t1 t2 between time w.0 (All-middle IsDword between t2 after w.1)
        enough wrap in
    told
    ∙ rw
        (
          run-append m history last,
          hold-append block between (t2 ∷ after),
          run-append m2 (hold block between) (hold block (t2 ∷ after)),
        )
        (settled_stays block full _ after settled)
