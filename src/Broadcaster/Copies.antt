-- ===== src/Broadcaster/Copies.antt =====
-- src/dal/drivers/espnow_broadcast_driver.cpp: the copies of a frame on the air.
use nocturnation_stickc.Broadcaster.Runs.{put_on_air-keeps}
use nocturnation_stickc.Broadcaster.Air.{redundant_gap_ms, send_frame_bytes, put_on_air}
use nocturnation_stickc.Broadcaster.Ticks.{pump_retransmits}
use nocturnation_stickc.Prelude.{
  ltb, ◌==◌, le→ltb, later, ℕ, suc, ◌+◌, ◌^◌, ◌≤◌, ◌<◌, ◌≡◌, refl, true, false, not, ◌||◌, some,
  List, [], ◌∷◌, ◌++◌, arith, leb, if◌then◌else◌, Bool-cases, length, replicate, zero, ◌-◌, ap, inl,
  inr, ◌&&◌, ltb→lt, ltb→le, sym, ap₂, subst, ◌∙◌,
}
use nocturnation_stickc.Frame.Types.{Bytes}
use nocturnation_stickc.Broadcaster.Types.{
  Broadcaster, DriverCall, RadioAnswers, Antenna, redundant_gap_max_ms, on_air, AirReads,
  retransmit_buf_size,
}

-- The retransmits, one for each clock time and std::rand() of the list.
unfoldable pub pump_all : Antenna → List (ℕ × ℕ) → Broadcaster → Broadcaster × List DriverCall
pump_all antenna [] d = (d, [])
pump_all antenna ((now, rand) ∷ pumps) d =
    let (d1, calls) = pump_retransmits antenna now rand d in
    let (d2, more) = pump_all antenna pumps d1 in (d2, calls ++ more)

-- Each time is 15 ms, the longest gap, behind the one before at least, and the clock does not wrap.
unfoldable pub IsSpaced : ℕ → List (ℕ × ℕ) → Type 0
IsSpaced t [] = Unit
IsSpaced t ((now, rand) ∷ pumps) =
    (t + redundant_gap_max_ms ≤ now) × (now + redundant_gap_max_ms < 2 ^ 32) × IsSpaced now pumps

gap_most : (rand : ℕ) → redundant_gap_ms rand ≤ redundant_gap_max_ms
unfolding redundant_gap_ms
gap_most rand = omega arith

later_most :
    (now rand : ℕ)
    → now + redundant_gap_max_ms < 2 ^ 32
    → later now (redundant_gap_ms rand) ≤ now + redundant_gap_max_ms
later_most now rand h = let g = gap_most rand in omega (arith, h, g)

-- Copies that `left` pumps have to send, the next of them due 15 ms after `t` at the latest.
record IsQueued (d : Broadcaster) (frame : Bytes) (left t : ℕ) : Type 0 where
  on : d.active ≡ true
  queued : d.retransmits_remaining ≡ left
  same_frame : d.retransmit_frame ≡ frame
  planned : d.next_retransmit_ms ≤ t + redundant_gap_max_ms

-- What a pump leaves that finds no copy left.
pump_empty :
    (antenna : Antenna) (now rand : ℕ) (d : Broadcaster)
    → d.retransmits_remaining ≡ 0
    → pump_retransmits antenna now rand d ≡ (d, [])
unfolding pump_retransmits
pump_empty antenna now rand d h =
    let off : not d.active || d.retransmits_remaining == 0 ≡ true = ground (arith, h) in rw off refl

-- What a pump leaves that sends a copy.
abbrev pumped : ℕ → ℕ → Broadcaster → Broadcaster
pumped now rand d = record d {
  last_tx_ms = now;
  retransmits_remaining = d.retransmits_remaining - 1;
  next_retransmit_ms =
      if ltb 0 (d.retransmits_remaining - 1)
      then later now (redundant_gap_ms rand)
      else d.next_retransmit_ms;
}

pump_due :
    (radio : RadioAnswers) (now rand : ℕ) (d : Broadcaster) (frame : Bytes) (left t : ℕ)
    → IsQueued d frame (suc left) t
    → t + redundant_gap_max_ms ≤ now
    → pump_retransmits (some radio) now rand d ≡ (pumped now rand d, on_air frame ∷ [])
unfolding pump_retransmits
pump_due radio now rand d frame left t q due =
    let live : not d.active || d.retransmits_remaining == 0 ≡ false =
      ground (arith, q.on, q.queued) in
    let ready : ltb now d.next_retransmit_ms ≡ false =
      le→ltb now d.next_retransmit_ms (omega (arith, q.planned, due)) in
    rw (live, ready) (ap (λ f. (pumped now rand d, on_air f ∷ [])) q.same_frame)

pumped-IsQueued :
    (now rand : ℕ) (d : Broadcaster) (frame : Bytes) (left t : ℕ)
    → IsQueued d frame (suc left) t
    → t + redundant_gap_max_ms ≤ now
    → now + redundant_gap_max_ms < 2 ^ 32
    → IsQueued (pumped now rand d) frame left now
pumped-IsQueued now rand d frame left t q due top =
    let most = later_most now rand top in
    record {
      on = q.on;
      queued = omega (arith, q.queued);
      same_frame = q.same_frame;
      planned = elim (Bool-cases (ltb 0 (d.retransmits_remaining - 1))) [
        | inl more ↦ rw more most
        | inr last ↦ rw last (omega (arith, q.planned, due))
      ];
    }

pump_rest :
    (antenna : Antenna) (pumps : List (ℕ × ℕ)) (d : Broadcaster)
    → d.retransmits_remaining ≡ 0
    → pump_all antenna pumps d ≡ (d, [])
unfolding pump_all
pump_rest antenna [] d h = refl
pump_rest antenna ((now, rand) ∷ pumps) d h =
    rw (pump_empty antenna now rand d h) (pump_rest antenna pumps d h)

queue_sent :
    (radio : RadioAnswers) (pumps : List (ℕ × ℕ)) (d : Broadcaster) (frame : Bytes) (left t : ℕ)
    → IsQueued d frame left t
    → IsSpaced t pumps
    → left ≤ length pumps
    → (pump_all (some radio) pumps d).1 ≡ replicate left (on_air frame)
unfolding pump_all IsSpaced
queue_sent radio pumps d frame zero t q spaced enough =
    ap (λ r. r.1) (pump_rest (some radio) pumps d q.queued)
queue_sent radio [] d frame (suc left) t q spaced enough = absurd (omega (arith, enough))
queue_sent radio ((now, rand) ∷ pumps) d frame (suc left) t q (due, top, spaced) enough =
    let rest =
      queue_sent radio pumps (pumped now rand d) frame left now
        (pumped-IsQueued now rand d frame left t q due top) spaced (omega (arith, enough)) in
    rw (pump_due radio now rand d frame left t q due) (ap (◌∷◌ (on_air frame)) rest)

put_on_air_calls :
    (air : AirReads) (radio : RadioAnswers) (frame : Bytes) (d : Broadcaster)
    → air.antenna ≡ some radio
    → (put_on_air air frame d).1 ≡ on_air frame ∷ []
unfolding put_on_air
put_on_air_calls air radio frame d up = rw up refl

-- The first copy is out, and the others are queued.
send_frame-IsQueued :
    (air : AirReads) (radio : RadioAnswers) (frame : Bytes) (d : Broadcaster)
    → air.antenna ≡ some radio
    → d.active ≡ true
    → 1 ≤ length frame
    → length frame ≤ retransmit_buf_size
    → 2 ≤ d.retransmit_count
    → air.plan_ms + redundant_gap_max_ms < 2 ^ 32
    → let r = send_frame_bytes air frame d in
      (r.1 ≡ on_air frame ∷ []) × IsQueued r.0 frame (d.retransmit_count - 1) air.plan_ms
unfolding send_frame_bytes
send_frame-IsQueued air radio frame d up on some_byte fits several top =
    let live : not d.active || length frame == 0 ≡ false = ground (arith, on, some_byte) in
    let copied : leb (length frame) retransmit_buf_size && ltb 1 d.retransmit_count ≡ true =
      ground (arith, fits, several) in
    rw (live, copied)
      (
        put_on_air_calls air radio frame d up,
        record {
          on = (put_on_air-keeps air frame d).same_active ∙ on;
          queued = refl;
          same_frame = refl;
          planned = later_most air.plan_ms air.rand top;
        },
      )

-- With one copy asked for, the queue is left empty.
send_frame_once :
    (air : AirReads) (radio : RadioAnswers) (frame : Bytes) (d : Broadcaster)
    → air.antenna ≡ some radio
    → d.active ≡ true
    → 1 ≤ length frame
    → d.retransmit_count ≡ 1
    → let r = send_frame_bytes air frame d in
      (r.1 ≡ on_air frame ∷ []) × (r.0.retransmits_remaining ≡ 0)
unfolding send_frame_bytes
send_frame_once air radio frame d up on some_byte once =
    let live : not d.active || length frame == 0 ≡ false = ground (arith, on, some_byte) in
    let single : leb (length frame) retransmit_buf_size && ltb 1 d.retransmit_count ≡ false =
      ground (arith, once) in
    rw (live, single) (put_on_air_calls air radio frame d up, refl)

-- With a radio up, a frame of 1 to 250 bytes and at least as many pumps as copies are left to send, each 15 ms
-- behind the one before and the clock short of its wrap, the driver puts the frame on the air unchanged
-- exactly as often as the number of copies says, and nothing else.
pub frame-copies :
    (air : AirReads) (radio : RadioAnswers) (frame : Bytes) (d : Broadcaster) (pumps : List (ℕ × ℕ))
    → air.antenna ≡ some radio
    → d.active ≡ true
    → 1 ≤ length frame
    → length frame ≤ retransmit_buf_size
    → 1 ≤ d.retransmit_count
    → air.plan_ms + redundant_gap_max_ms < 2 ^ 32
    → IsSpaced air.plan_ms pumps
    → d.retransmit_count ≤ length pumps + 1
    → let r = send_frame_bytes air frame d in
      r.1 ++ (pump_all (some radio) pumps r.0).1 ≡ replicate d.retransmit_count (on_air frame)
frame-copies air radio frame d pumps up on some_byte fits one top spaced enough =
    let sent = send_frame_bytes air frame d in
    let P : ℕ → Type 0 =
      λ n. sent.1 ++ (pump_all (some radio) pumps sent.0).1 ≡ replicate n (on_air frame) in
    elim (Bool-cases (ltb 1 d.retransmit_count)) [
      | inl more ↦
          let several = ltb→lt 1 d.retransmit_count more in
          let n = d.retransmit_count - 1 in
          let (first, q) = send_frame-IsQueued air radio frame d up on some_byte fits several top in
          let rest =
            queue_sent radio pumps sent.0 frame n air.plan_ms q spaced (omega (arith, enough)) in
          let count : suc n ≡ d.retransmit_count = omega (arith, several) in
          subst P count (ap₂ ◌++◌ first rest)
      | inr single ↦
          let once : d.retransmit_count ≡ 1 =
            let most = ltb→le 1 d.retransmit_count single in omega (arith, most, one) in
          let (first, none_left) = send_frame_once air radio frame d up on some_byte once in
          let rest = ap (λ r. r.1) (pump_rest (some radio) pumps sent.0 none_left) in
          subst P (sym once) (ap₂ ◌++◌ first rest)
    ]
