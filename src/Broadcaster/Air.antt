-- ===== src/Broadcaster/Air.antt =====
-- src/dal/drivers/espnow_broadcast_driver.cpp: the sequence numbers, the airtime cap and the way of a
-- frame to the radio.
use nocturnation_stickc.Prelude.{
  ltb, leb, ◌==◌, if◌then◌else◌, elapsed, later, length, ℕ, ◌+◌, ◌-◌, ◌%◌, ◌^◌, Bool, true, false,
  not, ◌&&◌, ◌||◌, none, some, List, [], ◌∷◌,
}
use nocturnation_stickc.Frame.Types.{Bytes}
use nocturnation_stickc.Broadcaster.Types.{
  Broadcaster, DriverCall, Antenna, AirReads, min_send_interval_ms, redundant_gap_min_ms, on_air,
  retransmit_buf_size, redundant_gap_max_ms,
}

-- What a method that answers leaves.
pub record Answered : Type 0 where
  pub after : Broadcaster
  pub calls : List DriverCall
  pub answer : Bool

abbrev pub refusal : Broadcaster → Answered
refusal d = record { after = d; calls = []; answer = false }

-- begin()
abbrev pub begin : Antenna → Bool
begin none = false
begin (some _) = true

unfoldable pub next_seq : Broadcaster → Broadcaster × ℕ
next_seq d = (record d { seq_num = if d.seq_num == 255 then 1 else d.seq_num + 1 }, d.seq_num)

unfoldable pub airtime_cap_ready : ℕ → Broadcaster → Broadcaster × Bool
airtime_cap_ready now d =
    if ltb (elapsed now d.last_airtime_send_ms) min_send_interval_ms
    then (record d { airtime_drop_count = (d.airtime_drop_count + 1) % 2 ^ 32 }, false)
    else (record d { last_airtime_send_ms = now }, true)

unfoldable pub redundant_gap_ms : ℕ → ℕ
redundant_gap_ms rand =
    redundant_gap_min_ms + rand % (redundant_gap_max_ms - redundant_gap_min_ms + 1)

-- The radio's part of `send_frame_bytes`.
unfoldable pub put_on_air : AirReads → Bytes → Broadcaster → Broadcaster × List DriverCall
put_on_air reads frame d = elim reads.antenna [
  | none ↦ (d, [])
  | some radio ↦ (
    if radio.accepts frame then record d { last_tx_ms = reads.sent_ms } else d,
    on_air frame ∷ [],
  )
]

-- `frame` is buf with its n bytes; the label is only printed.
unfoldable pub send_frame_bytes : AirReads → Bytes → Broadcaster → Broadcaster × List DriverCall
send_frame_bytes reads frame d =
    let (out, calls) = put_on_air reads frame d in
    if not d.active || length frame == 0
    then (d, [])
    else if leb (length frame) retransmit_buf_size && ltb 1 d.retransmit_count
    then (
      record out {
        retransmit_frame = frame;
        retransmits_remaining = d.retransmit_count - 1;
        next_retransmit_ms = later reads.plan_ms (redundant_gap_ms reads.rand);
      },
      calls,
    )
    else (record out { retransmits_remaining = 0 }, calls)
