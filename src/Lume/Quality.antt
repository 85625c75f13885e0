-- ===== src/Lume/Quality.antt =====
-- src/transport/quality.cpp: the signal quality of a Lume. `source_id` is narrowed to a byte by the call.
use nocturnation_stickc.Prelude.{
  ltb, leb, ◌==◌, ◌!=◌, if◌then◌else◌, elapsed, ℕ, ◌+◌, ◌-◌, ◌*◌, ◌/◌, ◌%◌, ◌^◌, ◌&&◌, Option, none,
  some,
}
use nocturnation_stickc.Lume.Types.{SignalQuality}

abbrev window_ms : ℕ
window_ms = 5000

-- A uint16_t counter.
abbrev half_up : ℕ → ℕ
half_up n = (n + 1) / 2 % 2 ^ 16

-- The decay at the end of a window.
unfoldable pub decayed : ℕ → SignalQuality → SignalQuality
decayed now q =
    if leb window_ms (elapsed now q.window_start_ms)
    then record q {
      received_count = half_up q.received_count;
      missed_count = q.missed_count / 2;
      window_start_ms = now;
    }
    else q

unfoldable pub note_frame : ℕ → ℕ → ℕ → SignalQuality → SignalQuality
note_frame source_id seq now q =
    let d = decayed now q in
    let missed =
      if d.last_seq != 0 && ltb d.last_seq seq
      then (d.missed_count + (seq - d.last_seq - 1)) % 2 ^ 16
      else d.missed_count in
    if seq == 0
    then q
    else if q.last_source_id != source_id
    then record {
      last_source_id = source_id;
      last_seq = seq;
      received_count = 1;
      missed_count = 0;
      window_start_ms = now;
    }
    else record d {
      missed_count = missed;
      received_count = (d.received_count + 1) % 2 ^ 16;
      last_seq = seq;
    }

-- bars(); `none` is -1.
unfoldable pub bars : SignalQuality → Option ℕ
bars q =
    let total = q.received_count + q.missed_count in
    let loss_pct = q.missed_count * 100 / total in
    if ltb q.received_count 3
    then none
    else if total == 0
    then none
    else if ltb loss_pct 5
    then some 4
    else if ltb loss_pct 15
    then some 3
    else if ltb loss_pct 30
    then some 2
    else if ltb loss_pct 50
    then some 1
    else some 0
