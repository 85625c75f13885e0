-- ===== src/Tests/Mapper.antt =====
-- The DMX channel mapper on small runs.
use nocturnation_stickc.DmxMapper.Settling.{run}
use nocturnation_stickc.DmxMapper.Held.{held_block_told, hold}
use nocturnation_stickc.DmxMapper.Settling.{commanded}
use nocturnation_stickc.DmxMapper.Strobes.{strobes, strobes_paced}
use nocturnation_stickc.DmxMapper.Steps.{told_after}
use nocturnation_stickc.DmxMapper.Pulses.{run-rising_edges, pulse_count, rising_edges}
use nocturnation_stickc.DmxMapper.Types.{
  DmxChannelMapper, dmx_channel_mapper, min_strobe_interval_ms,
}
use nocturnation_stickc.Prelude.{
  set, ℕ, ◌+◌, ◌-◌, ◌*◌, ◌≤◌, ◌≡◌, refl, true, none, some, List, [], ◌∷◌, ◌++◌, arith,
}
use nocturnation_stickc.Frame.Types.{Bytes}

-- A block with master 255, the given strobe rate and trigger, a wash colour and full wash intensity.
abbrev block : ℕ → ℕ → Bytes
block rate trig =
    255 ∷ rate ∷ 200 ∷ 100 ∷ 50 ∷ trig ∷ 0 ∷ 64 ∷ 128 ∷ 255 ∷ 10 ∷ 20 ∷ 30 ∷ 40 ∷ 50 ∷ 60 ∷ 5 ∷ 255
    ∷ 1 ∷ 2 ∷ 0 ∷ 0 ∷ 200 ∷ 0 ∷ 0 ∷ 0 ∷ 0 ∷ []

-- The wash of `block` in another colour.
abbrev other_block : Bytes
other_block = set (block 0 0) 10 99

-- Every 25 ms or so from 1010 to 1210, and once more.
held_block_told_example :
    told_after none
      (run (dmx_channel_mapper 1) (
        ((block 0 0, 1000) ∷ [])
        ++ hold other_block
            (1010 ∷ (1035 ∷ 1060 ∷ 1085 ∷ 1110 ∷ 1135 ∷ 1160 ∷ 1185 ∷ []) ++ 1210 ∷ 1235 ∷ []))).1
    ≡ some (commanded other_block)
held_block_told_example =
    held_block_told 1 ((block 0 0, 1000) ∷ []) other_block 1010 1210
      (1035 ∷ 1060 ∷ 1085 ∷ 1110 ∷ 1135 ∷ 1160 ∷ 1185 ∷ []) (1235 ∷ []) (omega arith, tt)
      (omega arith)
      (
        omega arith,
        (
          omega arith,
          (
            omega arith,
            (
              omega arith,
              (
                omega arith,
                (omega arith, (omega arith, (omega arith, (omega arith, (omega arith, tt))))),
              ),
            ),
          ),
        ),
      )
      (omega arith) (omega arith)

-- Up, held, down and up again.
abbrev trigger_history : List (Bytes × ℕ)
trigger_history = (block 0 200, 10) ∷ (block 0 255, 20) ∷ (block 0 3, 30) ∷ (block 0 128, 40) ∷ []

run-rising_edges_example :
    pulse_count (run (dmx_channel_mapper 1) trigger_history).1 ≡ rising_edges true trigger_history
run-rising_edges_example =
    run-rising_edges (dmx_channel_mapper 1) trigger_history
      ((omega arith, refl), ((omega arith, refl), ((omega arith, refl), ((omega arith, refl), tt))))

abbrev strobing : DmxChannelMapper
strobing = record (dmx_channel_mapper 1) { last_strobe_rate = 255; next_strobe_fire_ms = 1000 }

abbrev strobe_history : List (Bytes × ℕ)
strobe_history =
    (block 255 0, 900) ∷ (block 255 0, 1000) ∷ (block 255 0, 1249) ∷ (block 255 0, 1250) ∷ []

strobes_paced_example :
    pulse_count (strobes strobing strobe_history).1 * min_strobe_interval_ms
    ≤ 1250 + min_strobe_interval_ms - 1000
strobes_paced_example =
    strobes_paced strobing strobe_history 1250
      ((refl, omega arith), ((refl, omega arith), ((refl, omega arith), ((refl, omega arith), tt))))
      (omega arith) (omega arith) (omega arith)
