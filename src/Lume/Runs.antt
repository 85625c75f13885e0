-- ===== src/Lume/Runs.antt =====
-- src/modes/lume_mode.cpp: what happens to a Lume in a session.
use nocturnation_stickc.Lume.Ticking.{loop_tick}
use nocturnation_stickc.Lume.Receive.{receive}
use nocturnation_stickc.Prelude.{ℕ, List, [], ◌∷◌, ◌++◌}
use nocturnation_stickc.Frame.Types.{Bytes}
use nocturnation_stickc.Broadcaster.Types.{Antenna}
use nocturnation_stickc.Lume.Types.{LumeCall, Lume}

-- A frame is heard at a time, or the loop ticks.
pub data Event : Type 0 where
  heard : Bytes → ℕ → Event
  ticked : Antenna → ℕ → Event

unfoldable pub step : Event → Lume → Lume × List LumeCall
step (heard frame now) s = receive frame now s
step (ticked antenna now) s = loop_tick antenna now s

unfoldable pub run : Lume → List Event → Lume × List LumeCall
run s [] = (s, [])
run s (e ∷ events) =
    let (s1, calls) = step e s in let (s2, more) = run s1 events in (s2, calls ++ more)
