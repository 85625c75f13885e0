-- ===== src/Repeater/Contract.antt =====
-- modes/repeater_mode.cpp: what a repeater broadcasts, as a contract on the frames heard and the ticks.
use nocturnation_stickc.Repeater.{
  on_recv, no_header, loop_tick, is_ok, flush_relay, poll_button, service_scan, census_frame,
}
use nocturnation_stickc.Frame.Wire.Transfer.{sent}
use nocturnation_stickc.Frame.Wire.{decode_header}
use nocturnation_stickc.Prelude.{
  leb, ◌==◌, if◌then◌else◌, length, ℕ, ◌≡◌, refl, ap, not, Option, none, some, List, [], ◌∷◌, ◌++◌,
  ltb, elapsed, ◌&&◌,
}
use nocturnation_stickc.Frame.Types.{Bytes, same_type, repeater_heartbeat}
use nocturnation_stickc.Repeater.Types.{
  DedupEntry, RepeaterMode, RepeaterCall, Radio, TickInput, send_broadcast, repeat_buf_size,
  begin_radio, set_channel, put_rpt_chan, census_interval_ms,
}
use nocturnation_stickc.Repeater.Dedup.{IsRing, in_window}

-- The entry under which a frame is relayed: its source and sequence number, if it is a valid frame that
-- is no census and has a sequence number.
unfoldable pub fleet_id : Bytes → Option DedupEntry
fleet_id frame =
    let (verdict, hdr) = decode_header frame (length frame) no_header in
    if not (is_ok verdict)
    then none
    else if same_type hdr.message_type repeater_heartbeat
    then none
    else if hdr.sequence_number == 0
    then none
    else some (hdr.source_id, hdr.sequence_number)

-- What happens to a repeater: a frame is heard at a time, or `loop_tick` runs.
pub data Event : Type 0 where
  received : Bytes → ℕ → Event
  ticked : TickInput → Event

unfoldable pub run : RepeaterMode → List Event → RepeaterMode × List RepeaterCall
run s [] = (s, [])
run s (received frame clock ∷ events) = run (on_recv frame clock s) events
run s (ticked input ∷ events) =
    let (s1, calls) = loop_tick input s in let (s2, more) = run s1 events in (s2, calls ++ more)

-- The frames broadcast, whatever they are.
abbrev pub broadcasts : List RepeaterCall → List Bytes
broadcasts [] = []
broadcasts (send_broadcast frame ∷ calls) = frame ∷ broadcasts calls
broadcasts (begin_radio _ ∷ calls) = broadcasts calls
broadcasts (set_channel _ ∷ calls) = broadcasts calls
broadcasts (put_rpt_chan _ ∷ calls) = broadcasts calls

-- The state in which a tick comes to its census.
unfoldable pub at_census : TickInput → RepeaterMode → RepeaterMode
at_census input s =
    let (s1, _) = flush_relay input.radio input.now_ms s in
    let (s2, _) = poll_button input s1 in (service_scan input.radio input.now_ms s2).0

-- The repeater's own census of a tick: one if a second is over since the last one, there is a radio and
-- the repeater is on a channel of its own or has heard the fleet.
unfoldable pub own_census : Radio → ℕ → RepeaterMode → List Bytes
own_census none now s = []
own_census (some _) now s =
    if ltb (elapsed now s.last_census_ms) census_interval_ms
    then []
    else if not s.radio_up
    then []
    else if s.channel_setting == 0 && not s.locked
    then []
    else sent (census_frame now s) ∷ []

-- What happens, each tick with the census that falls to it.
unfoldable pub with_censuses : RepeaterMode → List Event → List (Event × List Bytes)
with_censuses s [] = []
with_censuses s (received frame clock ∷ events) =
    (received frame clock, []) ∷ with_censuses (on_recv frame clock s) events
with_censuses s (ticked input ∷ events) =
    (ticked input, own_census input.radio input.now_ms (at_census input s))
    ∷ with_censuses (loop_tick input s).0 events

-- What a tick broadcasts of what is staged.
abbrev pub sent_on : Radio → Option Bytes → List Bytes
sent_on none staged = []
sent_on (some _) none = []
sent_on (some _) (some frame) = frame ∷ []

-- The entries staged, the latest first, and what is staged, once a frame is heard.
unfoldable pub hear : Bytes → List DedupEntry → Option Bytes → List DedupEntry × Option Bytes
hear frame recents staged = elim (fleet_id frame) [
  | none ↦ (recents, staged)
  | some x ↦
      if in_window 16 x recents
      then (recents, staged)
      else (x ∷ recents, if leb (length frame) repeat_buf_size then some frame else staged)
]

-- The contract. A frame is staged if its entry is none of the last sixteen; the latest staged frame goes
-- out, as it came, with the next tick, and is lost if that has no radio. A frame longer than the buffer
-- only leaves its entry. Behind the staged frame goes the tick's own census, and nothing else.
unfoldable pub contract : List DedupEntry → Option Bytes → List (Event × List Bytes) → List Bytes
contract recents staged [] = []
contract recents staged ((received frame clock, _) ∷ events) =
    let (recents', staged') = hear frame recents staged in contract recents' staged' events
contract recents staged ((ticked input, census) ∷ events) =
    (sent_on input.radio staged ++ census) ++ contract recents none events

-- The state holds what the contract remembers.
pub record Refines (s : RepeaterMode) (recents : List DedupEntry) (staged : Option Bytes)
    : Type 0 where
  pub ring : IsRing s recents
  pub same_staged : (if s.pending_repeat then some s.pending_repeat_frame else none) ≡ staged

pub broadcasts-append :
    (xs ys : List RepeaterCall) → broadcasts (xs ++ ys) ≡ broadcasts xs ++ broadcasts ys
broadcasts-append [] ys = refl
broadcasts-append (send_broadcast frame ∷ xs) ys = ap (◌∷◌ frame) (broadcasts-append xs ys)
broadcasts-append (begin_radio _ ∷ xs) ys = broadcasts-append xs ys
broadcasts-append (set_channel _ ∷ xs) ys = broadcasts-append xs ys
broadcasts-append (put_rpt_chan _ ∷ xs) ys = broadcasts-append xs ys
