-- ===== src/Repeater/Relaying.antt =====
-- modes/repeater_mode.cpp: the broadcasts of a repeater as a whole.
use nocturnation_stickc.Repeater.Aside.{tick_step}
use nocturnation_stickc.Repeater.Hearing.{hear_step, heard_case}
use nocturnation_stickc.Repeater.Dedup.{slot}
use nocturnation_stickc.Repeater.{enter, start_radio, valid_repeater_channel, on_recv, loop_tick}
use nocturnation_stickc.Prelude.{
  length, ℕ, ◌≡◌, refl, ap, ap₂, ◌∙◌, false, Option, none, List, [], ◌∷◌, ◌++◌, arith,
  get_or-replicate,
}
use nocturnation_stickc.Frame.Types.{Bytes}
use nocturnation_stickc.Repeater.Contract.{
  Event, Refines, broadcasts-append, run, broadcasts, contract, with_censuses, received, hear,
  ticked,
}
use nocturnation_stickc.Repeater.Types.{DedupEntry, RepeaterMode, Radio, repeater_mode}

-- From a state that holds what the contract remembers, a run broadcasts what the contract says.
run-broadcasts :
    (s : RepeaterMode) (recents : List DedupEntry) (staged : Option Bytes) (events : List Event)
    → Refines s recents staged
    → broadcasts (run s events).1 ≡ contract recents staged (with_censuses s events)
unfolding run contract with_censuses
run-broadcasts s recents staged [] f = refl
run-broadcasts s recents staged (received frame clock ∷ events) f =
    let (recents', staged') = hear frame recents staged in
    run-broadcasts (on_recv frame clock s) recents' staged' events
      (hear_step s frame (on_recv frame clock s) recents staged (heard_case s frame clock) f)
run-broadcasts s recents staged (ticked input ∷ events) f =
    let (s1, calls) = loop_tick input s in
    let (f1, sent) = tick_step input s recents staged f in
    broadcasts-append calls (run s1 events).1
    ∙ ap₂ ◌++◌ sent (run-broadcasts s1 recents none events f1)

enter_keeps :
    (radio : Radio) (boot stored : ℕ) (mac : ℕ × ℕ × ℕ) (s : RepeaterMode)
    → let s1 = (enter radio boot stored mac s).0 in
      (s1.dedup_ring ≡ s.dedup_ring) × (s1.dedup_head ≡ 0) × (s1.pending_repeat ≡ false)
unfolding enter start_radio valid_repeater_channel
enter_keeps radio boot stored mac s = ground arith

-- Through any sequence of frames heard and loop ticks from the entry of a new repeater on, the frames
-- handed to the radio, all of them and in this order, are those of the contract. With each tick that has a
-- radio goes the latest frame staged since the last tick, as it came, then the repeater's own census if one
-- is due, and nothing else. A frame is staged only if it has at most 250 bytes and a valid header, is no
-- census and has a sequence number, and its source and sequence number are none of the sixteen noted last.
pub repeater-broadcasts :
    (radio : Radio) (boot stored : ℕ) (mac : ℕ × ℕ × ℕ) (events : List Event)
    → let s = (enter radio boot stored mac repeater_mode).0 in
      broadcasts (run s events).1 ≡ contract [] none (with_censuses s events)
repeater-broadcasts radio boot stored mac events =
    let s = (enter radio boot stored mac repeater_mode).0 in
    let (ring, head, empty) = enter_keeps radio boot stored mac repeater_mode in
    run-broadcasts s [] none events (record {
      ring = record {
        ring_size = ap length ring;
        head_range = omega (arith, head);
        ring_slots = λ j h. rw (ring, head) (get_or-replicate 16 (0, 0) (slot 0 j));
      };
      same_staged = rw empty refl;
    })
