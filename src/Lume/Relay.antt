-- ===== src/Lume/Relay.antt =====
-- src/modes/lume_mode.cpp: the frame that a Lume relays.
use nocturnation_stickc.Frame.Types.{ok}
use nocturnation_stickc.Repeater.{no_header}
use nocturnation_stickc.Frame.Wire.{decode_header, set_hop_count}
use nocturnation_stickc.Lume.Receive.{stage_repeat}
use nocturnation_stickc.Frame.Wire.HeaderLaws.{decode_header-set_hop_count}
use nocturnation_stickc.Prelude.{
  ltb, leb, if◌then◌else◌, Bool-cases, length, drop, ◌+◌, ◌≤◌, ◌≡◌, inl, inr, Bool, true, false,
  ◌&&◌, arith,
}
use nocturnation_stickc.Frame.Types.{Bytes, Header, header_size}
use nocturnation_stickc.Lume.Types.{Lume, max_hop_count, lume_repeat_buf_size}

not_staged :
    (gate : Bool) (a b : Lume)
    → gate ≡ false
    → b.pending_repeat ≡ false
    → (if gate then a else b).pending_repeat ≡ false
not_staged true a b e h = absurd (ground (arith, e))
not_staged false a b e h = h

-- The frame that a Lume stages, when none is waiting, is one of fewer than three hops and at most 250 bytes, and a
-- receiver reads it with the same header but for one hop more, three at most, and with the same payload.
pub staged_hops :
    (frame : Bytes) (hdr : Header) (s : Lume)
    → decode_header frame (length frame) no_header ≡ (ok, hdr)
    → s.pending_repeat ≡ false
    → (stage_repeat frame hdr s).pending_repeat ≡ true
    → let relayed = (stage_repeat frame hdr s).pending_repeat_frame in
      (decode_header relayed (length relayed) no_header
        ≡ (ok, record hdr { hop_count = hdr.hop_count + 1 }))
      × (hdr.hop_count + 1 ≤ max_hop_count)
      × (length relayed ≤ lume_repeat_buf_size)
      × (drop header_size relayed ≡ drop header_size frame)
unfolding stage_repeat
staged_hops frame hdr s read idle staged =
    let gate =
      s.repeat_enabled
      && ltb hdr.hop_count max_hop_count
      && leb (length frame) lume_repeat_buf_size in
    let (again, size, body) =
      decode_header-set_hop_count frame (hdr.hop_count + 1) no_header hdr read in
    elim (Bool-cases gate) [
      | inl e ↦
          let low : hdr.hop_count + 1 ≤ max_hop_count = ground (arith, e) in
          let short : length frame ≤ lume_repeat_buf_size = ground (arith, e) in
          rw (e, size) (again, low, short, body)
      | inr e ↦
          let raised = record s {
            pending_repeat_frame = set_hop_count frame (hdr.hop_count + 1);
            pending_repeat = true;
          } in
          let empty = not_staged gate raised s e idle in absurd (ground (arith, empty, staged))
    ]
