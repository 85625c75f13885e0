-- ===== src/Repeater/Beacon.antt =====
-- modes/repeater_mode.cpp: what the others make of a census.
use nocturnation_stickc.Frame.Wire.Transfer.{sent}
use nocturnation_stickc.Frame.Types.{ok}
use nocturnation_stickc.Frame.Wire.{decode_header}
use nocturnation_stickc.Repeater.{
  census_payload, census_frame, on_recv, census_header, no_header, census_buf,
}
use nocturnation_stickc.Frame.Wire.Transfer.{Delivers, stamped}
use nocturnation_stickc.Frame.Status.RoundTrip.{repeater_heartbeat-Delivers}
use nocturnation_stickc.Prelude.{length, drop, ℕ, ◌≡◌, refl, false, arith}
use nocturnation_stickc.Frame.Status.{
  RepeaterHeartbeatPayload, IsRepeaterHeartbeat, decode_repeater_heartbeat,
  repeater_heartbeat_payload_len,
}
use nocturnation_stickc.Frame.Types.{
  Bytes, IsByte, IsDword, MessageType, Header, broadcast_source_id, repeater_heartbeat, header_size,
}
use nocturnation_stickc.Tofu.{TofuLock, admit}
use nocturnation_stickc.Repeater.Types.{RepeaterMode}

-- The ranges of what a census is built from.
pub record HasRanges (s : RepeaterMode) : Type 0 where
  pub uid0_range : IsByte s.uid0
  pub uid1_range : IsByte s.uid1
  pub uid2_range : IsByte s.uid2
  pub channel_range : IsByte s.active_channel
  pub count_range : IsDword s.relayed_count

-- The header of a census on the wire.
abbrev pub beacon_header : Header
beacon_header = stamped census_header repeater_heartbeat repeater_heartbeat_payload_len

payload-IsRepeaterHeartbeat :
    (now : ℕ) (s : RepeaterMode) → HasRanges s → IsRepeaterHeartbeat (census_payload now s)
payload-IsRepeaterHeartbeat now s h = record {
  uid0_range = h.uid0_range;
  uid1_range = h.uid1_range;
  uid2_range = h.uid2_range;
  channel_range = h.channel_range;
  uptime_s_range = ground arith;
  relayed_count_range = h.count_range;
}

-- The frame on the air is the one of the codec, and it is received as sent.
pub census-Delivers :
    (now : ℕ) (s : RepeaterMode) (old_hdr : Header) (old : RepeaterHeartbeatPayload)
    → HasRanges s
    → Delivers
        (sent (census_frame now s))
        decode_repeater_heartbeat
        census_header
        repeater_heartbeat
        repeater_heartbeat_payload_len
        (census_payload now s)
        old_hdr
        old
unfolding census_frame
census-Delivers now s old_hdr old h =
    repeater_heartbeat-Delivers census_buf census_header (census_payload now s) old_hdr old
      (ground arith) (payload-IsRepeaterHeartbeat now s h) (omega arith)

on_recv_census :
    (frame : Bytes) (clock : ℕ) (other : RepeaterMode)
    → decode_header frame (length frame) no_header ≡ (ok, beacon_header)
    → on_recv frame clock other ≡ other
unfolding on_recv
on_recv_census frame clock other e = rw e (ground arith)

admit_broadcast :
    (lock : TofuLock) (t : MessageType) (channel now : ℕ)
    → admit lock t broadcast_source_id channel now ≡ (lock, false)
unfolding admit
admit_broadcast lock t channel now = refl

-- A census that a repeater builds reaches a Director's decoder as it was meant, another repeater
-- neither relays it nor counts it as traffic, and a Lume drops it with its lock, if any, untouched.
pub census-bystanders :
    (now : ℕ) (s : RepeaterMode) (old : RepeaterHeartbeatPayload) (clock : ℕ) (other : RepeaterMode)
    (lock : TofuLock) (channel heard : ℕ)
    → HasRanges s
    → let frame = sent (census_frame now s) in
      let hdr = (decode_header frame (length frame) no_header).1 in
      (decode_repeater_heartbeat hdr (drop header_size frame) hdr.payload_len old
        ≡ (ok, census_payload now s))
      × (on_recv frame clock other ≡ other)
      × (admit lock hdr.message_type hdr.source_id channel heard ≡ (lock, false))
census-bystanders now s old clock other lock channel heard h =
    let frame = sent (census_frame now s) in
    let (head, body) = census-Delivers now s no_header old h in
    (
      rw head body,
      on_recv_census frame clock other head,
      rw head (admit_broadcast lock repeater_heartbeat channel heard),
    )
