-- ===== src/Repeater.antt =====
-- modes/repeater_mode.cpp (the device build) and the channel setting of modes/persistence.cpp. A method
-- takes the state and returns it with the calls that it makes, in order.
pub mod Types
pub mod Dedup
pub mod Contract
pub mod Aside
pub mod Hearing
pub mod Relaying
pub mod Scanning
pub mod Probing
pub mod Beacon
use nocturnation_stickc.Frame.Wire.{decode_header}
use nocturnation_stickc.Prelude.{
  ltb, leb, ◌==◌, ◌!=◌, if◌then◌else◌, elapsed, later, length, get_or, set, take, replicate, ℕ, ◌+◌,
  ◌*◌, ◌/◌, ◌%◌, ◌^◌, Bool, true, false, not, ◌&&◌, ◌||◌, none, some, List, [], ◌∷◌, ◌++◌,
}
use nocturnation_stickc.Frame.Status.{
  RepeaterHeartbeatPayload, encode_repeater_heartbeat, repeater_heartbeat_payload_len,
}
use nocturnation_stickc.Frame.Types.{
  ok, DecodeResult, Bytes, Header, heartbeat, broadcast_source_id, header_size, same_type,
  repeater_heartbeat,
}
use nocturnation_stickc.Repeater.Types.{
  DedupEntry, RepeaterMode, RepeaterCall, Radio, TickInput, begin_radio, dedup_ring_size,
  send_broadcast, confirm_ms, double_click_ms, scan_dwell_ms, census_interval_ms, relay_flash_ms,
  set_channel, put_rpt_chan, scan_relock_ms, repeat_buf_size,
}

-- load_repeater_channel, from the byte in flash, and save_repeater_channel, to the byte that it writes.
unfoldable pub valid_repeater_channel : ℕ → ℕ
valid_repeater_channel c = if c != 0 && c != 1 && c != 6 && c != 11 then 0 else c

abbrev pub scan_channels : List ℕ
scan_channels = 1 ∷ 6 ∷ 11 ∷ []

-- kScanChannels[i]
abbrev pub scan_channel : ℕ → ℕ
scan_channel i = get_or scan_channels i 0

abbrev pub channel_colour : ℕ → ℕ × ℕ × ℕ
channel_colour ch =
    if ch == 1
    then (0, 24, 24)
    else if ch == 6
    then (24, 0, 24)
    else if ch == 11
    then (24, 24, 0)
    else (16, 16, 16)

unfoldable pub start_radio : Radio → ℕ → RepeaterMode → RepeaterMode × List RepeaterCall
start_radio none channel s = (record s { radio_up = false }, [])
start_radio (some radio) channel s = (
  record s { active_channel = channel; radio_up = true },
  begin_radio channel ∷ set_channel channel ∷ [],
)

-- `mac` shows mac[3], mac[4] and mac[5]. The registration of `on_recv` is left out.
unfoldable pub enter : Radio → ℕ → ℕ → ℕ × ℕ × ℕ → RepeaterMode → RepeaterMode × List RepeaterCall
enter radio boot stored (mac3, mac4, mac5) s =
    let setting = valid_repeater_channel stored in
    let fresh = record s {
      boot_ms = boot;
      last_census_ms = boot;
      pending_repeat = false;
      dedup_head = 0;
      relayed_count = 0;
      last_relay_ms = 0;
      last_rx_ms = 0;
      channel_setting = setting;
    } in
    let (up, calls) =
      if setting == 0
      then start_radio radio (scan_channel 0)
          (record fresh { locked = false; scan_idx = 0; scan_probe_started_ms = boot })
      else start_radio radio setting (record fresh { locked = true }) in
    (record up { uid0 = mac3; uid1 = mac4; uid2 = mac5 }, calls)

-- The callback is taken back and the LED put out.
abbrev pub exit : RepeaterMode → RepeaterMode
exit s = record s { pending_repeat = false }

abbrev pub same_entry : DedupEntry → DedupEntry → Bool
same_entry (src, seq) (src', seq') = src == src' && seq == seq'

-- The loop of `seen_recently`.
unfoldable pub any_entry : DedupEntry → List DedupEntry → Bool
any_entry x [] = false
any_entry x (e ∷ es) = same_entry e x || any_entry x es

unfoldable pub seen_recently : RepeaterMode → ℕ → ℕ → Bool
seen_recently s src seq = if seq == 0 then false else any_entry (src, seq) s.dedup_ring

unfoldable pub mark_seen : ℕ → ℕ → RepeaterMode → RepeaterMode
mark_seen src seq s = if seq == 0 then s else record s {
  dedup_ring = set s.dedup_ring s.dedup_head (src, seq);
  dedup_head = (s.dedup_head + 1) % dedup_ring_size;
}

-- The header that `on_recv` reads the frame into.
abbrev pub no_header : Header
no_header = record {
  version = 0;
  source_id = 0;
  sequence_number = 0;
  hop_count = 0;
  message_type = heartbeat;
  payload_len = 0;
}

-- verdict == DecodeResult::Ok
abbrev pub is_ok : DecodeResult → Bool
is_ok ok = true
is_ok _ = false

-- `frame` is m.data, no null pointer, with m.len bytes; `clock` is the time that millis() gives here.
unfoldable pub on_recv : Bytes → ℕ → RepeaterMode → RepeaterMode
on_recv frame clock s =
    let (verdict, hdr) = decode_header frame (length frame) no_header in
    let heard = record s { last_rx_ms = clock; locked = true } in
    let marked = mark_seen hdr.source_id hdr.sequence_number heard in
    if ltb (length frame) header_size
    then s
    else if not (is_ok verdict)
    then s
    else if same_type hdr.message_type repeater_heartbeat
    then s
    else if hdr.sequence_number == 0
    then heard
    else if seen_recently heard hdr.source_id hdr.sequence_number
    then heard
    else if leb (length frame) repeat_buf_size
    then record marked { pending_repeat_frame = frame; pending_repeat = true }
    else marked

-- The first step of `loop_tick`.
unfoldable pub flush_relay : Radio → ℕ → RepeaterMode → RepeaterMode × List RepeaterCall
flush_relay none now s =
    if s.pending_repeat then (record s { pending_repeat = false }, []) else (s, [])
flush_relay (some radio) now s =
    let flushed = record s { pending_repeat = false } in
    if s.pending_repeat
    then if radio s.pending_repeat_frame
      then (
        record flushed { relayed_count = (s.relayed_count + 1) % 2 ^ 32; last_relay_ms = now },
        send_broadcast s.pending_repeat_frame ∷ [],
      )
      else (flushed, send_broadcast s.pending_repeat_frame ∷ [])
    else (s, [])

unfoldable pub apply_channel_setting :
    TickInput → ℕ → RepeaterMode → RepeaterMode × List RepeaterCall
apply_channel_setting input setting s =
    let set = record s { channel_setting = setting } in
    let (up, calls) =
      if setting == 0
      then start_radio input.radio (scan_channel 0)
          (record set { locked = false; scan_idx = 0; scan_probe_started_ms = input.probe_ms })
      else start_radio input.radio setting (record set { locked = true }) in
    (
      record up { confirm_until_ms = later input.confirm_from_ms confirm_ms },
      put_rpt_chan (valid_repeater_channel setting) ∷ calls,
    )

-- The switch of `poll_button`.
abbrev pub next_setting : ℕ → ℕ
next_setting setting =
    if setting == 0 then 1 else if setting == 1 then 6 else if setting == 6 then 11 else 0

unfoldable pub poll_button : TickInput → RepeaterMode → RepeaterMode × List RepeaterCall
poll_button input s =
    if not input.was_clicked
    then (s, [])
    else if s.last_click_ms != 0 && leb (elapsed input.now_ms s.last_click_ms) double_click_ms
    then apply_channel_setting input (next_setting s.channel_setting)
        (record s { last_click_ms = 0 })
    else (record s { last_click_ms = input.now_ms }, [])

unfoldable pub service_scan : Radio → ℕ → RepeaterMode → RepeaterMode × List RepeaterCall
service_scan radio now s =
    let next = (s.scan_idx + 1) % 3 in
    let (probing, probe_calls) =
      start_radio radio (scan_channel next) (record s { scan_idx = next }) in
    let (dropped, drop_calls) =
      start_radio radio (scan_channel next) (record s { locked = false; scan_idx = next }) in
    if s.channel_setting != 0
    then (s, [])
    else if not s.locked
    then if leb scan_dwell_ms (elapsed now s.scan_probe_started_ms)
      then (record probing { scan_probe_started_ms = now }, probe_calls)
      else (s, [])
    else if leb scan_relock_ms (elapsed now s.last_rx_ms)
    then (record dropped { scan_probe_started_ms = now }, drop_calls)
    else (s, [])

abbrev pub census_header : Header
census_header = record no_header { source_id = broadcast_source_id }

-- The payload of `emit_census`.
abbrev pub census_payload : ℕ → RepeaterMode → RepeaterHeartbeatPayload
census_payload now s =
    let up = elapsed now s.boot_ms / 1000 in
    record {
      uid0 = s.uid0;
      uid1 = s.uid1;
      uid2 = s.uid2;
      channel = s.active_channel;
      uptime_s = if ltb 0xFFFF up then 0xFFFF else up;
      relayed_count = s.relayed_count;
    }

-- The buffer on the stack, written whole before it is sent.
abbrev pub census_buf : Bytes
census_buf = replicate (header_size + repeater_heartbeat_payload_len) 0

-- The frame that `emit_census` builds.
unfoldable pub census_frame : ℕ → RepeaterMode → ℕ × Bytes
census_frame now s = encode_repeater_heartbeat census_buf census_header (census_payload now s)

unfoldable pub emit_census : Radio → ℕ → RepeaterMode → RepeaterMode × List RepeaterCall
emit_census radio now s =
    let stamped = record s { last_census_ms = now } in
    if ltb (elapsed now s.last_census_ms) census_interval_ms
    then (s, [])
    else if not s.radio_up
    then (stamped, [])
    else if s.channel_setting == 0 && not s.locked
    then (stamped, [])
    else elim radio [
      | none ↦ (stamped, [])
      | some _ ↦
          let (n, frame) = census_frame now stamped in
          (stamped, if ltb 0 n then send_broadcast (take n frame) ∷ [] else [])
    ]

-- `update_led` writes no state: the colour that it gives the LED.
unfoldable pub led_colour : ℕ → RepeaterMode → ℕ × ℕ × ℕ
led_colour now s =
    let (r, g, b) = channel_colour s.channel_setting in
    if ltb now s.confirm_until_ms
    then (r * 2, g * 2, b * 2)
    else if not s.radio_up
    then (40, 0, 0)
    else if s.channel_setting == 0 && not s.locked
    then (30, 12, 0)
    else if ltb (elapsed now s.last_relay_ms) relay_flash_ms
    then (0, 40, 0)
    else channel_colour s.active_channel

unfoldable pub loop_tick : TickInput → RepeaterMode → RepeaterMode × List RepeaterCall
loop_tick input s =
    let (s1, relays) = flush_relay input.radio input.now_ms s in
    let (s2, buttons) = poll_button input s1 in
    let (s3, scans) = service_scan input.radio input.now_ms s2 in
    let (s4, beacons) = emit_census input.radio input.now_ms s3 in
    (s4, relays ++ (buttons ++ (scans ++ beacons)))
