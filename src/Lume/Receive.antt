-- ===== src/Lume/Receive.antt =====
-- src/modes/lume_mode.cpp: what a Lume does with a frame that it hears.
use nocturnation_stickc.Frame.Bitmap.{decode_bitmap_header, bitmap_header_payload_len}
use nocturnation_stickc.Tofu.{admit}
use nocturnation_stickc.Frame.Display.{
  decode_text_display, decode_bitmap_plane, decode_clear_screen, text_display_min_payload_len,
  bitmap_plane_fixed_prefix_len, clear_screen_payload_len,
}
use nocturnation_stickc.Lume.Blank.{
  no_light_pulse, no_light_wash, no_light_wash_pulse, no_text, no_bitmap, no_plane, no_wipe,
}
use nocturnation_stickc.Lume.FanOut.{
  emit_fallback_wash_recovery, fallback_end, fan_out_light_pulse_inline, fan_out_light_wash,
  fan_out_light_wash_end, fan_out_light_wash_pulse, fan_out_display,
}
use nocturnation_stickc.Frame.Wire.{decode_header, set_hop_count}
use nocturnation_stickc.Lume.Quality.{note_frame}
use nocturnation_stickc.Frame.Light.{
  decode_light_pulse, decode_light_wash, decode_light_wash_end, decode_light_wash_pulse,
  light_pulse_payload_len, light_wash_payload_len, light_wash_end_payload_len,
  light_wash_pulse_payload_len,
}
use nocturnation_stickc.Repeater.Types.{dedup_ring_size}
use nocturnation_stickc.Repeater.{any_entry, no_header, is_ok}
use nocturnation_stickc.Prelude.{
  ltb, leb, ◌==◌, if◌then◌else◌, elapsed, length, set, drop, ℕ, ◌+◌, ◌-◌, ◌*◌, ◌/◌, ◌%◌, ◌^◌, Bool,
  true, false, not, ◌&&◌, ◌||◌, some, List, [], ◌∷◌, ◌++◌,
}
use nocturnation_stickc.Frame.Status.{HeartbeatPayload, decode_heartbeat, heartbeat_payload_len}
use nocturnation_stickc.Frame.Types.{
  Bytes, Header, to_byte, header_size, same_type, heartbeat, light_pulse, light_wash,
  light_wash_end, light_wash_pulse, repeater_heartbeat, uid_announce, config_ack, config_write,
  text_display, bitmap_header, bitmap_plane, clear_screen,
}
use nocturnation_stickc.Lume.Types.{
  LumeCall, Lume, max_hop_count, lume_repeat_buf_size, config_received, do_text, do_bitmap_header,
  do_bitmap_plane, do_clear_screen,
}

unfoldable pub seen_before : Lume → ℕ → ℕ → Bool
seen_before s src seq = if seq == 0 then false else any_entry (src, seq) s.ring

unfoldable pub mark : ℕ → ℕ → Lume → Lume
mark src seq s =
    if seq == 0
    then s
    else record s { ring = set s.ring s.head (src, seq); head = (s.head + 1) % dedup_ring_size }

-- The liveness of an admitted frame, duplicates included, and the end of a fallback.
unfoldable pub refresh : ℕ → Header → Lume → Lume × List LumeCall
refresh now hdr s =
    let count = (s.rx_count + 1) % 2 ^ 32 in
    (
      record s {
        rx_count = count;
        last_rx_ms = now;
        no_signal = false;
        fallback_active = false;
        fallback_fading = if s.fallback_active then false else s.fallback_fading;
        lock_acquired_ms = if s.no_signal || count == 1 then now else s.lock_acquired_ms;
        needs_repaint = s.no_signal || s.needs_repaint;
        last_source_id = hdr.source_id;
        last_msg_type = to_byte hdr.message_type;
      },
      if s.fallback_active then emit_fallback_wash_recovery s else [],
    )

-- (offset * 9 + raw) / 10 on the 32 bits of an int32_t, the quotient towards zero; a sum out of range is
-- taken to wrap.
abbrev pub smoothed : ℕ → ℕ → ℕ
smoothed offset raw =
    let sum = (offset * 9 + raw) % 2 ^ 32 in
    if ltb sum (2 ^ 31) then sum / 10 else (2 ^ 32 - (2 ^ 32 - sum) / 10) % 2 ^ 32

-- The payload that a heartbeat is read into.
abbrev pub no_heartbeat : HeartbeatPayload
no_heartbeat = record { tick = 0; days_since_2026 = 0; centiseconds_today = 0 }

-- The clock offset of the Director; the length test is on the frame, which has a header.
unfoldable pub track_offset : Bytes → Header → Lume → Lume
track_offset frame hdr s =
    let (verdict, hb) =
      decode_heartbeat hdr (drop header_size frame) (length frame - header_size) no_heartbeat in
    let raw = elapsed hb.tick s.last_rx_ms in
    let valid = s.offset_valid && hdr.source_id == s.offset_source_id in
    if not (
      same_type hdr.message_type heartbeat
      && leb heartbeat_payload_len (length frame - header_size))
    then s
    else if not (is_ok verdict)
    then s
    else if not valid
    then record s { tick_offset_ms = raw; offset_source_id = hdr.source_id; offset_valid = true }
    else record s { tick_offset_ms = smoothed s.tick_offset_ms raw }

-- The frame to relay is staged with its hop count raised.
unfoldable pub stage_repeat : Bytes → Header → Lume → Lume
stage_repeat frame hdr s =
    if s.repeat_enabled
      && ltb hdr.hop_count max_hop_count
      && leb (length frame) lume_repeat_buf_size
    then record s {
      pending_repeat_frame = set_hop_count frame (hdr.hop_count + 1);
      pending_repeat = true;
    }
    else s

-- The light family. A pulse goes to some bindings at once and waits for the others.
unfoldable pub render_pulse : Bytes → Header → Lume → Lume × List LumeCall
render_pulse frame hdr s =
    let (verdict, p) =
      decode_light_pulse hdr (drop header_size frame) (length frame - header_size) no_light_pulse in
    if not (
      same_type hdr.message_type light_pulse
      && length frame == header_size + light_pulse_payload_len)
    then (s, [])
    else if is_ok verdict
    then (record s { pending_light = some p }, fan_out_light_pulse_inline p s)
    else (s, [])

unfoldable pub render_wash : Bytes → Header → Lume → List LumeCall
render_wash frame hdr s =
    let (verdict, p) =
      decode_light_wash hdr (drop header_size frame) (length frame - header_size) no_light_wash in
    if not (
      same_type hdr.message_type light_wash && length frame == header_size + light_wash_payload_len)
    then []
    else if is_ok verdict
    then fan_out_light_wash p s
    else []

unfoldable pub render_wash_end : Bytes → Header → Lume → List LumeCall
render_wash_end frame hdr s =
    let (verdict, p) =
      decode_light_wash_end hdr (drop header_size frame) (length frame - header_size)
        (fallback_end 0) in
    if not (
      same_type hdr.message_type light_wash_end
      && length frame == header_size + light_wash_end_payload_len)
    then []
    else if is_ok verdict
    then fan_out_light_wash_end p s
    else []

unfoldable pub render_wash_pulse : Bytes → Header → Lume → List LumeCall
render_wash_pulse frame hdr s =
    let (verdict, p) =
      decode_light_wash_pulse hdr (drop header_size frame) (length frame - header_size)
        no_light_wash_pulse in
    if not (
      same_type hdr.message_type light_wash_pulse
      && length frame == header_size + light_wash_pulse_payload_len)
    then []
    else if is_ok verdict
    then fan_out_light_wash_pulse p s
    else []

-- The display family, on a host that has the capability of the type.
unfoldable pub render_display : Bytes → Header → Lume → List LumeCall
render_display frame hdr s =
    let body = drop header_size frame in
    let n = length frame - header_size in
    let (text_verdict, text) = decode_text_display hdr body n no_text in
    let (header_verdict, bitmap) = decode_bitmap_header hdr body n no_bitmap in
    let (plane_verdict, plane) = decode_bitmap_plane hdr body n no_plane in
    let (clear_verdict, wipe) = decode_clear_screen hdr body n no_wipe in
    if same_type hdr.message_type text_display
    then if s.shows_text && leb text_display_min_payload_len n && is_ok text_verdict
      then fan_out_display text.target_group (do_text text) s
      else []
    else if same_type hdr.message_type bitmap_header
    then if s.shows_bitmaps && n == bitmap_header_payload_len && is_ok header_verdict
      then fan_out_display bitmap.target_group (do_bitmap_header bitmap) s
      else []
    else if same_type hdr.message_type bitmap_plane
    then if s.shows_bitmaps && leb bitmap_plane_fixed_prefix_len n && is_ok plane_verdict
      then fan_out_display plane.target_group (do_bitmap_plane plane) s
      else []
    else if same_type hdr.message_type clear_screen
    then if s.shows_text && n == clear_screen_payload_len && is_ok clear_verdict
      then fan_out_display wipe.target_group (do_clear_screen wipe) s
      else []
    else []

-- The rendering of a frame that is no duplicate.
unfoldable pub render : Bytes → Header → Lume → Lume × List LumeCall
render frame hdr s =
    let (s1, pulses) = render_pulse frame hdr s in
    (
      s1,
      pulses
          ++ (render_wash frame hdr s1
              ++ (render_wash_end frame hdr s1
                  ++ (render_wash_pulse frame hdr s1 ++ render_display frame hdr s1))),
    )

-- A frame that is no duplicate.
unfoldable pub take_fresh : Bytes → Header → Lume → Lume × List LumeCall
take_fresh frame hdr s =
    let marked = mark hdr.source_id hdr.sequence_number s in
    let noted = record marked {
      quality = note_frame (hdr.source_id % 2 ^ 8) hdr.sequence_number s.last_rx_ms marked.quality;
    } in
    render frame hdr (stage_repeat frame hdr (track_offset frame hdr noted))

-- An admitted frame.
unfoldable pub take_admitted : Bytes → Header → ℕ → Lume → Lume × List LumeCall
take_admitted frame hdr now s =
    let (alive, recovery) = refresh now hdr s in
    let (taken, calls) = take_fresh frame hdr alive in
    if seen_before alive hdr.source_id hdr.sequence_number
    then (alive, recovery)
    else (taken, recovery ++ calls)

-- `frame` is m.data, no null pointer, with its m.len bytes; `now` is the time that millis() gives at the
-- admission.
unfoldable pub receive : Bytes → ℕ → Lume → Lume × List LumeCall
receive frame now s =
    let (verdict, hdr) = decode_header frame (length frame) no_header in
    let (lock, passes) = admit s.tofu hdr.message_type hdr.source_id s.listen_channel now in
    let admitted = record s { tofu = lock } in
    if not (is_ok verdict)
    then (s, [])
    else if same_type hdr.message_type repeater_heartbeat
    then (s, [])
    else if same_type hdr.message_type uid_announce || same_type hdr.message_type config_ack
    then (s, [])
    else if same_type hdr.message_type config_write
    then (s, config_received frame ∷ [])
    else if ltb max_hop_count hdr.hop_count
    then (s, [])
    else if not passes
    then (admitted, [])
    else take_admitted frame hdr now admitted
