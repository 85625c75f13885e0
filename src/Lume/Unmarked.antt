-- ===== src/Lume/Unmarked.antt =====
-- src/modes/lume_mode.cpp: what a Lume does that is no edge of the fallback wash.
use nocturnation_stickc.Tofu.{age, clear}
use nocturnation_stickc.Frame.Status.{encode_repeater_heartbeat}
use nocturnation_stickc.Frame.Bitmap.{decode_bitmap_header, bitmap_header_payload_len}
use nocturnation_stickc.Frame.Display.{
  decode_text_display, decode_bitmap_plane, decode_clear_screen, text_display_min_payload_len,
  bitmap_plane_fixed_prefix_len, clear_screen_payload_len,
}
use nocturnation_stickc.Lume.Ticking.{
  drain_pending, drain_repeat, emit_repeat_census, drain, scan, drain_light, next_listen, talkback,
}
use nocturnation_stickc.Broadcaster.Types.{Antenna}
use nocturnation_stickc.Repeater.{is_ok, census_buf, census_header}
use nocturnation_stickc.Lume.Blank.{
  no_light_pulse, no_text, no_light_wash, no_bitmap, no_plane, no_light_wash_pulse, no_wipe,
}
use nocturnation_stickc.Lume.Receive.{
  render_pulse, render_display, render_wash, render, render_wash_end, render_wash_pulse,
}
use nocturnation_stickc.Lume.FanOut.{
  fan_out_light_wash, fan_out_light_wash_end, fan_out_light_wash_pulse, fan_out_light_pulse,
  fan_out_light_pulse_inline, fan_out_display, addressed, display_class, in_group, fallback_end,
}
use nocturnation_stickc.Prelude.{
  ◌==◌, if◌then◌else◌, Bool-cases, length, drop, ℕ, ◌+◌, ◌-◌, ◌≡◌, refl, ap₂, ◌∙◌, inl, inr, Bool,
  true, false, not, ◌&&◌, List, [], ◌++◌, ltb, leb, take, Option, none, some, ◌∷◌, elapsed, ◌||◌,
}
use nocturnation_stickc.Frame.Light.{
  LightPulsePayload, LightWashPayload, LightWashEndPayload, LightWashPulsePayload,
  decode_light_pulse, light_pulse_payload_len, decode_light_wash, decode_light_wash_end,
  decode_light_wash_pulse, light_wash_payload_len, light_wash_end_payload_len,
  light_wash_pulse_payload_len,
}
use nocturnation_stickc.Frame.Types.{
  Bytes, Header, header_size, same_type, light_pulse, MessageType, light_wash, light_wash_end,
  light_wash_pulse, clear_screen, bitmap_plane, bitmap_header, text_display,
}
use nocturnation_stickc.Lume.Types.{
  Order, LumeCall, Lume, do_wash, do_wash_end, do_wash_pulse, do_pulse, broadcast, tuned, do_text,
  do_bitmap_header, do_bitmap_plane, do_clear_screen, rescan_ms, channel_dwell_ms,
  lume_census_interval_ms,
}
use nocturnation_stickc.Lume.Edges.{edges-append, edges-fan_from, edges}

pub edges_if :
    (b : Bool) (xs ys : List LumeCall)
    → edges xs ≡ []
    → edges ys ≡ []
    → edges (if b then xs else ys) ≡ []
edges_if true xs ys f g = f
edges_if false xs ys f g = g

pair_if :
    (b : Bool) (x y : Lume × List LumeCall)
    → edges x.1 ≡ []
    → edges y.1 ≡ []
    → edges (if b then x else y).1 ≡ []
pair_if true x y f g = f
pair_if false x y f g = g

pub edges_append : (xs ys : List LumeCall) → edges xs ≡ [] → edges ys ≡ [] → edges (xs ++ ys) ≡ []
edges_append xs ys f g = edges-append xs ys ∙ ap₂ ◌++◌ f g

-- An order read from a frame, which is fanned out if the frame is well-formed.
edges_rendered :
    (skip good : Bool) (call : List LumeCall)
    → edges call ≡ []
    → edges (if skip then [] else if good then call else []) ≡ []
unfolding edges
edges_rendered true good call h = refl
edges_rendered false true call h = h
edges_rendered false false call h = refl

pub wash_edges : (p : LightWashPayload) (s : Lume) → edges (fan_out_light_wash p s) ≡ []
unfolding fan_out_light_wash
wash_edges p s =
    edges-fan_from (λ b. b.can_wash && addressed p.target_class p.target_group s.group b)
      p.target_class p.target_group (do_wash p) 0 s.bindings

pub wash_end_edges : (p : LightWashEndPayload) (s : Lume) → edges (fan_out_light_wash_end p s) ≡ []
unfolding fan_out_light_wash_end
wash_end_edges p s =
    edges-fan_from (λ b. b.can_wash && addressed p.target_class p.target_group s.group b)
      p.target_class p.target_group
      (do_wash_end p.release_time p.led_mode p.led_modifier1 p.led_modifier2) 0 s.bindings

wash_pulse_edges :
    (p : LightWashPulsePayload) (s : Lume) → edges (fan_out_light_wash_pulse p s) ≡ []
unfolding fan_out_light_wash_pulse
wash_pulse_edges p s =
    edges-fan_from (λ b. b.can_wash && addressed p.target_class p.target_group s.group b)
      p.target_class p.target_group (do_wash_pulse p) 0 s.bindings

pulse_edges : (p : LightPulsePayload) (s : Lume) → edges (fan_out_light_pulse p s) ≡ []
unfolding fan_out_light_pulse
pulse_edges p s =
    edges-fan_from (λ b. not b.in_callback && addressed p.target_class p.target_group s.group b)
      p.target_class p.target_group (do_pulse p) 0 s.bindings

inline_edges : (p : LightPulsePayload) (s : Lume) → edges (fan_out_light_pulse_inline p s) ≡ []
unfolding fan_out_light_pulse_inline
inline_edges p s =
    edges-fan_from (λ b. b.in_callback && addressed p.target_class p.target_group s.group b)
      p.target_class p.target_group (do_pulse p) 0 s.bindings

display_edges : (group : ℕ) (order : Order) (s : Lume) → edges (fan_out_display group order s) ≡ []
unfolding fan_out_display
display_edges group order s =
    edges-fan_from (λ b. b.device_class == display_class && in_group group s.group) display_class
      group order 0 s.bindings

edges-render_pulse :
    (frame : Bytes) (hdr : Header) (s : Lume) → edges (render_pulse frame hdr s).1 ≡ []
unfolding render_pulse edges
edges-render_pulse frame hdr s =
    let r =
      decode_light_pulse hdr (drop header_size frame) (length frame - header_size) no_light_pulse in
    elim (Bool-cases (
      not (
        same_type hdr.message_type light_pulse
        && length frame == header_size + light_pulse_payload_len))) [
          | inl e ↦ rw e refl
          | inr e ↦ elim (Bool-cases (is_ok r.0)) [
            | inl g ↦ rw (e, g) (inline_edges r.1 s)
            | inr g ↦ rw (e, g) refl
          ]
        ]

display_order_edges :
    (has fits good : Bool) (group : ℕ) (order : Order) (s : Lume)
    → edges (if has && fits && good then fan_out_display group order s else []) ≡ []
unfolding edges
display_order_edges has fits good group order s =
    edges_if (has && fits && good) (fan_out_display group order s) [] (display_edges group order s)
      refl

edges-render_display :
    (frame : Bytes) (hdr : Header) (s : Lume) → edges (render_display frame hdr s) ≡ []
unfolding render_display edges
edges-render_display frame hdr s =
    let body = drop header_size frame in
    let n = length frame - header_size in
    let (tv, t) = decode_text_display hdr body n no_text in
    let (hv, h) = decode_bitmap_header hdr body n no_bitmap in
    let (pv, p) = decode_bitmap_plane hdr body n no_plane in
    let (cv, c) = decode_clear_screen hdr body n no_wipe in
    let text = is_ok tv in
    let L = List LumeCall in
    let x1 : L =
      if s.shows_text && leb text_display_min_payload_len n && is_ok tv
      then fan_out_display t.target_group (do_text t) s
      else [] in
    let x2 : L =
      if s.shows_bitmaps && n == bitmap_header_payload_len && is_ok hv
      then fan_out_display h.target_group (do_bitmap_header h) s
      else [] in
    let x3 : L =
      if s.shows_bitmaps && leb bitmap_plane_fixed_prefix_len n && is_ok pv
      then fan_out_display p.target_group (do_bitmap_plane p) s
      else [] in
    let x4 : L =
      if s.shows_text && n == clear_screen_payload_len && is_ok cv
      then fan_out_display c.target_group (do_clear_screen c) s
      else [] in
    let y4 : L = if same_type hdr.message_type clear_screen then x4 else [] in
    let y3 : L = if same_type hdr.message_type bitmap_plane then x3 else y4 in
    let y2 : L = if same_type hdr.message_type bitmap_header then x2 else y3 in
    edges_if (same_type hdr.message_type text_display) x1 y2
      (display_order_edges s.shows_text (leb text_display_min_payload_len n) (is_ok tv)
        t.target_group (do_text t) s)
      (edges_if (same_type hdr.message_type bitmap_header) x2 y3
        (display_order_edges s.shows_bitmaps (n == bitmap_header_payload_len) (is_ok hv)
          h.target_group (do_bitmap_header h) s)
        (edges_if (same_type hdr.message_type bitmap_plane) x3 y4
          (display_order_edges s.shows_bitmaps (leb bitmap_plane_fixed_prefix_len n) (is_ok pv)
            p.target_group (do_bitmap_plane p) s)
          (edges_if (same_type hdr.message_type clear_screen) x4 []
            (display_order_edges s.shows_text (n == clear_screen_payload_len) (is_ok cv)
              c.target_group (do_clear_screen c) s)
            refl)))

wash_rendered :
    (frame : Bytes) (hdr : Header) (s : Lume)
    → (edges (render_wash frame hdr s) ≡ [])
      × (edges (render_wash_end frame hdr s) ≡ [])
      × (edges (render_wash_pulse frame hdr s) ≡ [])
unfolding render_wash render_wash_end render_wash_pulse
wash_rendered frame hdr s =
    let body = drop header_size frame in
    let n = length frame - header_size in
    let t = λ (m : MessageType) (k : ℕ).
      not (same_type hdr.message_type m && length frame == header_size + k) in
    let w = decode_light_wash hdr body n no_light_wash in
    let e = decode_light_wash_end hdr body n (fallback_end 0) in
    let p = decode_light_wash_pulse hdr body n no_light_wash_pulse in
    (
      edges_rendered (t light_wash light_wash_payload_len) (is_ok w.0) (fan_out_light_wash w.1 s)
          (wash_edges w.1 s),
      edges_rendered (t light_wash_end light_wash_end_payload_len) (is_ok e.0)
          (fan_out_light_wash_end e.1 s) (wash_end_edges e.1 s),
      edges_rendered (t light_wash_pulse light_wash_pulse_payload_len) (is_ok p.0)
          (fan_out_light_wash_pulse p.1 s) (wash_pulse_edges p.1 s),
    )

-- The rendering of a frame has no edge.
pub edges-render : (frame : Bytes) (hdr : Header) (s : Lume) → edges (render frame hdr s).1 ≡ []
unfolding render
edges-render frame hdr s =
    let s1 = (render_pulse frame hdr s).0 in
    let (wash, wash_end, wash_pulse) = wash_rendered frame hdr s1 in
    let c4 = render_display frame hdr s1 in
    let c3 = render_wash_pulse frame hdr s1 ++ c4 in
    let c2 = render_wash_end frame hdr s1 ++ c3 in
    edges_append (render_pulse frame hdr s).1 (render_wash frame hdr s1 ++ c2)
      (edges-render_pulse frame hdr s)
      (edges_append (render_wash frame hdr s1) c2 wash (
        edges_append (render_wash_end frame hdr s1) c3 wash_end (
          edges_append (render_wash_pulse frame hdr s1) c4 wash_pulse
            (edges-render_display frame hdr s1))))

pending_edges :
    (pending : Option LightPulsePayload) (s : Lume) → edges (drain_pending pending s).1 ≡ []
unfolding edges
pending_edges none s = refl
pending_edges (some p) s = pulse_edges p s

edges-drain_repeat : (antenna : Antenna) (s : Lume) → edges (drain_repeat antenna s).1 ≡ []
unfolding drain_repeat edges
edges-drain_repeat none s = elim (Bool-cases (not s.pending_repeat)) [
  | inl e ↦ rw (drain_repeat, e) refl
  | inr e ↦ rw (drain_repeat, e) refl
]
edges-drain_repeat (some radio) s = elim (Bool-cases (not s.pending_repeat)) [
  | inl e ↦ rw (drain_repeat, e) refl
  | inr e ↦ rw (drain_repeat, e) refl
]

beacon_edges :
    (antenna : Antenna) (n : ℕ) (frame : Bytes)
    → edges (elim antenna [
      | none ↦ []
      | some _ ↦ if ltb 0 n then broadcast (take n frame) ∷ [] else []
    ])
      ≡ []
unfolding edges
beacon_edges none n frame = refl
beacon_edges (some _) n frame = edges_if (ltb 0 n) (broadcast (take n frame) ∷ []) [] refl refl

census_edges :
    (antenna : Antenna) (now : ℕ) (s : Lume) → edges (emit_repeat_census antenna now s).1 ≡ []
unfolding emit_repeat_census edges
census_edges antenna now s =
    let stamped = record s { last_census_ms = now } in
    let r = encode_repeater_heartbeat census_buf census_header (talkback now stamped) in
    let sent : Lume × List LumeCall = (
      stamped,
      elim antenna [ none ↦ [] | some _ ↦ if ltb 0 r.0 then broadcast (take r.0 r.1) ∷ [] else [] ],
    ) in
    let timed : Lume × List LumeCall =
      if ltb (elapsed now s.last_census_ms) lume_census_interval_ms then (s, []) else sent in
    let locked : Lume × List LumeCall =
      if not s.tofu.has_lock || s.no_signal then (s, []) else timed in
    pair_if (not s.repeat_enabled || not s.radio_active) (s, []) locked refl
      (pair_if (not s.tofu.has_lock || s.no_signal) (s, []) timed refl
        (pair_if (ltb (elapsed now s.last_census_ms) lume_census_interval_ms) (s, []) sent refl
          (beacon_edges antenna r.0 r.1)))

-- What a tick drains has no edge.
pub edges-drain : (antenna : Antenna) (now : ℕ) (s : Lume) → edges (drain antenna now s).1 ≡ []
unfolding drain drain_light
edges-drain antenna now s =
    let s1 = record (drain_light s).0 { needs_repaint = false } in
    let s2 = (drain_repeat antenna s1).0 in
    let beacons = (emit_repeat_census antenna now s2).1 in
    edges_append (drain_light s).1 ((drain_repeat antenna s1).1 ++ beacons)
      (pending_edges s.pending_light s)
      (edges_append (drain_repeat antenna s1).1 beacons (edges-drain_repeat antenna s1)
        (census_edges antenna now s2))

tuned_edges :
    (antenna : Antenna) (chan : ℕ)
    → edges (elim antenna [ none ↦ [] | some _ ↦ tuned chan ∷ [] ]) ≡ []
unfolding edges
tuned_edges none chan = refl
tuned_edges (some _) chan = refl

pub edges-scan : (antenna : Antenna) (now : ℕ) (s : Lume) → edges (scan antenna now s).1 ≡ []
unfolding scan edges
edges-scan antenna now s =
    let should_rescan = ltb 0 s.rx_count && ltb rescan_ms (age now s.last_rx_ms) in
    let scanning = s.channel_pref == 0 && (s.rx_count == 0 || should_rescan) in
    let next = next_listen s.listen_channel in
    pair_if (scanning && leb channel_dwell_ms (elapsed now s.last_chan_switch_ms))
      (
        record s { listen_channel = next; last_chan_switch_ms = now; tofu = clear s.tofu },
        elim antenna [ none ↦ [] | some _ ↦ tuned next ∷ [] ],
      )
      (s, []) (tuned_edges antenna next) refl
