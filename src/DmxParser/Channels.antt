-- ===== src/DmxParser/Channels.antt =====
-- dmx_input_parser.cpp: what a caller reads of the last frame.
use nocturnation_stickc.DmxParser.Framing.{
  take-splice, enttec_frame, feed_head, feed_frame, recognised,
}
use nocturnation_stickc.Prelude.{
  ◌==◌, length, get_or, take, memcpy, ℕ, ◌/◌, ◌%◌, ◌^◌, ◌≤◌, ◌<◌, min, ◌≡◌, false, [], ◌∷◌, arith,
  drop, get_or-set_self, slice-take, suc, ◌-◌, refl, sym,
}
use nocturnation_stickc.Frame.Types.{Bytes}
use nocturnation_stickc.DmxParser.{
  DmxInputParser, copy_dmx_channels, reset, last_was_dmx_packet, wait_start, payload_buf_size,
  feed_all, start_byte, label_output_only_send_dmx, feed_in,
}

packet_bytes :
    (buf : Bytes) (n k x : ℕ) (xs : Bytes)
    → take (suc n) buf ≡ x ∷ xs
    → k ≤ n
    → (get_or buf 0 0 ≡ x) × (take k (drop 1 buf) ≡ take k xs)
packet_bytes [] n k x xs e h = cc
packet_bytes (y ∷ ys) n k x xs e h =
    let head : y ≡ x = cc in
    let tail : take n ys ≡ xs = cc in (head, rw (← tail) (sym (slice-take n 0 k ys (omega arith))))

copy_packet :
    (q : DmxInputParser) (channels out : Bytes)
    → q.last_label ≡ label_output_only_send_dmx
    → q.last_payload_len ≡ suc (length channels)
    → take (suc (length channels)) q.payload_buf ≡ 0 ∷ channels
    → copy_dmx_channels q out ≡ (
      min (length channels) (length out),
      memcpy out channels (min (length channels) (length out)),
    )
unfolding copy_dmx_channels last_was_dmx_packet
copy_packet q channels [] label len stored =
    let (head, _) =
      packet_bytes q.payload_buf (length channels) 0 0 channels stored (omega arith) in
    let none_fit : min (length channels) 0 ≡ 0 = omega arith in
    rw (label, len, head, none_fit) (ground arith)
copy_packet q channels (o ∷ out) label len stored =
    let k = min (length channels) (suc (length out)) in
    let (head, tail) =
      packet_bytes q.payload_buf (length channels) k 0 channels stored (omega arith) in
    let same : min (q.last_payload_len - 1) (suc (length out)) ≡ k = omega arith in
    rw (label, same, head, tail) (rw len (ground arith))

-- A DMX packet with start code 0 that a parser recognises is copied out channel by channel, as many as
-- the packet and the caller's array hold; the rest of the array is left alone.
pub copy_after_packet :
    (p : DmxInputParser) (channels out : Bytes)
    → p.state ≡ wait_start
    → length p.payload_buf ≡ payload_buf_size
    → length channels < payload_buf_size
    → copy_dmx_channels (feed_all p (enttec_frame label_output_only_send_dmx (0 ∷ channels))).0 out
      ≡ (
        min (length channels) (length out),
        memcpy out channels (min (length channels) (length out)),
      )
copy_after_packet p channels out s size fits =
    let sent = 0 ∷ channels in
    rw (feed_frame p 6 sent s (omega arith)) (
      copy_packet (recognised p 6 sent) channels out refl refl
        (take-splice sent p.payload_buf 0 (length sent) (omega arith) (omega arith)))

-- `reset` keeps label and length of the last frame, but not its bytes: the first byte of data of a
-- frame begun after it has already replaced the first byte of the payload.
pub unfinished_frame_overwrites :
    (p : DmxInputParser) (label n b : ℕ)
    → p.state ≡ wait_start
    → length p.payload_buf ≡ payload_buf_size
    → 0 < n
    → n ≤ payload_buf_size
    → let q = reset (feed_all p (start_byte ∷ label ∷ (n % 2 ^ 8) ∷ (n / 2 ^ 8) ∷ b ∷ [])).0 in
      (q.last_label ≡ p.last_label)
      × (q.last_payload_len ≡ p.last_payload_len)
      × (get_or q.payload_buf 0 0 ≡ b)
unfolding reset
unfinished_frame_overwrites p label n b s size pos fits =
    let not_zero : (n == 0) ≡ false = ground arith in
    rw (feed_head label n (b ∷ []) p s fits, not_zero)
      (unfold feed_all feed_in in (refl, refl, get_or-set_self p.payload_buf 0 b 0 (omega arith)))
