-- ===== src/DmxParser/Framing.antt =====
-- dmx_input_parser.cpp: a whole Enttec frame in the byte stream, and noise in front of it.
use nocturnation_stickc.Prelude.{
  length, set, take, replicate, length-set, ℕ, zero, suc, ◌+◌, ◌/◌, ◌%◌, ◌^◌, ◌≤◌, ◌<◌, ◌≡◌, refl,
  ap, ◌∙◌, [], ◌∷◌, ◌++◌, append-nil, append_assoc, arith, ◌==◌, if◌then◌else◌, le→ltb, All, ◌*◌,
  ◌≢◌, false,
}
use nocturnation_stickc.Frame.Types.{Bytes}
use nocturnation_stickc.DmxParser.{
  DmxInputParser, start_byte, feed_all, end_byte, feed_byte, feed_in, read_data, read_end,
  need_more_bytes, wait_start, bump, payload_buf_size, frame_complete,
}

-- The frame that carries `payload` under `label`.
abbrev pub enttec_frame : ℕ → Bytes → Bytes
enttec_frame label payload =
    start_byte
    ∷ label
    ∷ (length payload % 2 ^ 8)
    ∷ (length payload / 2 ^ 8)
    ∷ (payload ++ end_byte ∷ [])

-- The stores of consecutive bytes from index `i` on.
abbrev pub splice : Bytes → ℕ → Bytes → Bytes
splice buf i [] = buf
splice buf i (b ∷ bs) = splice (set buf i b) (i + 1) bs

length-splice : (bs buf : Bytes) (i : ℕ) → length (splice buf i bs) ≡ length buf
length-splice [] buf i = refl
length-splice (b ∷ bs) buf i = length-splice bs (set buf i b) (i + 1) ∙ length-set buf i b

take-set :
    (buf : Bytes) (i b j : ℕ)
    → i < length buf
    → j ≡ i + 1
    → take j (set buf i b) ≡ take i buf ++ b ∷ []
take-set [] i b j h e = elim h [ ]
take-set (x ∷ buf) zero b zero h e = absurd (omega arith)
take-set (x ∷ buf) zero b (suc j) h e = let z : j ≡ 0 = omega arith in rw z
take-set (x ∷ buf) (suc i) b zero h e = absurd (omega arith)
take-set (x ∷ buf) (suc i) b (suc j) h e =
    ap (◌∷◌ x) (take-set buf i b j (omega arith) (omega arith))

pub take-splice :
    (bs buf : Bytes) (i j : ℕ)
    → j ≡ i + length bs
    → j ≤ length buf
    → take j (splice buf i bs) ≡ take i buf ++ bs
take-splice [] buf i j e h = let z : j ≡ i = omega arith in rw (z, append-nil)
take-splice (b ∷ bs) buf i j e h =
    take-splice bs (set buf i b) (i + 1) j (omega arith) (omega (arith, length-set buf i b))
    ∙ rw (take-set buf i b (i + 1) (omega arith) refl) (append_assoc (take i buf) (b ∷ []) bs)

feed_all-append :
    (xs ys : Bytes) (p : DmxInputParser)
    → feed_all p (xs ++ ys)
      ≡ ((feed_all (feed_all p xs).0 ys).0, (feed_all p xs).1 ++ (feed_all (feed_all p xs).0 ys).1)
unfolding feed_all
feed_all-append [] ys p = refl
feed_all-append (x ∷ xs) ys p = rw (feed_all-append xs ys (feed_byte p x).0)

-- The data segment, byte by byte.
feed_data :
    (b : ℕ) (bs : Bytes) (p : DmxInputParser)
    → p.state ≡ read_data
    → p.data_read + suc (length bs) ≡ p.current_len
    → feed_all p (b ∷ bs) ≡ (
      record p {
        payload_buf = splice p.payload_buf p.data_read (b ∷ bs);
        data_read = p.current_len;
        state = read_end;
      },
      replicate (suc (length bs)) need_more_bytes,
    )
unfolding feed_all feed_in
feed_data b [] p s e = ground arith
feed_data b (c ∷ bs) p s e =
    let q = record p {
      payload_buf = set p.payload_buf p.data_read b;
      data_read = p.data_read + 1;
    } in
    ground (arith, feed_data c bs q)

-- The parser behind a frame that it has recognised.
abbrev pub recognised : DmxInputParser → ℕ → Bytes → DmxInputParser
recognised p label payload = record p {
  state = wait_start;
  current_label = 0;
  current_len = 0;
  data_read = 0;
  last_label = label;
  last_payload_len = length payload;
  payload_buf = splice p.payload_buf 0 payload;
  frame_count = bump p.frame_count;
}

-- The four bytes in front of the payload.
pub feed_head :
    (label n : ℕ) (rest : Bytes) (p : DmxInputParser)
    → p.state ≡ wait_start
    → n ≤ payload_buf_size
    → let q = record p {
      state = if n == 0 then read_end else read_data;
      current_label = label;
      current_len = n;
      data_read = 0;
    } in
      feed_all p (start_byte ∷ label ∷ (n % 2 ^ 8) ∷ (n / 2 ^ 8) ∷ rest) ≡ (
        (feed_all q rest).0,
        need_more_bytes ∷ need_more_bytes ∷ need_more_bytes ∷ need_more_bytes ∷ (feed_all q rest).1,
      )
unfolding feed_all feed_in
feed_head label n rest p s h =
    let len : n % 2 ^ 8 + n / 2 ^ 8 * 2 ^ 8 ≡ n = omega arith in
    rw (s, feed_in) (rw (len, le→ltb 600 n h))

pub feed_frame :
    (p : DmxInputParser) (label : ℕ) (payload : Bytes)
    → p.state ≡ wait_start
    → length payload ≤ payload_buf_size
    → feed_all p (enttec_frame label payload) ≡ (
      recognised p label payload,
      replicate 4 need_more_bytes
          ++ (replicate (length payload) need_more_bytes ++ frame_complete ∷ []),
    )
feed_frame p label [] s h =
    feed_head label 0 (end_byte ∷ []) p s h ∙ (unfold feed_all feed_in in refl)
feed_frame p label (b ∷ bs) s h =
    let n = suc (length bs) in
    let q = record p { state = read_data; current_label = label; current_len = n; data_read = 0 } in
    let not_zero : (suc (length bs) == 0) ≡ false = ground arith in
    feed_head label n (b ∷ bs ++ end_byte ∷ []) p s h
    ∙ rw (not_zero, feed_all-append (b ∷ bs) (end_byte ∷ []) q, feed_data b bs q refl (omega arith))
        (unfold feed_all feed_in in refl)

-- Noise with no start byte in it is skipped.
feed_noise :
    (noise rest : Bytes) (p : DmxInputParser)
    → p.state ≡ wait_start
    → All (λ b. b ≢ start_byte) noise
    → feed_all p (noise ++ rest)
      ≡ ((feed_all p rest).0, replicate (length noise) need_more_bytes ++ (feed_all p rest).1)
unfolding feed_all feed_in
feed_noise [] rest p s h = refl
feed_noise (b ∷ noise) rest p s h = ground (arith, feed_noise noise rest p)

-- Fed noise without a start byte and then the frame of a payload of at most 600 bytes, a parser that
-- waits for a frame asks for more until the frame's last byte, then reports it complete; it waits
-- again, with label, length and payload of that frame, one more frame counted and no reset.
pub frame_behind_noise :
    (p : DmxInputParser) (noise : Bytes) (label : ℕ) (payload : Bytes)
    → p.state ≡ wait_start
    → length p.payload_buf ≡ payload_buf_size
    → All (λ b. b ≢ start_byte) noise
    → length payload ≤ payload_buf_size
    → let r = feed_all p (noise ++ enttec_frame label payload) in
      (r.1
        ≡ replicate (length noise) need_more_bytes
          ++ (replicate 4 need_more_bytes
              ++ (replicate (length payload) need_more_bytes ++ frame_complete ∷ [])))
      × (r.0.state ≡ wait_start)
      × (r.0.last_label ≡ label)
      × (r.0.last_payload_len ≡ length payload)
      × (take (length payload) r.0.payload_buf ≡ payload)
      × (r.0.frame_count ≡ bump p.frame_count)
      × (r.0.reset_count ≡ p.reset_count)
      × (r.0.oversize_count ≡ p.oversize_count)
frame_behind_noise p noise label payload s size quiet fits =
    rw (feed_noise noise (enttec_frame label payload) p s quiet, feed_frame p label payload s fits)
      (
        refl,
        refl,
        refl,
        refl,
        take-splice payload p.payload_buf 0 (length payload) (omega arith) (omega arith),
        refl,
        refl,
        refl,
      )
