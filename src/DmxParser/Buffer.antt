-- ===== src/DmxParser/Buffer.antt =====
-- dmx_input_parser.cpp: the bounds of the payload buffer.
use nocturnation_stickc.Prelude.{
  length, length-replicate, length-set, ℕ, ◌≤◌, ◌<◌, ◌≡◌, ◌≢◌, ◌⊎◌, inl, arith, All, refl, [], ◌∷◌,
}
use nocturnation_stickc.Frame.Types.{IsByte, Bytes}
use nocturnation_stickc.DmxParser.{
  State, DmxInputParser, payload_buf_size, initial, feed_in, feed_all, read_data, feed_byte,
}

-- The payload buffer keeps its size; a frame's length fits it; and a byte of data is awaited at an
-- index below that length.
pub record IsSound (p : DmxInputParser) : Type 0 where
  pub buf_size : length p.payload_buf ≡ payload_buf_size
  pub len_fits : p.current_len ≤ payload_buf_size
  pub index_fits : (p.state ≢ read_data) ⊎ (p.data_read < p.current_len)
  pub last_fits : p.last_payload_len ≤ payload_buf_size

pub initial-IsSound : IsSound initial
initial-IsSound = record {
  buf_size = length-replicate {A = ℕ} payload_buf_size 0;
  len_fits = omega arith;
  index_fits = inl (λ e. cc);
  last_fits = omega arith;
}

feed_in-IsSound :
    (s : State) (p : DmxInputParser) (b : ℕ)
    → p.state ≡ s
    → IsByte b
    → IsSound p
    → IsSound (feed_in s p b).0
unfolding feed_in
feed_in-IsSound read_data p b e h v = ground (arith, length-set p.payload_buf p.data_read b)
feed_in-IsSound _ p b e h v = ground arith

-- Every byte keeps the parser sound.
feed_all-IsSound :
    (bs : Bytes) (p : DmxInputParser) → All IsByte bs → IsSound p → IsSound (feed_all p bs).0
unfolding feed_all
feed_all-IsSound [] p h v = v
feed_all-IsSound (b ∷ bs) p h v =
    feed_all-IsSound bs (feed_byte p b).0 h.1 (feed_in-IsSound p.state p b refl h.0 v)

-- Whatever bytes arrive, a byte of data is stored below the announced length, which is at most 600,
-- the size that the payload buffer keeps; the last frame's length is at most 600 too.
pub feed_all-initial-IsSound : (bs : Bytes) → All IsByte bs → IsSound (feed_all initial bs).0
feed_all-initial-IsSound bs h = feed_all-IsSound bs initial h initial-IsSound
