-- ===== src/DmxParser.antt =====
-- src/dal/drivers/dmx_input_parser.cpp and dmx_input_parser.h: the state machine that finds Enttec Pro
-- frames in a byte stream. A method takes the parser and returns it as the method leaves it.
pub mod Buffer
pub mod Framing
pub mod Channels
use nocturnation_stickc.Prelude.{
  ltb, leb, ◌==◌, if◌then◌else◌, length, get_or, set, drop, replicate, memcpy, ℕ, ◌+◌, ◌-◌, ◌*◌,
  ◌%◌, ◌^◌, min, Bool, not, ◌&&◌, ◌||◌, List, [], ◌∷◌,
}
use nocturnation_stickc.Frame.Types.{Bytes}

abbrev pub start_byte : ℕ
start_byte = 0x7E

abbrev pub end_byte : ℕ
end_byte = 0xE7

abbrev pub label_output_only_send_dmx : ℕ
label_output_only_send_dmx = 0x06

abbrev pub payload_buf_size : ℕ
payload_buf_size = 600

pub data DmxParseResult : Type 0 where
  need_more_bytes frame_complete reset_result : DmxParseResult

pub data State : Type 0 where
  wait_start read_label read_len_lo read_len_hi read_data read_end : State

-- The private members of the class.
pub record DmxInputParser : Type 0 where
  pub state : State
  pub current_label : ℕ
  pub current_len : ℕ
  pub data_read : ℕ
  pub last_label : ℕ
  pub last_payload_len : ℕ
  pub payload_buf : Bytes
  pub frame_count : ℕ
  pub reset_count : ℕ
  pub oversize_count : ℕ

-- The in-class initialisers.
abbrev pub initial : DmxInputParser
initial = record {
  state = wait_start;
  current_label = 0;
  current_len = 0;
  data_read = 0;
  last_label = 0;
  last_payload_len = 0;
  payload_buf = replicate payload_buf_size 0;
  frame_count = 0;
  reset_count = 0;
  oversize_count = 0;
}

-- ++counter on a uint32_t.
abbrev pub bump : ℕ → ℕ
bump n = (n + 1) % 2 ^ 32

unfoldable pub reset : DmxInputParser → DmxInputParser
reset p = record p { state = wait_start; current_label = 0; current_len = 0; data_read = 0 }

unfoldable pub reset_counters : DmxInputParser → DmxInputParser
reset_counters p = record p { frame_count = 0; reset_count = 0; oversize_count = 0 }

unfoldable pub reset_to_wait_start : DmxInputParser → ℕ → DmxInputParser × DmxParseResult
reset_to_wait_start p rejecting_byte = (
  record p {
    reset_count = bump p.reset_count;
    state = if rejecting_byte == start_byte then read_label else wait_start;
    current_label = 0;
    current_len = 0;
    data_read = 0;
  },
  reset_result,
)

-- The case ReadLenHi, with the length that the two bytes make.
unfoldable pub take_len : DmxInputParser → ℕ → DmxInputParser × DmxParseResult
unfolding reset_to_wait_start
take_len p len =
    if ltb payload_buf_size len
    then reset_to_wait_start
        (record p { current_len = len; oversize_count = bump p.oversize_count }) 0
    else (
      record p {
        current_len = len;
        data_read = 0;
        state = if len == 0 then read_end else read_data;
      },
      need_more_bytes,
    )

-- The switch of `feed_byte`. The low byte is there alone when the high one joins it by `|`.
unfoldable pub feed_in : State → DmxInputParser → ℕ → DmxInputParser × DmxParseResult
unfolding take_len reset_to_wait_start
feed_in wait_start p b =
    (if b == start_byte then record p { state = read_label } else p, need_more_bytes)
feed_in read_label p b = (record p { current_label = b; state = read_len_lo }, need_more_bytes)
feed_in read_len_lo p b = (record p { current_len = b; state = read_len_hi }, need_more_bytes)
feed_in read_len_hi p b = take_len p (p.current_len + b * 2 ^ 8)
feed_in read_data p b = (
  record p {
    payload_buf = set p.payload_buf p.data_read b;
    data_read = p.data_read + 1;
    state = if leb p.current_len (p.data_read + 1) then read_end else p.state;
  },
  need_more_bytes,
)
feed_in read_end p b =
    if b == end_byte
    then (
      record p {
        last_label = p.current_label;
        last_payload_len = p.current_len;
        frame_count = bump p.frame_count;
        state = wait_start;
        current_label = 0;
        current_len = 0;
        data_read = 0;
      },
      frame_complete,
    )
    else reset_to_wait_start p b

abbrev pub feed_byte : DmxInputParser → ℕ → DmxInputParser × DmxParseResult
feed_byte p b = feed_in p.state p b

-- A run of calls of `feed_byte`, with what each returned.
unfoldable pub feed_all : DmxInputParser → Bytes → DmxInputParser × List DmxParseResult
feed_all p [] = (p, [])
feed_all p (b ∷ bs) = let (q, r) = feed_byte p b in let (s, rs) = feed_all q bs in (s, r ∷ rs)

unfoldable pub last_was_dmx_packet : DmxInputParser → Bool
last_was_dmx_packet p =
    p.last_label == label_output_only_send_dmx
    && leb 1 p.last_payload_len
    && get_or p.payload_buf 0 0 == 0x00

-- `out` is no null pointer here, and its length is `out_size`; the result is the count returned and
-- `out` as the loop leaves it.
unfoldable pub copy_dmx_channels : DmxInputParser → Bytes → ℕ × Bytes
copy_dmx_channels p out =
    let to_copy = min (p.last_payload_len - 1) (length out) in
    if not (last_was_dmx_packet p) || length out == 0
    then (0, out)
    else (to_copy, memcpy out (drop 1 p.payload_buf) to_copy)
