-- ===== src/Frame/Types.antt =====
-- frame.h: constants, message types, the header and the verdicts of the decoders.
use nocturnation_stickc.Prelude.{
  ℕ, ◌-◌, ◌<◌, ◌^◌, Bool, ◌&&◌, List, Option, none, some, leb, ◌==◌, if◌then◌else◌,
}

abbrev pub Bytes : Type 0
Bytes = List ℕ

abbrev pub IsByte : ℕ → Type 0
IsByte x = x < 2 ^ 8

abbrev pub IsWord : ℕ → Type 0
IsWord x = x < 2 ^ 16

abbrev pub IsDword : ℕ → Type 0
IsDword x = x < 2 ^ 32

abbrev pub magic0 : ℕ
magic0 = 0x4E

abbrev pub magic1 : ℕ
magic1 = 0x4E

abbrev pub protocol_version : ℕ
protocol_version = 0x04

abbrev pub broadcast_source_id : ℕ
broadcast_source_id = 0xFFFF

abbrev pub source_id_community_max : ℕ
source_id_community_max = 0x003F

abbrev pub source_id_performance_min : ℕ
source_id_performance_min = 0x0040

abbrev pub source_id_performance_max : ℕ
source_id_performance_max = 0x00FE

unfoldable pub is_community_range : ℕ → Bool
is_community_range source_id = leb source_id source_id_community_max

unfoldable pub is_performance_range : ℕ → Bool
is_performance_range source_id =
    leb source_id_performance_min source_id && leb source_id source_id_performance_max

abbrev pub header_size : ℕ
header_size = 9

abbrev pub hop_count_offset : ℕ
hop_count_offset = 6

abbrev pub max_frame_size : ℕ
max_frame_size = 250

abbrev pub max_payload_size : ℕ
max_payload_size = max_frame_size - header_size

pub data MessageType : Type 0 where
  heartbeat light_pulse light_wash light_wash_end light_wash_pulse text_display : MessageType
  bitmap_header bitmap_plane clear_screen repeater_heartbeat uid_announce : MessageType
  config_write config_ack extension : MessageType

-- static_cast<uint8_t>(t)
abbrev pub to_byte : MessageType → ℕ
to_byte heartbeat = 0x00
to_byte light_pulse = 0x03
to_byte light_wash = 0x06
to_byte light_wash_end = 0x07
to_byte light_wash_pulse = 0x08
to_byte text_display = 0x09
to_byte bitmap_header = 0x0A
to_byte bitmap_plane = 0x0B
to_byte clear_screen = 0x0C
to_byte repeater_heartbeat = 0x0D
to_byte uid_announce = 0x0E
to_byte config_write = 0x0F
to_byte config_ack = 0x10
to_byte extension = 0xFF

-- The switch of `is_known_message_type`, with the enumerator that the byte casts to.
unfoldable pub known_message_type : ℕ → Option MessageType
known_message_type raw =
    if raw == 0x00
    then some heartbeat
    else if raw == 0x03
    then some light_pulse
    else if raw == 0x06
    then some light_wash
    else if raw == 0x07
    then some light_wash_end
    else if raw == 0x08
    then some light_wash_pulse
    else if raw == 0x09
    then some text_display
    else if raw == 0x0A
    then some bitmap_header
    else if raw == 0x0B
    then some bitmap_plane
    else if raw == 0x0C
    then some clear_screen
    else if raw == 0x0D
    then some repeater_heartbeat
    else if raw == 0x0E
    then some uid_announce
    else if raw == 0x0F
    then some config_write
    else if raw == 0x10
    then some config_ack
    else if raw == 0xFF
    then some extension
    else none

-- `a == b` on the enum class.
abbrev pub same_type : MessageType → MessageType → Bool
same_type a b = to_byte a == to_byte b

pub record Header : Type 0 where
  pub version : ℕ
  pub source_id : ℕ
  pub sequence_number : ℕ
  pub hop_count : ℕ
  pub message_type : MessageType
  pub payload_len : ℕ

-- The ranges of the field types that an encoder serialises.
pub record IsHeader (h : Header) : Type 0 where
  pub source_id_word : IsWord h.source_id
  pub sequence_number_byte : IsByte h.sequence_number
  pub hop_count_byte : IsByte h.hop_count

pub data DecodeResult : Type 0 where
  ok buffer_too_short invalid_magic invalid_protocol_version : DecodeResult
  invalid_message_type payload_len_mismatch : DecodeResult
