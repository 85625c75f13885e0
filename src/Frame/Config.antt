-- ===== src/Frame/Config.antt =====
-- frame.h and frame.cpp: the authenticated config channel, UID_ANNOUNCE, CONFIG_WRITE and
-- CONFIG_ACK. A fixed array of the C++ is a list of that length.
pub mod RoundTrip
use nocturnation_stickc.Prelude.{
  ℕ, ◌+◌, ◌≡◌, ◌%◌, ◌^◌, ◌||◌, not, [], ◌∷◌, ◌++◌, length, take, drop, slice, memcpy, replicate,
  store, ltb, ◌!=◌, if◌then◌else◌,
}
use nocturnation_stickc.Frame.Types.{
  Bytes, IsDword, header_size, uid_announce, config_write, config_ack, same_type, Header,
  DecodeResult, ok, invalid_message_type, payload_len_mismatch,
}
use nocturnation_stickc.Frame.Wire.{byte, write_u32_le, read_u32_le, write_header}

abbrev pub uid_announce_max_friendly_name_len : ℕ
uid_announce_max_friendly_name_len = 20

abbrev pub uid_announce_fixed_prefix_len : ℕ
uid_announce_fixed_prefix_len = 23

abbrev pub uid_announce_max_payload_len : ℕ
uid_announce_max_payload_len = uid_announce_fixed_prefix_len + uid_announce_max_friendly_name_len

abbrev pub secret_len : ℕ
secret_len = 16

-- UidAnnouncePayload
pub record UidAnnouncePayload : Type 0 where
  pub uid : ℕ
  pub secret : Bytes
  pub role : ℕ
  pub host : ℕ
  pub friendly_name_len : ℕ
  pub friendly_name : Bytes

-- The ranges of the field types and the sizes of the arrays.
pub record IsUidAnnounce (p : UidAnnouncePayload) : Type 0 where
  pub uid_range : IsDword p.uid
  pub secret_size : length p.secret ≡ secret_len
  pub friendly_name_size : length p.friendly_name ≡ uid_announce_max_friendly_name_len

-- `(len > most) ? most : len`
abbrev pub clamp : ℕ → ℕ → ℕ
clamp most len = if ltb most len then most else len

unfoldable pub encode_uid_announce : Bytes → Header → UidAnnouncePayload → ℕ × Bytes
encode_uid_announce buf hdr p =
    let fn_len = clamp uid_announce_max_friendly_name_len p.friendly_name_len in
    let payload_len = (uid_announce_fixed_prefix_len + fn_len) % 2 ^ 8 in
    let total = header_size + payload_len in
    if ltb (length buf) total then (0, buf) else (
      total,
      store buf (
          write_header hdr uid_announce payload_len
          ++ (write_u32_le p.uid
              ++ (take secret_len p.secret
                  ++ (p.role ∷ p.host ∷ fn_len ∷ take fn_len p.friendly_name)))),
    )

unfoldable pub decode_uid_announce :
    Header → Bytes → ℕ → UidAnnouncePayload → DecodeResult × UidAnnouncePayload
decode_uid_announce hdr payload payload_len out =
    let fn_len = byte payload 22 in
    if not (same_type hdr.message_type uid_announce)
    then (invalid_message_type, out)
    else if hdr.payload_len != payload_len
    then (payload_len_mismatch, out)
    else if ltb payload_len uid_announce_fixed_prefix_len
        || ltb uid_announce_max_payload_len payload_len
    then (payload_len_mismatch, out)
    else if ltb uid_announce_max_friendly_name_len fn_len
    then (payload_len_mismatch, out)
    else if payload_len != uid_announce_fixed_prefix_len + fn_len
    then (payload_len_mismatch, out)
    else (
      ok,
      record {
        uid = read_u32_le payload 0;
        secret = slice payload 4 secret_len;
        role = byte payload 20;
        host = byte payload 21;
        friendly_name_len = fn_len;
        friendly_name =
            memcpy (replicate uid_announce_max_friendly_name_len 0) (drop 23 payload) fn_len;
      },
    )

abbrev pub config_write_hmac_len : ℕ
config_write_hmac_len = 8

abbrev pub config_write_max_bag_len : ℕ
config_write_max_bag_len = 220

abbrev pub config_write_fixed_overhead : ℕ
config_write_fixed_overhead = 4 + 8 + 1 + config_write_hmac_len

abbrev pub config_write_max_payload_len : ℕ
config_write_max_payload_len = config_write_fixed_overhead + config_write_max_bag_len

abbrev pub numonce_len : ℕ
numonce_len = 8

-- ConfigWritePayload
pub record ConfigWritePayload : Type 0 where
  pub target_uid : ℕ
  pub numonce : Bytes
  pub bag_len : ℕ
  pub bag_tlv : Bytes
  pub hmac : Bytes

-- The ranges of the field types and the sizes of the arrays.
pub record IsConfigWrite (p : ConfigWritePayload) : Type 0 where
  pub target_uid_range : IsDword p.target_uid
  pub numonce_size : length p.numonce ≡ numonce_len
  pub bag_tlv_size : length p.bag_tlv ≡ config_write_max_bag_len
  pub hmac_size : length p.hmac ≡ config_write_hmac_len

unfoldable pub encode_config_write : Bytes → Header → ConfigWritePayload → ℕ × Bytes
encode_config_write buf hdr p =
    let bag_len = clamp config_write_max_bag_len p.bag_len in
    let payload_len = (config_write_fixed_overhead + bag_len) % 2 ^ 16 in
    let total = header_size + payload_len in
    if ltb (length buf) total then (0, buf) else (
      total,
      store buf (
          write_header hdr config_write (payload_len % 2 ^ 8)
          ++ (write_u32_le p.target_uid
              ++ (take numonce_len p.numonce
                  ++ (bag_len ∷ (take bag_len p.bag_tlv ++ take config_write_hmac_len p.hmac))))),
    )

unfoldable pub decode_config_write :
    Header → Bytes → ℕ → ConfigWritePayload → DecodeResult × ConfigWritePayload
decode_config_write hdr payload payload_len out =
    let bag_len = byte payload 12 in
    if not (same_type hdr.message_type config_write)
    then (invalid_message_type, out)
    else if hdr.payload_len != payload_len
    then (payload_len_mismatch, out)
    else if ltb payload_len config_write_fixed_overhead
        || ltb config_write_max_payload_len payload_len
    then (payload_len_mismatch, out)
    else if ltb config_write_max_bag_len bag_len
    then (payload_len_mismatch, out)
    else if payload_len != config_write_fixed_overhead + bag_len
    then (payload_len_mismatch, out)
    else (
      ok,
      record {
        target_uid = read_u32_le payload 0;
        numonce = slice payload 4 numonce_len;
        bag_len = bag_len;
        bag_tlv = memcpy (replicate config_write_max_bag_len 0) (drop 13 payload) bag_len;
        hmac = slice payload (13 + bag_len) config_write_hmac_len;
      },
    )

abbrev pub config_ack_payload_len : ℕ
config_ack_payload_len = 14

-- ConfigAckPayload
pub record ConfigAckPayload : Type 0 where
  pub responder_uid : ℕ
  pub responder_numonce : Bytes
  pub status : ℕ
  pub applied_keys : ℕ

-- The ranges of the field types and the size of the array.
pub record IsConfigAck (p : ConfigAckPayload) : Type 0 where
  pub responder_uid_range : IsDword p.responder_uid
  pub responder_numonce_size : length p.responder_numonce ≡ numonce_len

unfoldable pub encode_config_ack : Bytes → Header → ConfigAckPayload → ℕ × Bytes
encode_config_ack buf hdr p =
    let total = header_size + config_ack_payload_len in
    if ltb (length buf) total then (0, buf) else (
      total,
      store buf (
          write_header hdr config_ack config_ack_payload_len
          ++ (write_u32_le p.responder_uid
              ++ (take numonce_len p.responder_numonce ++ (p.status ∷ p.applied_keys ∷ [])))),
    )

unfoldable pub decode_config_ack :
    Header → Bytes → ℕ → ConfigAckPayload → DecodeResult × ConfigAckPayload
decode_config_ack hdr payload payload_len out =
    if not (same_type hdr.message_type config_ack)
    then (invalid_message_type, out)
    else if hdr.payload_len != config_ack_payload_len || payload_len != config_ack_payload_len
    then (payload_len_mismatch, out)
    else (
      ok,
      record {
        responder_uid = read_u32_le payload 0;
        responder_numonce = slice payload 4 numonce_len;
        status = byte payload 12;
        applied_keys = byte payload 13;
      },
    )
