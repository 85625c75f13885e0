-- ===== src/ConfigChannel.antt =====
-- src/ble/config_tx.cpp (build_signed_config_write) and src/ble/config_rx.cpp: a signed CONFIG_WRITE
-- frame from the Director that builds it to the Lume that checks and applies it. `frame_len` is the
-- length of the list `frame`; `apply_fn` is no null pointer, nor are the buffer and the bag.
pub mod Signing
pub mod Receiving
pub mod Delivery
pub mod Refusals
use nocturnation_stickc.Hmac.{hmac_sha256_sign_t8, hmac_sha256_verify_t8}
use nocturnation_stickc.Frame.Wire.{decode_header}
use nocturnation_stickc.Prelude.{
  ltb, ◌==◌, ◌!=◌, if◌then◌else◌, length, take, drop, replicate, memcpy, ℕ, zero, suc, ◌+◌, ◌-◌,
  ◌*◌, ◌/◌, ◌%◌, ◌^◌, Bool, true, false, not, [], ◌∷◌,
}
use nocturnation_stickc.Frame.Types.{
  Bytes, Header, DecodeResult, heartbeat, header_size, same_type, config_write,
}
use nocturnation_stickc.Frame.Config.{
  ConfigWritePayload, numonce_len, config_write_max_bag_len, encode_config_write,
  config_write_hmac_len, decode_config_write,
}
use nocturnation_stickc.Tlv.{DecodeError, TlvEntry, decode_property_bag, store_at}
use nocturnation_stickc.Numonce.{NumonceLru, check_and_update}

-- A value-initialised Header and ConfigWritePayload.
abbrev pub empty_header : Header
empty_header = record {
  version = 0;
  source_id = 0;
  sequence_number = 0;
  hop_count = 0;
  message_type = heartbeat;
  payload_len = 0;
}

abbrev pub empty_config_write : ConfigWritePayload
empty_config_write = record {
  target_uid = 0;
  numonce = replicate numonce_len 0;
  bag_len = 0;
  bag_tlv = replicate config_write_max_bag_len 0;
  hmac = replicate config_write_hmac_len 0;
}

-- The loop that stores `n` bytes of a numonce, lowest first.
unfoldable pub write_u64_le : ℕ → ℕ → Bytes
write_u64_le zero v = []
write_u64_le (suc n) v = (v % 2 ^ 8) ∷ write_u64_le n (v / 2 ^ 8)

-- read_u64_le over all of `src`, which is eight bytes.
unfoldable pub read_u64_le : Bytes → ℕ
read_u64_le [] = 0
read_u64_le (b ∷ bs) = read_u64_le bs * 2 ^ 8 + b

-- The payload with the HMAC still zero.
abbrev pub unsigned_write : ℕ → Bytes → ℕ → ℕ → ConfigWritePayload
unsigned_write target_uid bag_tlv bag_len numonce = record {
  target_uid = target_uid;
  numonce = write_u64_le 8 numonce;
  bag_len = bag_len;
  bag_tlv = memcpy (replicate config_write_max_bag_len 0) bag_tlv bag_len;
  hmac = replicate config_write_hmac_len 0;
}

abbrev pub sender_header : ℕ → Header
sender_header self_source_id = record empty_header {
  source_id = self_source_id;
  sequence_number = 1;
  hop_count = 0;
}

unfoldable pub build_signed_config_write : Bytes → ℕ → ℕ → Bytes → Bytes → ℕ → ℕ → ℕ × Bytes
build_signed_config_write out_buf self_source_id target_uid target_secret bag_tlv bag_len numonce =
    let p = unsigned_write target_uid bag_tlv bag_len numonce in
    let (total, written) = encode_config_write out_buf (sender_header self_source_id) p in
    let signed_len = total - config_write_hmac_len in
    let mac = hmac_sha256_sign_t8 target_secret (take signed_len written) in
    if length out_buf == 0
    then (0, out_buf)
    else if ltb config_write_max_bag_len bag_len
    then (0, out_buf)
    else if total == 0
    then (0, written)
    else (total, store_at written signed_len mac)

pub data ConfigRxResult : Type 0 where
  accepted bad_target replay bad_hmac malformed_frame malformed_bag : ConfigRxResult

pub record ConfigRxDetail : Type 0 where
  pub result : ConfigRxResult
  pub numonce : ℕ
  pub applied_keys : ℕ
  pub config_write_status : ℕ

-- `detail` with a verdict and its other fields zero.
abbrev pub refused : ConfigRxResult → ConfigRxDetail
refused r = record { result = r; numonce = 0; applied_keys = 0; config_write_status = 0x00 }

-- `err == DecodeError::Ok`.
abbrev pub walk_ok : DecodeError → Bool
walk_ok DecodeError.ok = true
walk_ok _ = false

-- `decode(...) == DecodeResult::Ok`.
abbrev pub decode_ok : DecodeResult → Bool
decode_ok DecodeResult.ok = true
decode_ok _ = false

module _ {S : Type 0} (apply_fn : TlvEntry → S → Bool × S) where
  -- `counting_cb`: the caller's context with the count of entries, which stops at 255.
  abbrev pub counting_cb : TlvEntry → S × ℕ → Bool × (S × ℕ)
  counting_cb e (ctx, walked) =
      let (go_on, ctx') = apply_fn e ctx in
      (go_on, (ctx', if ltb walked 0xFF then walked + 1 else walked))

  -- Steps 4 and 5: the bag is walked.
  unfoldable pub apply_bag :
      NumonceLru → ℕ → ConfigWritePayload → S → ConfigRxDetail × NumonceLru × S
  apply_bag numonces incoming cw ctx =
      let (err, (ctx', walked)) = decode_property_bag counting_cb cw.bag_tlv cw.bag_len (ctx, 0) in
      if not (walk_ok err) then (refused malformed_bag, numonces, ctx') else (
        record {
          result = accepted;
          numonce = incoming;
          applied_keys = walked;
          config_write_status = 0x00;
        },
        numonces,
        ctx',
      )

  unfoldable pub process_config_write :
      Bytes → ℕ → Bytes → NumonceLru → S → ConfigRxDetail × NumonceLru × S
  process_config_write frame self_uid self_secret numonces ctx =
      let (head_verdict, hdr) = decode_header frame (length frame) empty_header in
      let (verdict, cw) =
        decode_config_write hdr (drop header_size frame) hdr.payload_len empty_config_write in
      let incoming = read_u64_le cw.numonce in
      let (numonces', fresh) = check_and_update numonces hdr.source_id incoming in
      let signed_len = length frame - config_write_hmac_len in
      if not (decode_ok head_verdict)
      then (refused malformed_frame, numonces, ctx)
      else if not (same_type hdr.message_type config_write)
      then (refused malformed_frame, numonces, ctx)
      else if not (decode_ok verdict)
      then (refused malformed_frame, numonces, ctx)
      else if cw.target_uid != self_uid
      then (refused bad_target, numonces, ctx)
      else if not fresh
      then (refused replay, numonces', ctx)
      else if ltb (length frame) config_write_hmac_len
      then (refused bad_hmac, numonces', ctx)
      else if not (hmac_sha256_verify_t8 self_secret (take signed_len frame) cw.hmac)
      then (refused bad_hmac, numonces', ctx)
      else apply_bag numonces' incoming cw ctx
