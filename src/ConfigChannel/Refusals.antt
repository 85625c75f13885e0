-- ===== src/ConfigChannel/Refusals.antt =====
-- ble/config_rx.cpp: a frame that fails a check leaves the receiver's settings alone.
use nocturnation_stickc.Hmac.{hmac_sha256_verify_t8}
use nocturnation_stickc.Frame.Wire.{decode_header}
use nocturnation_stickc.Prelude.{
  ltb, ◌!=◌, if◌then◌else◌, length, take, drop, ℕ, ◌-◌, ◌≡◌, refl, ◌≢◌, Bool, true, false, not,
}
use nocturnation_stickc.Frame.Types.{Bytes, header_size, same_type, config_write}
use nocturnation_stickc.Frame.Config.{
  ConfigWritePayload, decode_config_write, config_write_hmac_len,
}
use nocturnation_stickc.Tlv.{TlvEntry, decode_property_bag}
use nocturnation_stickc.Numonce.{NumonceLru, check_and_update}
use nocturnation_stickc.ConfigChannel.{
  ConfigRxResult, ConfigRxDetail, accepted, refused, apply_bag, process_config_write, malformed_bag,
  counting_cb, walk_ok, empty_header, empty_config_write, read_u64_le, decode_ok, malformed_frame,
  bad_target, replay, bad_hmac,
}

module _ {S : Type 0} (apply_fn : TlvEntry → S → Bool × S) (ctx : S) where
  -- The context is as it was, unless the bag was walked.
  abbrev IsUntouched : ConfigRxDetail × NumonceLru × S → Type 0
  IsUntouched r = r.0.result ≢ accepted → r.0.result ≢ malformed_bag → r.2 ≡ ctx

  both-IsUntouched :
      (b : Bool) (r1 r2 : ConfigRxDetail × NumonceLru × S)
      → IsUntouched r1
      → IsUntouched r2
      → IsUntouched (if b then r1 else r2)
  both-IsUntouched true r1 r2 p1 p2 = p1
  both-IsUntouched false r1 r2 p1 p2 = p2

  refused-IsUntouched : (v : ConfigRxResult) (l : NumonceLru) → IsUntouched (refused v, l, ctx)
  refused-IsUntouched v l not_accepted not_bag = refl

  apply_bag-IsUntouched :
      (l : NumonceLru) (n : ℕ) (cw : ConfigWritePayload)
      → IsUntouched (apply_bag apply_fn l n cw ctx)
  unfolding apply_bag
  apply_bag-IsUntouched l n cw =
      let err = (decode_property_bag (counting_cb apply_fn) cw.bag_tlv cw.bag_len (ctx, 0)).0 in
      both-IsUntouched (not (walk_ok err)) _ _ (λ a b. absurd (b refl)) (λ a b. absurd (a refl))

  -- Unless a frame is accepted, or its bag is the only thing wrong with it, the caller's context is
  -- untouched: none of the bag's entries has been applied.
  pub refusal_keeps :
      (frame : Bytes) (self_uid : ℕ) (secret : Bytes) (numonces : NumonceLru)
      → let r = process_config_write apply_fn frame self_uid secret numonces ctx in
        r.0.result ≢ accepted → r.0.result ≢ malformed_bag → r.2 ≡ ctx
  unfolding process_config_write
  refusal_keeps frame self_uid secret numonces =
      let head = decode_header frame (length frame) empty_header in
      let body =
        decode_config_write head.1 (drop header_size frame) head.1.payload_len empty_config_write in
      let n = read_u64_le body.1.numonce in
      let checked = check_and_update numonces head.1.source_id n in
      let signed_len = length frame - config_write_hmac_len in
      let fails = refused-IsUntouched in
      both-IsUntouched (not (decode_ok head.0)) _ _ (fails malformed_frame numonces) (
        both-IsUntouched (not (same_type head.1.message_type config_write)) _ _
          (fails malformed_frame numonces)
          (both-IsUntouched (not (decode_ok body.0)) _ _ (fails malformed_frame numonces) (
            both-IsUntouched (body.1.target_uid != self_uid) _ _ (fails bad_target numonces) (
              both-IsUntouched (not checked.1) _ _ (fails replay checked.0) (
                both-IsUntouched (ltb (length frame) config_write_hmac_len) _ _
                  (fails bad_hmac checked.0)
                  (both-IsUntouched
                    (not (hmac_sha256_verify_t8 secret (take signed_len frame) body.1.hmac)) _ _
                    (fails bad_hmac checked.0) (apply_bag-IsUntouched checked.0 n body.1)))))))
