-- ===== src/ConfigChannel/Receiving.antt =====
-- config_rx.cpp: what must hold of a frame that is accepted.
-- What the receiver has checked of a frame before it walks the bag.
use nocturnation_stickc.Numonce.Guard.{accepts_iff}
use nocturnation_stickc.Hmac.{hmac_sha256_verify_t8}
use nocturnation_stickc.ConfigChannel.{
  process_config_write, empty_header, accepted, empty_config_write, read_u64_le, ConfigRxResult,
  ConfigRxDetail, decode_ok, refused, apply_bag, malformed_frame, counting_cb, walk_ok,
  malformed_bag, bad_target, replay, bad_hmac,
}
use nocturnation_stickc.Frame.Wire.{decode_header}
use nocturnation_stickc.Prelude.{
  length, take, drop, ℕ, ◌-◌, ◌<◌, ◌≡◌, Bool, true, ltb, ◌!=◌, if◌then◌else◌, refl, ap, ◌≢◌, false,
  not, arith,
}
use nocturnation_stickc.Frame.Types.{
  Bytes, Header, DecodeResult, header_size, same_type, config_write,
}
use nocturnation_stickc.Frame.Config.{
  ConfigWritePayload, decode_config_write, config_write_hmac_len,
}
use nocturnation_stickc.Tlv.{TlvEntry, decode_property_bag}
use nocturnation_stickc.Numonce.{NumonceLru, last_seen_for, check_and_update}

pub record IsAuthentic (frame : Bytes) (self_uid : ℕ) (secret : Bytes) (numonces : NumonceLru)
    (numonce : ℕ) : Type 0 where
  pub hdr : Header
  pub cw : ConfigWritePayload
  pub frame_read : decode_header frame (length frame) empty_header ≡ (DecodeResult.ok, hdr)
  pub payload_read :
      decode_config_write hdr (drop header_size frame) hdr.payload_len empty_config_write
      ≡ (DecodeResult.ok, cw)
  pub own_target : cw.target_uid ≡ self_uid
  pub same_numonce : read_u64_le cw.numonce ≡ numonce
  pub fresh : last_seen_for numonces hdr.source_id < numonce
  pub signed :
      hmac_sha256_verify_t8 secret (take (length frame - config_write_hmac_len) frame) cw.hmac
      ≡ true

decode_ok_sound : (v : DecodeResult) → not (decode_ok v) ≡ false → v ≡ DecodeResult.ok
decode_ok_sound DecodeResult.ok h = refl
decode_ok_sound v h = ground arith

module _ {S : Type 0} (apply_fn : TlvEntry → S → Bool × S) (frame : Bytes) (self_uid : ℕ)
    (secret : Bytes) (numonces : NumonceLru) where
  -- What acceptance says of an outcome of the receiver.
  abbrev Claims : ConfigRxDetail × NumonceLru × S → Type 0
  Claims r = r.0.result ≡ accepted → IsAuthentic frame self_uid secret numonces r.0.numonce

  -- A check of the receiver: it refuses, or goes on with the check's test known to fail.
  checked :
      (test : Bool) (v : ConfigRxResult) (l : NumonceLru) (ctx : S)
      (r : ConfigRxDetail × NumonceLru × S)
      → v ≢ accepted
      → (test ≡ false → Claims r)
      → Claims (if test then (refused v, l, ctx) else r)
  checked true v l ctx r ne k e = absurd (ne e)
  checked false v l ctx r ne k e = k refl e

  apply_bag-Claims :
      (l : NumonceLru) (n : ℕ) (cw : ConfigWritePayload) (ctx : S)
      → IsAuthentic frame self_uid secret numonces n
      → Claims (apply_bag apply_fn l n cw ctx)
  unfolding apply_bag
  apply_bag-Claims l n cw ctx a =
      let err = (decode_property_bag (counting_cb apply_fn) cw.bag_tlv cw.bag_len (ctx, 0)).0 in
      checked (not (walk_ok err)) malformed_bag _ _ _ (λ e. ground arith) λ h e. a

  -- A frame that is accepted is a CONFIG_WRITE for this Lume, with the numonce that is reported,
  -- greater than any on record for its sender, and a MAC under this Lume's secret over all but the
  -- frame's last eight bytes.
  pub accepted-IsAuthentic :
      (ctx : S)
      → (process_config_write apply_fn frame self_uid secret numonces ctx).0.result ≡ accepted
      → IsAuthentic frame self_uid secret numonces
          (process_config_write apply_fn frame self_uid secret numonces ctx).0.numonce
  unfolding process_config_write
  accepted-IsAuthentic ctx =
      let head = decode_header frame (length frame) empty_header in
      let body =
        decode_config_write head.1 (drop header_size frame) head.1.payload_len empty_config_write in
      let n = read_u64_le body.1.numonce in
      let signed_len = length frame - config_write_hmac_len in
      checked (not (decode_ok head.0)) malformed_frame _ _ _ (λ e. ground arith)
        λ h1.
          checked (not (same_type head.1.message_type config_write)) malformed_frame _ _ _
            (λ e. ground arith)
            λ h2.
              checked (not (decode_ok body.0)) malformed_frame _ _ _ (λ e. ground arith)
                λ h3.
                  checked (body.1.target_uid != self_uid) bad_target _ _ _ (λ e. ground arith)
                    λ h4.
                      checked (not (check_and_update numonces head.1.source_id n).1) replay _ _ _
                        (λ e. ground arith)
                        λ h5.
                          checked (ltb (length frame) config_write_hmac_len) bad_hmac _ _ _
                            (λ e. ground arith)
                            λ h6.
                              checked
                                (not (
                                  hmac_sha256_verify_t8 secret (take signed_len frame) body.1.hmac))
                                bad_hmac _ _ _ (λ e. ground arith)
                                λ h7. apply_bag-Claims _ n body.1 ctx (record {
                                  hdr = head.1;
                                  cw = body.1;
                                  frame_read = ap (λ v. (v, head.1)) (decode_ok_sound head.0 h1);
                                  payload_read = ap (λ v. (v, body.1)) (decode_ok_sound body.0 h3);
                                  own_target = ground (arith, h4);
                                  same_numonce = refl;
                                  fresh =
                                      (accepts_iff numonces head.1.source_id n).0
                                        (ground (arith, h5));
                                  signed = ground (arith, h7);
                                })
