-- ===== src/ConfigChannel/Delivery.antt =====
-- config_tx.cpp and config_rx.cpp: a signed frame at the Lume that it is for.
use nocturnation_stickc.Numonce.Guard.{accepts_iff}
use nocturnation_stickc.Frame.Config.RoundTrip.{written}
use nocturnation_stickc.Frame.Wire.Transfer.{sent}
use nocturnation_stickc.Frame.Config.{config_write_hmac_len}
use nocturnation_stickc.ConfigChannel.{
  process_config_write, build_signed_config_write, apply_bag, empty_header, empty_config_write,
  read_u64_le, write_u64_le,
}
use nocturnation_stickc.Hmac.{hmac_sha256_sign_t8, hmac_sha256_verify_t8}
use nocturnation_stickc.Prelude.{
  ◌!=◌, length, take, length-append, take-append, ℕ, ◌+◌, ◌-◌, ◌^◌, ◌<◌, ◌≡◌, refl, ap, ◌∙◌, Bool,
  true, false, ◌++◌, arith, ltb, le→ltb,
}
use nocturnation_stickc.Hmac.Verify.{length-sign, verify_t8_iff}
use nocturnation_stickc.ConfigChannel.Signing.{
  read_u64_le-write_u64_le, IsRequest, signed_frame-region, signed_frame-Delivers, signed_write,
}
use nocturnation_stickc.Frame.Types.{Bytes, IsWord}
use nocturnation_stickc.Tlv.{TlvEntry}
use nocturnation_stickc.Numonce.{NumonceLru, last_seen_for, check_and_update}

length-signed :
    (secret r frame : Bytes)
    → frame ≡ r ++ hmac_sha256_sign_t8 secret r
    → length frame ≡ length r + 8
length-signed secret r frame e =
    rw e (omega (arith, length-append r (hmac_sha256_sign_t8 secret r), length-sign secret r))

-- The receiver's signed region of `r` with its MAC behind it is `r`.
signed_verifies :
    (secret r frame : Bytes)
    → frame ≡ r ++ hmac_sha256_sign_t8 secret r
    → hmac_sha256_verify_t8 secret
        (take (length frame - config_write_hmac_len) frame)
        (hmac_sha256_sign_t8 secret r)
      ≡ true
signed_verifies secret r frame e =
    let mac = hmac_sha256_sign_t8 secret r in
    let size = length-signed secret r frame e in
    let cut : take (length frame - 8) (r ++ mac) ≡ r =
      take-append (length frame - 8) r mac (omega arith) in
    let region : take (length frame - 8) frame ≡ r = ap (take (length frame - 8)) e ∙ cut in
    rw region ((verify_t8_iff secret r mac (length-sign secret r)).1 refl)

-- A frame signed for a Lume with its secret, with a numonce above any that the Lume has on record for
-- the sender, passes every check: the numonce is put on record, and the Lume walks the bag that was
-- sent, padded with zeros.
pub signed_write-applied :
    {S : Type 0} (apply_fn : TlvEntry → S → Bool × S) (out_buf : Bytes) (src target_uid : ℕ)
    (secret bag_tlv : Bytes) (bag_len numonce : ℕ)
    (q : IsRequest out_buf target_uid bag_tlv bag_len) (numonces : NumonceLru) (ctx : S)
    → IsWord src
    → numonce < 2 ^ 64
    → last_seen_for numonces src < numonce
    → process_config_write apply_fn
        (sent (build_signed_config_write out_buf src target_uid secret bag_tlv bag_len numonce))
        target_uid
        secret
        numonces
        ctx
      ≡ apply_bag apply_fn
          (check_and_update numonces src numonce).0
          numonce
          (written (signed_write out_buf src target_uid secret bag_tlv bag_len numonce q))
          ctx
unfolding process_config_write
signed_write-applied apply_fn out_buf src target_uid secret bag_tlv bag_len numonce q numonces ctx
      word small above =
    let frame =
      sent (build_signed_config_write out_buf src target_uid secret bag_tlv bag_len numonce) in
    let (head, body) =
      signed_frame-Delivers out_buf src target_uid secret bag_tlv bag_len numonce q empty_header
        empty_config_write word in
    let region = signed_frame-region out_buf src target_uid secret bag_tlv bag_len numonce q in
    let same : read_u64_le (write_u64_le 8 numonce) ≡ numonce =
      read_u64_le-write_u64_le numonce small in
    let fresh = (accepts_iff numonces src numonce).1 above in
    let mine : (target_uid != target_uid) ≡ false = ground arith in
    let verified = signed_verifies secret _ frame region in
    let size = length-signed secret _ frame region in
    let long : ltb (length frame) 8 ≡ false = le→ltb (length frame) 8 (omega (arith, size)) in
    rw (head, body, mine, same, fresh, long, verified)
