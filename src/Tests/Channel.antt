-- ===== src/Tests/Channel.antt =====
-- SHA-256 on its standard example, MACs, and a signed configuration frame.
use nocturnation_stickc.Frame.Config.RoundTrip.{written}
use nocturnation_stickc.Hmac.Verify.{verify_t8_iff}
use nocturnation_stickc.Numonce.{fresh_table, check_and_update, last_seen_for, index_where}
use nocturnation_stickc.ConfigChannel.{
  process_config_write, build_signed_config_write, apply_bag, accepted,
}
use nocturnation_stickc.Frame.Wire.Transfer.{sent}
use nocturnation_stickc.Tests.Data.{buffer}
use nocturnation_stickc.Hmac.{
  sha256, hmac_sha256_verify_t8, digest, hmac_sha256_sign_t8, word_bytes, tail_block, length_bytes,
  whole_blocks, sha256_compress_block, rounds, extend_schedule, block_words, big_sigma0, big_sigma1,
  sml_sigma0, sml_sigma1, ch, maj, rotr,
}
use nocturnation_stickc.Prelude.{
  replicate, ℕ, ◌+◌, ◌≡◌, refl, ap, ◌∙◌, ◌↔◌, Bool, true, [], ◌∷◌, arith,
}
use nocturnation_stickc.ConfigChannel.Signing.{IsRequest, signed_write}
use nocturnation_stickc.ConfigChannel.Receiving.{IsAuthentic, accepted-IsAuthentic}
use nocturnation_stickc.ConfigChannel.Delivery.{signed_write-applied}
use nocturnation_stickc.Frame.Types.{Bytes}
use nocturnation_stickc.Tlv.{TlvEntry, decode_property_bag, decode_entries, read_entry}

sha256_abc :
    sha256 (97 ∷ 98 ∷ 99 ∷ [])
    ≡ 0xba ∷ 0x78 ∷ 0x16 ∷ 0xbf ∷ 0x8f ∷ 0x01 ∷ 0xcf ∷ 0xea ∷ 0x41 ∷ 0x41 ∷ 0x40 ∷ 0xde ∷ 0x5d
      ∷ 0xae ∷ 0x22 ∷ 0x23 ∷ 0xb0 ∷ 0x03 ∷ 0x61 ∷ 0xa3 ∷ 0x96 ∷ 0x17 ∷ 0x7a ∷ 0x9c ∷ 0xb4 ∷ 0x10
      ∷ 0xff ∷ 0x61 ∷ 0xf2 ∷ 0x00 ∷ 0x15 ∷ 0xad ∷ []
unfolding sha256 digest word_bytes tail_block length_bytes whole_blocks sha256_compress_block rounds
    extend_schedule block_words big_sigma0 big_sigma1 sml_sigma0 sml_sigma1 ch maj rotr
sha256_abc = refl

abbrev secret_key : Bytes
secret_key = replicate 16 5

verify_t8_iff_example :
    (hmac_sha256_verify_t8 secret_key (1 ∷ 2 ∷ []) (replicate 8 9) ≡ true)
    ↔ (hmac_sha256_sign_t8 secret_key (1 ∷ 2 ∷ []) ≡ replicate 8 9)
verify_t8_iff_example = verify_t8_iff secret_key (1 ∷ 2 ∷ []) (replicate 8 9) refl

-- A bag of one entry, "ab" = 5.
abbrev bag : Bytes
bag = 1 ∷ 2 ∷ 97 ∷ 98 ∷ 0 ∷ 1 ∷ 5 ∷ []

bag-IsRequest : IsRequest buffer 0x01020304 bag 7
bag-IsRequest = record {
  uid_range = omega arith;
  bag_there = omega arith;
  bag_fits = omega arith;
  room = omega arith;
}

abbrev count_entries : TlvEntry → ℕ → Bool × ℕ
count_entries e n = (true, n + 1)

abbrev config_frame : Bytes
config_frame = sent (build_signed_config_write buffer 0x41 0x01020304 secret_key bag 7 9)

signed_write-applied_example :
    process_config_write count_entries config_frame 0x01020304 secret_key fresh_table 0
    ≡ apply_bag count_entries
        (check_and_update fresh_table 0x41 9).0
        9
        (written (signed_write buffer 0x41 0x01020304 secret_key bag 7 9 bag-IsRequest))
        0
signed_write-applied_example =
    signed_write-applied count_entries buffer 0x41 0x01020304 secret_key bag 7 9 bag-IsRequest
      fresh_table 0 (omega arith) (omega arith) (unfold last_seen_for index_where in omega arith)

config_frame_accepted :
    (process_config_write count_entries config_frame 0x01020304 secret_key fresh_table 0).0.result
    ≡ accepted
config_frame_accepted =
    ap (λ r. r.0.result) signed_write-applied_example
    ∙ (unfold apply_bag decode_property_bag decode_entries read_entry in refl)

accepted-IsAuthentic_example :
    IsAuthentic config_frame 0x01020304 secret_key fresh_table
      (process_config_write count_entries config_frame 0x01020304 secret_key fresh_table
        0).0.numonce
accepted-IsAuthentic_example =
    accepted-IsAuthentic count_entries config_frame 0x01020304 secret_key fresh_table 0
      config_frame_accepted
