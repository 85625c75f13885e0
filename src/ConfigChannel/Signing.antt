-- ===== src/ConfigChannel/Signing.antt =====
-- config_tx.cpp: the signed frame.
use nocturnation_stickc.Frame.Config.RoundTrip.{written, config_write-Delivers}
use nocturnation_stickc.Frame.Wire.Transfer.{Delivers, sent-store, sent}
use nocturnation_stickc.Hmac.{hmac_sha256_sign_t8}
use nocturnation_stickc.ConfigChannel.{
  read_u64_le, write_u64_le, unsigned_write, sender_header, build_signed_config_write,
}
use nocturnation_stickc.Hmac.Verify.{length-sign}
use nocturnation_stickc.Frame.Wire.{write_header, write_u32_le}
use nocturnation_stickc.Tlv.{store_at}
use nocturnation_stickc.Prelude.{
  le→ltb, length, take, drop, length-append, take_all, take-append, drop-append, store, ℕ, ◌+◌, ◌%◌,
  ◌^◌, ◌≤◌, ◌≡◌, sym, ◌∷◌, ◌++◌, append_assoc, arith, ap, ltb, ◌==◌, replicate, length-take,
  length-replicate, length-memcpy, zero, suc, ◌/◌, ◌<◌, refl, false, ◌-◌, ◌∙◌, subst,
}
use nocturnation_stickc.Frame.Types.{
  Bytes, Header, config_write, header_size, IsDword, IsWord, IsHeader,
}
use nocturnation_stickc.Frame.Config.{
  ConfigWritePayload, IsConfigWrite, encode_config_write, config_write_max_bag_len,
  config_write_fixed_overhead, clamp, numonce_len, decode_config_write,
}

store_at-store :
    (buf xs zs mac : Bytes) (n : ℕ)
    → length xs ≡ n
    → length mac ≡ length zs
    → store_at (store buf (xs ++ zs)) n mac ≡ store buf (xs ++ mac)
store_at-store buf xs zs mac n e same = rw (
  append_assoc xs zs (drop (length (xs ++ zs)) buf),
  take-append n xs (zs ++ drop (length (xs ++ zs)) buf) e,
  drop-append n xs (zs ++ drop (length (xs ++ zs)) buf) e,
  drop-append (length mac) zs (drop (length (xs ++ zs)) buf) (sym same),
  length-append xs zs,
  length-append xs mac,
  same,
  append_assoc xs mac (drop (length xs + length zs) buf),
)

-- The frame up to the HMAC.
abbrev pub signed_region : Header → ConfigWritePayload → Bytes
signed_region hdr p =
    write_header hdr config_write (config_write_fixed_overhead + p.bag_len)
    ++ (write_u32_le p.target_uid
        ++ (take numonce_len p.numonce ++ (p.bag_len ∷ take p.bag_len p.bag_tlv)))

encode_config_write-signed_region :
    (buf : Bytes) (hdr : Header) (p : ConfigWritePayload)
    → IsConfigWrite p
    → p.bag_len ≤ config_write_max_bag_len
    → header_size + (config_write_fixed_overhead + p.bag_len) ≤ length buf
    → encode_config_write buf hdr p ≡ (
      header_size + (config_write_fixed_overhead + p.bag_len),
      store buf (signed_region hdr p ++ p.hmac),
    )
unfolding encode_config_write
encode_config_write-signed_region buf hdr p v fits room =
    let n = p.bag_len in
    let kept : clamp 220 n ≡ n = ground arith in
    let word : (21 + n) % 2 ^ 16 ≡ 21 + n = omega arith in
    let wraps : (21 + n) % 2 ^ 8 ≡ 21 + n = omega arith in
    let mac : take 8 p.hmac ≡ p.hmac = take_all 8 p.hmac (omega arith) in
    let h = write_header hdr config_write (21 + n) in
    let u = write_u32_le p.target_uid in
    let bag = n ∷ take n p.bag_tlv in
    let joined : signed_region hdr p ++ p.hmac
        ≡ h ++ (u ++ (take 8 p.numonce ++ (n ∷ (take n p.bag_tlv ++ p.hmac)))) =
      rw (
        append_assoc h (u ++ (take 8 p.numonce ++ bag)) p.hmac,
        append_assoc u (take 8 p.numonce ++ bag) p.hmac,
        append_assoc (take 8 p.numonce) bag p.hmac,
      ) in
    rw (kept, word, wraps, le→ltb (length buf) (9 + (21 + n)) (omega arith), mac)
      (ap (λ f. (header_size + (21 + n), store buf f)) (sym joined))

length-signed_region :
    (hdr : Header) (p : ConfigWritePayload)
    → IsConfigWrite p
    → p.bag_len ≤ config_write_max_bag_len
    → length (signed_region hdr p) ≡ header_size + (4 + 8 + 1 + p.bag_len)
unfolding write_header write_u32_le
length-signed_region hdr p v fits = omega (
  arith,
  length-append (take 8 p.numonce) (p.bag_len ∷ take p.bag_len p.bag_tlv),
  length-take 8 p.numonce,
  length-take p.bag_len p.bag_tlv,
)

pub read_u64_le-write_u64_le : (v : ℕ) → v < 2 ^ 64 → read_u64_le (write_u64_le 8 v) ≡ v
unfolding read_u64_le write_u64_le
read_u64_le-write_u64_le v h = omega arith

length-write_u64_le : (n v : ℕ) → length (write_u64_le n v) ≡ n
unfolding write_u64_le
length-write_u64_le zero v = refl
length-write_u64_le (suc n) v = ap suc (length-write_u64_le n (v / 2 ^ 8))

-- What a sender may be asked to send: a UID, a bag that fits, a buffer that holds the frame.
pub record IsRequest (out_buf : Bytes) (target_uid : ℕ) (bag_tlv : Bytes) (bag_len : ℕ)
    : Type 0 where
  pub uid_range : IsDword target_uid
  pub bag_there : bag_len ≤ length bag_tlv
  pub bag_fits : bag_len ≤ config_write_max_bag_len
  pub room : header_size + (config_write_fixed_overhead + bag_len) ≤ length out_buf

module _ (out_buf : Bytes) (src target_uid : ℕ) (secret bag_tlv : Bytes) (bag_len numonce : ℕ)
    (q : IsRequest out_buf target_uid bag_tlv bag_len) where
  -- The payload, and the MAC that the sender puts behind it.
  abbrev plain : ConfigWritePayload
  plain = unsigned_write target_uid bag_tlv bag_len numonce

  abbrev pub mac_of : Bytes
  mac_of = hmac_sha256_sign_t8 secret (signed_region (sender_header src) plain)

  abbrev pub signed_write : ConfigWritePayload
  signed_write = record plain { hmac = mac_of }

  plain-IsConfigWrite : IsConfigWrite plain
  plain-IsConfigWrite = record {
    target_uid_range = q.uid_range;
    numonce_size = length-write_u64_le 8 numonce;
    bag_tlv_size =
        length-memcpy (replicate 220 0) bag_tlv bag_len q.bag_there
          (omega (arith, length-replicate {A = ℕ} 220 0));
    hmac_size = refl;
  }

  pub signed_write-IsConfigWrite : IsConfigWrite signed_write
  signed_write-IsConfigWrite = record {
    target_uid_range = q.uid_range;
    numonce_size = length-write_u64_le 8 numonce;
    bag_tlv_size = plain-IsConfigWrite.bag_tlv_size;
    hmac_size = length-sign secret (signed_region (sender_header src) plain);
  }

  pub build_signed_config_write-signed :
      build_signed_config_write out_buf src target_uid secret bag_tlv bag_len numonce ≡ (
        header_size + (config_write_fixed_overhead + bag_len),
        store out_buf (signed_region (sender_header src) plain ++ mac_of),
      )
  unfolding build_signed_config_write
  build_signed_config_write-signed =
      let r = signed_region (sender_header src) plain in
      let size = length-signed_region (sender_header src) plain plain-IsConfigWrite q.bag_fits in
      let zs : Bytes = replicate 8 0 in
      let sent_len = header_size + (config_write_fixed_overhead + bag_len) in
      let coded_buf : Bytes = store out_buf (r ++ zs) in
      let coded =
        encode_config_write-signed_region out_buf (sender_header src) plain plain-IsConfigWrite
          q.bag_fits q.room in
      let some_room : (length out_buf == 0) ≡ false = ground (arith, q.room) in
      let fits : ltb 220 bag_len ≡ false = le→ltb 220 bag_len q.bag_fits in
      let cut : take (22 + bag_len) (store out_buf (r ++ zs)) ≡ r =
        rw (append_assoc r zs (drop (length (r ++ zs)) out_buf)) (
          take-append (22 + bag_len) r (zs ++ drop (length (r ++ zs)) out_buf)
            (omega (arith, size))) in
      let signed_len : 9 + (21 + bag_len) - 8 ≡ 22 + bag_len = omega arith in
      let some_bytes : (9 + (21 + bag_len) == 0) ≡ false = ground arith in
      rw (coded, some_room, fits, signed_len, some_bytes, cut)
        (ap (λ f. (sent_len, f))
          (ap (λ front. front ++ store (drop (22 + bag_len) coded_buf) mac_of) (sym cut)
            ∙ store_at-store out_buf r zs mac_of (22 + bag_len) (omega (arith, size))
                (length-sign secret r)))

  -- A signed frame is the frame of the payload with the MAC in place.
  build_signed_config_write-encode :
      build_signed_config_write out_buf src target_uid secret bag_tlv bag_len numonce
      ≡ encode_config_write out_buf (sender_header src) signed_write
  build_signed_config_write-encode =
      build_signed_config_write-signed
      ∙ sym (
          encode_config_write-signed_region out_buf (sender_header src) signed_write
            signed_write-IsConfigWrite q.bag_fits q.room)

  abbrev pub signed_frame : Bytes
  signed_frame =
      sent (build_signed_config_write out_buf src target_uid secret bag_tlv bag_len numonce)

  pub signed_frame-region : signed_frame ≡ signed_region (sender_header src) plain ++ mac_of
  signed_frame-region =
      let r = signed_region (sender_header src) plain in
      let size = length-signed_region (sender_header src) plain plain-IsConfigWrite q.bag_fits in
      rw build_signed_config_write-signed (
        sent-store out_buf (r ++ mac_of) (header_size + (config_write_fixed_overhead + bag_len))
          (omega (arith, length-append r mac_of, size, length-sign secret r)))

  pub signed_frame-Delivers :
      (old_hdr : Header) (old : ConfigWritePayload)
      → IsWord src
      → Delivers signed_frame decode_config_write
          (sender_header src)
          config_write
          (config_write_fixed_overhead + bag_len)
          (written signed_write)
          old_hdr
          old
  signed_frame-Delivers old_hdr old word =
      let kept : clamp 220 bag_len ≡ bag_len = ground (arith, q.bag_fits) in
      let h : IsHeader (sender_header src) = record {
        source_id_word = word;
        sequence_number_byte = omega arith;
        hop_count_byte = omega arith;
      } in
      let room : 9 + (21 + clamp 220 bag_len) ≤ length out_buf = omega (arith, kept, q.room) in
      let coded =
        config_write-Delivers out_buf (sender_header src) signed_write old_hdr old h
          signed_write-IsConfigWrite room in
      subst
        (λ n.
          Delivers signed_frame decode_config_write (sender_header src) config_write
            (config_write_fixed_overhead + n) (written signed_write) old_hdr old)
        kept
        (subst
          (λ r.
            Delivers (sent r) decode_config_write (sender_header src) config_write
              (config_write_fixed_overhead + clamp 220 bag_len) (written signed_write) old_hdr old)
          (sym build_signed_config_write-encode) coded)
