-- ===== src/Frame/Config/RoundTrip.antt =====
-- frame.cpp: UID_ANNOUNCE, CONFIG_WRITE and CONFIG_ACK from encoder to decoder.
use nocturnation_stickc.Frame.Wire.Transfer.{Delivers, Delivers-sent, sent, stamped}
use nocturnation_stickc.Frame.Wire.{write_u32_le, read_u32_le}
use nocturnation_stickc.Frame.Types.{
  Bytes, Header, IsHeader, header_size, config_ack, uid_announce, ok, config_write,
}
use nocturnation_stickc.Prelude.{
  ℕ, length, memcpy, ◌≡◌, replicate, take, ◌++◌, take_all, arith, take-append, ◌+◌, ◌≤◌, le→ltb,
  get_or-append_add, [], ◌∷◌, length-append, length-take, drop-append_add, ◌%◌, ◌^◌, drop,
  drop-append, ◌∙◌,
}
use nocturnation_stickc.Frame.Config.{
  UidAnnouncePayload, ConfigWritePayload, encode_config_ack, clamp, decode_config_ack,
  uid_announce_max_friendly_name_len, config_write_max_bag_len, ConfigAckPayload, IsConfigAck,
  config_ack_payload_len, IsUidAnnounce, decode_uid_announce, IsConfigWrite, encode_uid_announce,
  decode_config_write, uid_announce_fixed_prefix_len, encode_config_write,
  config_write_fixed_overhead,
}

-- What a receiver holds after UID_ANNOUNCE `p`: the name cut to 20 bytes and padded with zeros.
abbrev pub announced : UidAnnouncePayload → UidAnnouncePayload
announced p =
    let n = clamp uid_announce_max_friendly_name_len p.friendly_name_len in
    record p {
      friendly_name_len = n;
      friendly_name = memcpy (replicate uid_announce_max_friendly_name_len 0) p.friendly_name n;
    }

-- What a receiver holds after CONFIG_WRITE `p`: the bag cut to 220 bytes and padded with zeros.
abbrev pub written : ConfigWritePayload → ConfigWritePayload
written p =
    let n = clamp config_write_max_bag_len p.bag_len in
    record p { bag_len = n; bag_tlv = memcpy (replicate config_write_max_bag_len 0) p.bag_tlv n }

-- A list cut at its own length, with something behind it.
take_back : (n : ℕ) (xs rest : Bytes) → length xs ≡ n → take n (take n xs ++ rest) ≡ xs
take_back n xs rest h = rw (take_all n xs (omega arith)) (take-append n xs rest h)

-- A CONFIG_ACK frame sent from any buffer with room for it is received with the header as stamped
-- and the payload unchanged.
pub config_ack-Delivers :
    (buf : Bytes) (hdr : Header) (p : ConfigAckPayload) (old_hdr : Header) (old : ConfigAckPayload)
    → IsHeader hdr
    → IsConfigAck p
    → header_size + config_ack_payload_len ≤ length buf
    → Delivers
        (sent (encode_config_ack buf hdr p))
        decode_config_ack
        hdr
        config_ack
        config_ack_payload_len
        p
        old_hdr
        old
unfolding encode_config_ack decode_config_ack write_u32_le read_u32_le
config_ack-Delivers buf hdr p old_hdr old h v room =
    let nonce = p.responder_numonce in
    let rest = p.status ∷ p.applied_keys ∷ [] in
    let whole : take 8 nonce ≡ nonce = take_all 8 nonce (omega arith) in
    rw (le→ltb (length buf) 23 room, encode_config_ack)
      (Delivers-sent decode_config_ack buf hdr config_ack 14 _ p old_hdr old h
        (omega (arith, length-append (take 8 nonce) rest, length-take 8 nonce))
        (rw whole (
          ground (
            arith,
            take-append 8 nonce rest,
            get_or-append_add 8 0 nonce rest 0,
            get_or-append_add 9 1 nonce rest 0,
          ))))

module _ (hdr : Header) (p old : UidAnnouncePayload) (v : IsUidAnnounce p) where
  -- The bytes behind the header, with `n` bytes of name.
  abbrev name_tail : ℕ → Bytes
  name_tail n = p.role ∷ p.host ∷ n ∷ take n p.friendly_name

  decode_uid_announce-append :
      (n : ℕ)
      → n ≤ uid_announce_max_friendly_name_len
      → decode_uid_announce
          (stamped hdr uid_announce (23 + n))
          (write_u32_le p.uid ++ (p.secret ++ name_tail n))
          (23 + n)
          old
        ≡ (
          ok,
          record p {
            friendly_name_len = n;
            friendly_name = memcpy (replicate 20 0) p.friendly_name n;
          },
        )
  unfolding decode_uid_announce write_u32_le read_u32_le
  decode_uid_announce-append n fits =
      let at = λ (j k : ℕ) (e : j ≡ length p.secret + k).
        get_or-append_add j k p.secret (name_tail n) 0 e in
      let cut : length (take n p.friendly_name) ≡ n =
        omega (arith, length-take n p.friendly_name) in
      rw
        (
          at 16 0 (omega arith),
          at 17 1 (omega arith),
          at 18 2 (omega arith),
          drop-append_add 19 3 p.secret (name_tail n) (omega arith),
          take-append 16 p.secret (name_tail n) v.secret_size,
        )
        (rw
          (
            le→ltb (23 + n) 23 (omega arith),
            le→ltb 43 (23 + n) (omega arith),
            le→ltb 20 n fits,
            take_all n (take n p.friendly_name) (omega arith),
          )
          (ground arith))

pub clamp_le : (most n : ℕ) → clamp most n ≤ most
clamp_le most n = ground arith

-- A UID_ANNOUNCE frame sent from any buffer with room for it is received with the header as stamped,
-- and the payload with the friendly name cut to 20 bytes and padded with zeros.
pub uid_announce-Delivers :
    (buf : Bytes) (hdr : Header) (p : UidAnnouncePayload) (old_hdr : Header)
    (old : UidAnnouncePayload)
    → IsHeader hdr
    → IsUidAnnounce p
    → header_size + (uid_announce_fixed_prefix_len + (announced p).friendly_name_len) ≤ length buf
    → Delivers
        (sent (encode_uid_announce buf hdr p))
        decode_uid_announce
        hdr
        uid_announce
        (uid_announce_fixed_prefix_len + (announced p).friendly_name_len)
        (announced p)
        old_hdr
        old
unfolding encode_uid_announce
uid_announce-Delivers buf hdr p old_hdr old h v room =
    let n = clamp 20 p.friendly_name_len in
    let fits : n ≤ 20 = clamp_le 20 p.friendly_name_len in
    let wraps : (23 + n) % 2 ^ 8 ≡ 23 + n = omega arith in
    let secret : take 16 p.secret ≡ p.secret = take_all 16 p.secret (omega arith) in
    let rest = write_u32_le p.uid ++ (p.secret ++ name_tail hdr p old v n) in
    let size : length rest ≡ 23 + n =
      unfold write_u32_le in
      omega
        (arith, length-append p.secret (name_tail hdr p old v n), length-take n p.friendly_name) in
    rw (wraps, le→ltb (length buf) (9 + (23 + n)) (omega arith), secret)
      (Delivers-sent decode_uid_announce buf hdr uid_announce (23 + n) rest (announced p) old_hdr
        old h size (decode_uid_announce-append hdr p old v n fits))

module _ (hdr : Header) (p old : ConfigWritePayload) (v : IsConfigWrite p) where
  -- The bytes behind the numonce, with `n` bytes of bag.
  abbrev bag_tail : ℕ → Bytes
  bag_tail n = n ∷ (take n p.bag_tlv ++ p.hmac)

  decode_config_write-append :
      (n : ℕ)
      → n ≤ config_write_max_bag_len
      → decode_config_write
          (stamped hdr config_write (21 + n))
          (write_u32_le p.target_uid ++ (p.numonce ++ bag_tail n))
          (21 + n)
          old
        ≡ (ok, record p { bag_len = n; bag_tlv = memcpy (replicate 220 0) p.bag_tlv n })
  unfolding decode_config_write write_u32_le read_u32_le
  decode_config_write-append n fits =
      let cut : length (take n p.bag_tlv) ≡ n = omega (arith, length-take n p.bag_tlv) in
      let len_at = get_or-append_add 8 0 p.numonce (bag_tail n) 0 (omega arith) in
      let bag_at = drop-append_add 9 1 p.numonce (bag_tail n) (omega arith) in
      let mac_at : drop (13 + n) (write_u32_le p.target_uid ++ (p.numonce ++ bag_tail n)) ≡ p.hmac =
        drop-append_add (13 + n) (9 + n) (write_u32_le p.target_uid) (p.numonce ++ bag_tail n)
          (omega arith)
        ∙ drop-append_add (9 + n) (1 + n) p.numonce (bag_tail n) (omega arith)
        ∙ drop-append_add (1 + n) n (n ∷ []) (take n p.bag_tlv ++ p.hmac) (omega arith)
        ∙ drop-append n (take n p.bag_tlv) p.hmac cut in
      rw (len_at, bag_at, take-append 8 p.numonce (bag_tail n) v.numonce_size)
        (rw
          (
            le→ltb (21 + n) 21 (omega arith),
            le→ltb 241 (21 + n) (omega arith),
            le→ltb 220 n fits,
            take-append n (take n p.bag_tlv) p.hmac cut,
          )
          (rw (mac_at, take_all 8 p.hmac (omega arith)) (ground arith)))

-- A CONFIG_WRITE frame sent from any buffer with room for it is received with the header as stamped,
-- and the payload with the bag cut to 220 bytes and padded with zeros.
pub config_write-Delivers :
    (buf : Bytes) (hdr : Header) (p : ConfigWritePayload) (old_hdr : Header)
    (old : ConfigWritePayload)
    → IsHeader hdr
    → IsConfigWrite p
    → header_size + (config_write_fixed_overhead + (written p).bag_len) ≤ length buf
    → Delivers
        (sent (encode_config_write buf hdr p))
        decode_config_write
        hdr
        config_write
        (config_write_fixed_overhead + (written p).bag_len)
        (written p)
        old_hdr
        old
unfolding encode_config_write
config_write-Delivers buf hdr p old_hdr old h v room =
    let n = clamp 220 p.bag_len in
    let fits : n ≤ 220 = clamp_le 220 p.bag_len in
    let word : (21 + n) % 2 ^ 16 ≡ 21 + n = omega arith in
    let wraps : (21 + n) % 2 ^ 8 ≡ 21 + n = omega arith in
    let nonce : take 8 p.numonce ≡ p.numonce = take_all 8 p.numonce (omega arith) in
    let mac : take 8 p.hmac ≡ p.hmac = take_all 8 p.hmac (omega arith) in
    let rest = write_u32_le p.target_uid ++ (p.numonce ++ bag_tail hdr p old v n) in
    let size : length rest ≡ 21 + n =
      unfold write_u32_le in
      omega (
        arith,
        length-append p.numonce (bag_tail hdr p old v n),
        length-append (take n p.bag_tlv) p.hmac,
        length-take n p.bag_tlv,
      ) in
    rw (word, wraps, le→ltb (length buf) (9 + (21 + n)) (omega arith), nonce, mac)
      (Delivers-sent decode_config_write buf hdr config_write (21 + n) rest (written p) old_hdr old
        h size (decode_config_write-append hdr p old v n fits))
