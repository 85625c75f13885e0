-- ===== src/Hmac.antt =====
-- src/crypto/hmac_sha256.cpp: SHA-256 of a whole message, HMAC with a 16-byte key, and its truncation
-- to 8 bytes. A uint32_t sum is taken modulo 2^32; an array is the list of its bytes.
pub mod Verify
use nocturnation_stickc.Prelude.{
  ltb, ◌==◌, if◌then◌else◌, length, get_or, take, drop, replicate, ℕ, zero, suc, ◌+◌, ◌-◌, ◌*◌, ◌/◌,
  ◌%◌, ◌^◌, Bool, List, [], ◌∷◌, ◌++◌, map,
}
use nocturnation_stickc.Frame.Types.{Bytes}
use Prim.Native.Nat.{bit_and, bit_or, bit_xor}

abbrev pub word : ℕ → ℕ
word x = x % 2 ^ 32

abbrev pub round_constants : List ℕ
round_constants =
    0x428a2f98 ∷ 0x71374491 ∷ 0xb5c0fbcf ∷ 0xe9b5dba5 ∷ 0x3956c25b ∷ 0x59f111f1 ∷ 0x923f82a4
    ∷ 0xab1c5ed5 ∷ 0xd807aa98 ∷ 0x12835b01 ∷ 0x243185be ∷ 0x550c7dc3 ∷ 0x72be5d74 ∷ 0x80deb1fe
    ∷ 0x9bdc06a7 ∷ 0xc19bf174 ∷ 0xe49b69c1 ∷ 0xefbe4786 ∷ 0x0fc19dc6 ∷ 0x240ca1cc ∷ 0x2de92c6f
    ∷ 0x4a7484aa ∷ 0x5cb0a9dc ∷ 0x76f988da ∷ 0x983e5152 ∷ 0xa831c66d ∷ 0xb00327c8 ∷ 0xbf597fc7
    ∷ 0xc6e00bf3 ∷ 0xd5a79147 ∷ 0x06ca6351 ∷ 0x14292967 ∷ 0x27b70a85 ∷ 0x2e1b2138 ∷ 0x4d2c6dfc
    ∷ 0x53380d13 ∷ 0x650a7354 ∷ 0x766a0abb ∷ 0x81c2c92e ∷ 0x92722c85 ∷ 0xa2bfe8a1 ∷ 0xa81a664b
    ∷ 0xc24b8b70 ∷ 0xc76c51a3 ∷ 0xd192e819 ∷ 0xd6990624 ∷ 0xf40e3585 ∷ 0x106aa070 ∷ 0x19a4c116
    ∷ 0x1e376c08 ∷ 0x2748774c ∷ 0x34b0bcb5 ∷ 0x391c0cb3 ∷ 0x4ed8aa4a ∷ 0x5b9cca4f ∷ 0x682e6ff3
    ∷ 0x748f82ee ∷ 0x78a5636f ∷ 0x84c87814 ∷ 0x8cc70208 ∷ 0x90befffa ∷ 0xa4506ceb ∷ 0xbef9a3f7
    ∷ 0xc67178f2 ∷ []

unfoldable pub rotr : ℕ → ℕ → ℕ
rotr x n = bit_or (x / 2 ^ n) (word (x * 2 ^ (32 - n)))

unfoldable pub ch : ℕ → ℕ → ℕ → ℕ
ch x y z = bit_xor (bit_and x y) (bit_and (bit_xor x 0xFFFFFFFF) z)

unfoldable pub maj : ℕ → ℕ → ℕ → ℕ
maj x y z = bit_xor (bit_xor (bit_and x y) (bit_and x z)) (bit_and y z)

unfoldable pub big_sigma0 : ℕ → ℕ
unfolding rotr
big_sigma0 x = bit_xor (bit_xor (rotr x 2) (rotr x 13)) (rotr x 22)

unfoldable pub big_sigma1 : ℕ → ℕ
unfolding rotr
big_sigma1 x = bit_xor (bit_xor (rotr x 6) (rotr x 11)) (rotr x 25)

unfoldable pub sml_sigma0 : ℕ → ℕ
unfolding rotr
sml_sigma0 x = bit_xor (bit_xor (rotr x 7) (rotr x 18)) (x / 2 ^ 3)

unfoldable pub sml_sigma1 : ℕ → ℕ
unfolding rotr
sml_sigma1 x = bit_xor (bit_xor (rotr x 17) (rotr x 19)) (x / 2 ^ 10)

-- The hash state H[8] and the working variables a to h.
pub record State8 : Type 0 where
  pub a : ℕ
  pub b : ℕ
  pub c : ℕ
  pub d : ℕ
  pub e : ℕ
  pub f : ℕ
  pub g : ℕ
  pub h : ℕ

-- The first 16 words of the message schedule, big-endian.
unfoldable pub block_words : ℕ → Bytes → List ℕ
block_words zero block = []
block_words (suc n) block =
    (get_or block 0 0 * 2 ^ 24
      + get_or block 1 0 * 2 ^ 16
      + get_or block 2 0 * 2 ^ 8
      + get_or block 3 0)
    ∷ block_words n (drop 4 block)

-- The loop that extends the schedule by `n` words; `t` is the length of the part there is.
unfoldable pub extend_schedule : ℕ → ℕ → List ℕ → List ℕ
extend_schedule zero t w = w
extend_schedule (suc n) t w =
    let next = word (
      sml_sigma1 (get_or w (t - 2) 0)
      + get_or w (t - 7) 0
      + sml_sigma0 (get_or w (t - 15) 0)
      + get_or w (t - 16) 0) in
    extend_schedule n (t + 1) (w ++ next ∷ [])

-- The loop of 64 rounds over the constants and the schedule.
unfoldable pub rounds : List ℕ → List ℕ → State8 → State8
rounds (k ∷ ks) (w ∷ ws) s =
    let t1 = word (s.h + big_sigma1 s.e + ch s.e s.f s.g + k + w) in
    let t2 = word (big_sigma0 s.a + maj s.a s.b s.c) in
    rounds ks ws (record {
      a = word (t1 + t2);
      b = s.a;
      c = s.b;
      d = s.c;
      e = word (s.d + t1);
      f = s.e;
      g = s.f;
      h = s.g;
    })
rounds _ _ s = s

unfoldable pub sha256_compress_block : State8 → Bytes → State8
sha256_compress_block s block =
    let r = rounds round_constants (extend_schedule 48 16 (block_words 16 block)) s in
    record {
      a = word (s.a + r.a);
      b = word (s.b + r.b);
      c = word (s.c + r.c);
      d = word (s.d + r.d);
      e = word (s.e + r.e);
      f = word (s.f + r.f);
      g = word (s.g + r.g);
      h = word (s.h + r.h);
    }

abbrev pub initial_state : State8
initial_state = record {
  a = 0x6a09e667;
  b = 0xbb67ae85;
  c = 0x3c6ef372;
  d = 0xa54ff53a;
  e = 0x510e527f;
  f = 0x9b05688c;
  g = 0x1f83d9ab;
  h = 0x5be0cd19;
}

-- The loop over `n` whole blocks.
unfoldable pub whole_blocks : ℕ → State8 → Bytes → State8
whole_blocks zero s msg = s
whole_blocks (suc n) s msg = whole_blocks n (sha256_compress_block s msg) (drop 64 msg)

-- The last `n` bytes of the padding: the message's length in bits, big-endian.
unfoldable pub length_bytes : ℕ → ℕ → Bytes
length_bytes zero bits = []
length_bytes (suc n) bits = length_bytes n (bits / 2 ^ 8) ++ (bits % 2 ^ 8) ∷ []

-- What is left behind the whole blocks, 0x80, zeros and the length: one block or two.
unfoldable pub tail_block : Bytes → ℕ → Bytes
tail_block rest msg_len =
    let leftover = length rest in
    let tail_len = if ltb leftover 56 then 64 else 128 in
    rest
    ++ (0x80 ∷ (replicate (tail_len - leftover - 9) 0 ++ length_bytes 8 (msg_len * 8 % 2 ^ 64)))

unfoldable pub word_bytes : ℕ → Bytes
word_bytes x = (x / 2 ^ 24 % 2 ^ 8) ∷ (x / 2 ^ 16 % 2 ^ 8) ∷ (x / 2 ^ 8 % 2 ^ 8) ∷ (x % 2 ^ 8) ∷ []

unfoldable pub digest : State8 → Bytes
digest s =
    word_bytes s.a
    ++ (word_bytes s.b
        ++ (word_bytes s.c
            ++ (word_bytes s.d
                ++ (word_bytes s.e ++ (word_bytes s.f ++ (word_bytes s.g ++ word_bytes s.h))))))

unfoldable pub sha256 : Bytes → Bytes
sha256 msg =
    let blocks = length msg / 64 in
    let rest = drop (blocks * 64) msg in
    let tail = tail_block rest (length msg) in
    let s = whole_blocks blocks initial_state msg in
    let s1 = sha256_compress_block s tail in
    digest (if ltb (length rest) 56 then s1 else sha256_compress_block s1 (drop 64 tail))

-- The key, extended by zeros to 64 bytes, with every byte xored with `pad`.
unfoldable pub padded_key : Bytes → ℕ → Bytes
padded_key key pad = map (λ b. bit_xor b pad) (take 16 key ++ replicate 48 0)

abbrev pub max_inner_input : ℕ
max_inner_input = 64 + 320

unfoldable pub hmac_sha256_full : Bytes → Bytes → Bytes
hmac_sha256_full key msg =
    if ltb (max_inner_input - 64) (length msg)
    then replicate 32 0
    else sha256 (padded_key key 0x5c ++ sha256 (padded_key key 0x36 ++ msg))

unfoldable pub hmac_sha256_sign_t8 : Bytes → Bytes → Bytes
hmac_sha256_sign_t8 key msg = take 8 (hmac_sha256_full key msg)

-- The loop that folds the differences of `n` bytes into `diff`.
unfoldable pub fold_differences : ℕ → ℕ → Bytes → Bytes → ℕ
fold_differences zero diff expected mac = diff
fold_differences (suc n) diff expected mac =
    fold_differences n (bit_or diff (bit_xor (get_or expected 0 0) (get_or mac 0 0)))
      (drop 1 expected) (drop 1 mac)

unfoldable pub hmac_sha256_verify_t8 : Bytes → Bytes → Bytes → Bool
hmac_sha256_verify_t8 key msg mac8 = fold_differences 8 0 (hmac_sha256_sign_t8 key msg) mac8 == 0
