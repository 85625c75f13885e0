-- ===== src/Hmac/Verify.antt =====
-- hmac_sha256.cpp: which MACs `hmac_sha256_verify_t8` accepts.
use nocturnation_stickc.Hmac.{
  fold_differences, hmac_sha256_sign_t8, hmac_sha256_verify_t8, hmac_sha256_full, sha256, digest,
  word_bytes, max_inner_input,
}
use nocturnation_stickc.Prelude.{
  ltb, Bool-cases, length, replicate, ℕ, zero, suc, ◌-◌, ◌/◌, ◌%◌, ◌≤◌, ◌<◌, ◌≡◌, refl, sym, ap,
  ap₂, ◌∙◌, ◌↔◌, inl, inr, true, [], ◌∷◌, arith,
}
use nocturnation_stickc.Frame.Types.{Bytes}
use Prim.Native.Nat.{bit_or, bit_xor, bit_or-bitwise, bit_xor-bitwise, digits, differ, max}

differ_zero : (x y : ℕ) → differ x y ≡ 0 → x ≡ y
differ_zero zero y e = sym e
differ_zero (suc x) zero e = e
differ_zero (suc x) (suc y) e = ap suc (differ_zero x y e)

differ_self : (x : ℕ) → differ x x ≡ 0
differ_self zero = refl
differ_self (suc x) = differ_self x

-- The digits of an exclusive or that is zero.
xor_digits_zero : (n a b : ℕ) → a ≤ n → digits (λ z. z) differ n a b ≡ 0 → a ≡ b
xor_digits_zero zero a b h e = omega arith
xor_digits_zero (suc n) zero b h e = sym e
xor_digits_zero (suc n) (suc a) b h e =
    let high = xor_digits_zero n (suc a / 2) (b / 2) (omega arith) (omega arith) in
    let low = differ_zero (suc a % 2) (b % 2) (omega arith) in omega arith

xor_digits_self : (n a : ℕ) → a ≤ n → digits (λ z. z) differ n a a ≡ 0
xor_digits_self zero a h = omega arith
xor_digits_self (suc n) zero h = refl
xor_digits_self (suc n) (suc a) h =
    omega (arith, xor_digits_self n (suc a / 2) (omega arith), differ_self (suc a % 2))

or_digits_zero : (n a b : ℕ) → a ≤ n → digits (λ z. z) max n a b ≡ 0 → (a ≡ 0) × (b ≡ 0)
or_digits_zero zero a b h e = (omega arith, e)
or_digits_zero (suc n) zero b h e = (refl, e)
or_digits_zero (suc n) (suc a) b h e =
    let (high, _) = or_digits_zero n (suc a / 2) (b / 2) (omega arith) (omega arith) in
    absurd (omega arith)

bit_xor_zero : (a b : ℕ) → (bit_xor a b ≡ 0) ↔ (a ≡ b)
bit_xor_zero a b = (
  λ e. xor_digits_zero a a b (omega arith) (sym (bit_xor-bitwise a b) ∙ e),
  λ e. rw (← e) (bit_xor-bitwise a a ∙ xor_digits_self a a (omega arith)),
)

bit_or_zero : (a b : ℕ) → (bit_or a b ≡ 0) ↔ ((a ≡ 0) × (b ≡ 0))
bit_or_zero a b =
    (λ e. or_digits_zero a a b (omega arith) (sym (bit_or-bitwise a b) ∙ e), λ (p, q). rw (p, q))

-- The fold ends in zero if it starts there and meets no difference.
fold_zero :
    (n diff : ℕ) (xs ys : Bytes)
    → length xs ≡ n
    → length ys ≡ n
    → (fold_differences n diff xs ys ≡ 0) ↔ ((diff ≡ 0) × (xs ≡ ys))
unfolding fold_differences
fold_zero zero diff [] [] p q = ((λ e. (e, refl)), λ r. r.0)
fold_zero zero diff [] (y ∷ ys) p q = absurd (omega arith)
fold_zero zero diff (x ∷ xs) ys p q = absurd (omega arith)
fold_zero (suc n) diff [] ys p q = absurd (omega arith)
fold_zero (suc n) diff (x ∷ xs) [] p q = absurd (omega arith)
fold_zero (suc n) diff (x ∷ xs) (y ∷ ys) p q =
    let (there, back) = fold_zero n (bit_or diff (bit_xor x y)) xs ys (omega arith) (omega arith) in
    let (or_there, or_back) = bit_or_zero diff (bit_xor x y) in
    let (xor_there, xor_back) = bit_xor_zero x y in
    (
      λ e.
          let (d, rest) = there e in
          let (z, same) = or_there d in (z, ap₂ (λ v vs. v ∷ vs) (xor_there same) rest),
      λ (z, same). back (or_back (z, xor_back cc), cc),
    )

pub length-sign : (key msg : Bytes) → length (hmac_sha256_sign_t8 key msg) ≡ 8
unfolding hmac_sha256_sign_t8 hmac_sha256_full sha256 digest word_bytes
length-sign key msg = elim (Bool-cases (ltb (max_inner_input - 64) (length msg))) [
  | inl long ↦ rw long
  | inr short ↦ rw short
]

-- A MAC of 8 bytes is accepted exactly if it is the one that the signer gives for key and message.
pub verify_t8_iff :
    (key msg mac8 : Bytes)
    → length mac8 ≡ 8
    → (hmac_sha256_verify_t8 key msg mac8 ≡ true) ↔ (hmac_sha256_sign_t8 key msg ≡ mac8)
unfolding hmac_sha256_verify_t8
verify_t8_iff key msg mac8 size =
    let (there, back) =
      fold_zero 8 0 (hmac_sha256_sign_t8 key msg) mac8 (length-sign key msg) size in
    (λ e. (there (ground arith)).1, λ e. let z = back (refl, e) in ground arith)

-- A message of more than 320 bytes is accepted with a MAC of eight zeros, whatever the key.
pub verify_t8_overlong :
    (key msg : Bytes) → 320 < length msg → hmac_sha256_verify_t8 key msg (replicate 8 0) ≡ true
verify_t8_overlong key msg long =
    let test : ltb 320 (length msg) ≡ true = ground arith in
    (verify_t8_iff key msg (replicate 8 0) refl).1
      (unfold hmac_sha256_sign_t8 hmac_sha256_full in rw test)
