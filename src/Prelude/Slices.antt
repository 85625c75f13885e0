-- ===== src/Prelude/Slices.antt =====
-- memcpy and memset on arrays held as lists.
use Prim.Native.Nat.{ℕ, zero, suc, ◌+◌, ◌≤◌}
use mathlib.Core.Path.{◌≡◌, refl, ap}
use mathlib.Core.List.{List, [], ◌∷◌, ◌++◌}
use native.Mathlib.Omega.{arith}
use nocturnation_stickc.Prelude.Lists.{
  length, take, drop, length-append, length-take, length-drop, take-append,
}

module _ {ℓ} {A : Type ℓ} where
  -- The `n` elements from offset `o`.
  abbrev pub slice : List A → ℕ → ℕ → List A
  slice xs o n = take n (drop o xs)

  -- memcpy(dst, src, n): the first `n` elements of `dst` become those of `src`.
  abbrev pub memcpy : List A → List A → ℕ → List A
  memcpy dst src n = take n src ++ drop n dst

  -- The bytes of `src` stored from the start of `dst`.
  abbrev pub store : List A → List A → List A
  store dst src = src ++ drop (length src) dst

  pub length-store :
      (dst src : List A) → length src ≤ length dst → length (store dst src) ≡ length dst
  length-store dst src h =
      omega (arith, length-append src (drop (length src) dst), length-drop (length src) dst)

  pub length-memcpy :
      (dst src : List A) (n : ℕ)
      → n ≤ length src
      → n ≤ length dst
      → length (memcpy dst src n) ≡ length dst
  length-memcpy dst src n h k =
      omega (arith, length-append (take n src) (drop n dst), length-take n src, length-drop n dst)

  pub take-memcpy :
      (dst src : List A) (n : ℕ) → n ≤ length src → take n (memcpy dst src n) ≡ take n src
  take-memcpy dst src n h =
      take-append n (take n src) (drop n dst) (omega (arith, length-take n src))

  pub slice-take : (n o k : ℕ) (xs : List A) → o + k ≤ n → slice (take n xs) o k ≡ slice xs o k
  slice-take zero zero zero xs h = refl
  slice-take zero (suc o) k xs h = absurd (omega arith)
  slice-take zero zero (suc k) xs h = absurd (omega arith)
  slice-take (suc n) zero zero xs h = refl
  slice-take (suc n) zero (suc k) [] h = refl
  slice-take (suc n) zero (suc k) (x ∷ xs) h = ap (◌∷◌ x) (slice-take n zero k xs (omega arith))
  slice-take (suc n) (suc o) k [] h = refl
  slice-take (suc n) (suc o) k (x ∷ xs) h = slice-take n o k xs (omega arith)
