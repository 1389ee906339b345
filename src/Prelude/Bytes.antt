-- ===== src/Prelude/Bytes.antt =====
-- Buffers of bytes: a copy into the middle of one, a part of one, little-endian words in one.
use Prim.Native.Nat.{ℕ, zero, suc, ◌+◌, ◌*◌, ◌/◌, ◌%◌, ◌^◌, ◌≤◌}
use mathlib.Core.Path.{◌≡◌, refl, ap}
use mathlib.Core.List.{List, [], ◌∷◌}
use native.Mathlib.Omega.{arith}
use android_infotm_confident.Prelude.Lists.{length, get_or, take, drop}
use android_infotm_confident.Prelude.Int.{ℤ, signed32, unsigned32}

-- `memcpy(dst + off, src, sizeof src)`; what would go past the end of `dst` is not written.
unfoldable pub overwrite {ℓ} : {A : Type ℓ} → List A → ℕ → List A → List A
overwrite [] off src = []
overwrite (x ∷ xs) (suc off) src = x ∷ overwrite xs off src
overwrite (x ∷ xs) zero [] = x ∷ xs
overwrite (x ∷ xs) zero (y ∷ ys) = y ∷ overwrite xs zero ys

-- The `n` bytes from `off` on.
abbrev pub slice {ℓ} : {A : Type ℓ} → List A → ℕ → ℕ → List A
slice xs off n = take n (drop off xs)

-- The bytes of an `int`, and the `int` at an offset.
abbrev pub int_bytes : ℤ → List ℕ
int_bytes i =
    let w = unsigned32 i in
    w % 256 ∷ (w / 2 ^ 8) % 256 ∷ (w / 2 ^ 16) % 256 ∷ (w / 2 ^ 24) % 256 ∷ []

unfoldable pub load_int : List ℕ → ℕ → ℤ
load_int b off = signed32 (
    get_or b off 0
    + get_or b (off + 1) 0 * 2 ^ 8
    + get_or b (off + 2) 0 * 2 ^ 16
    + get_or b (off + 3) 0 * 2 ^ 24)

-- The bit pattern of a `short`.
unfoldable pub load_short : List ℕ → ℕ → ℕ
load_short b off = get_or b off 0 + get_or b (off + 1) 0 * 2 ^ 8

module _ {ℓ} {A : Type ℓ} where
  pub length-overwrite :
      (xs : List A) (off : ℕ) (src : List A) → length (overwrite xs off src) ≡ length xs
  unfolding overwrite
  length-overwrite [] off src = refl
  length-overwrite (x ∷ xs) (suc off) src = ap suc (length-overwrite xs off src)
  length-overwrite (x ∷ xs) zero [] = refl
  length-overwrite (x ∷ xs) zero (y ∷ ys) = ap suc (length-overwrite xs zero ys)

  -- What was copied is read back, if it fits.
  pub slice-overwrite :
      (xs : List A) (off : ℕ) (src : List A)
      → off + length src ≤ length xs
      → slice (overwrite xs off src) off (length src) ≡ src
  unfolding overwrite
  slice-overwrite [] zero [] h = refl
  slice-overwrite [] zero (y ∷ ys) h = absurd (omega arith)
  slice-overwrite [] (suc off) src h = absurd (omega arith)
  slice-overwrite (x ∷ xs) (suc off) src h = slice-overwrite xs off src (omega arith)
  slice-overwrite (x ∷ xs) zero [] h = refl
  slice-overwrite (x ∷ xs) zero (y ∷ ys) h = ap (◌∷◌ y) (slice-overwrite xs zero ys (omega arith))
