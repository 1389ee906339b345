-- ===== src/Prelude/Bits.antt =====
-- The bitwise `|` of fields that do not overlap, and the bitwise `&` with a mask of low bits.
use Prim.Native.Nat.{
  ℕ, zero, suc, ◌+◌, ◌-◌, ◌*◌, ◌/◌, ◌%◌, ◌^◌, ◌<◌, ◌≤◌, min, max, bit_and, bit_or, digits,
  bit_and-bitwise, bit_or-bitwise,
}
use mathlib.Core.Path.{◌≡◌, refl, ap, ◌∙◌}
use native.Mathlib.Nat.{
  pow-suc, one-le-pow, mod-lt, mod-eq_of_lt, mul_assoc, add-mul-mod_self_right, div-add-mod',
}
use native.Mathlib.Omega.{arith}
use mathlib.Core.Logic.{inl, inr}
use android_infotm_confident.Prelude.Tests.{leb, Bool-cases}

-- The recursion on binary digits has enough fuel once the fuel is the first number.
module _ (z : ℕ → ℕ) (f : ℕ → ℕ → ℕ) where
  one_more : (fuel x y : ℕ) → x ≤ fuel → digits z f (suc fuel) x y ≡ digits z f fuel x y
  one_more zero zero y h = refl
  one_more (suc fuel) zero y h = refl
  one_more zero (suc x) y h = absurd (omega arith)
  one_more (suc fuel) (suc x) y h = ground (arith, one_more fuel (suc x / 2) (y / 2) (omega arith))

  enough :
      (large small x y : ℕ)
      → x ≤ small
      → small ≤ large
      → digits z f large x y ≡ digits z f small x y
  enough zero small x y h l =
      let same : zero ≡ small = omega arith in ap (λ n. digits z f n x y) same
  enough (suc large) small x y h l = elim (Bool-cases (leb small large)) [
    | inl e ↦ one_more large x y (ground arith) ∙ enough large small x y h (ground arith)
    | inr e ↦ let same : suc large ≡ small = ground arith in ap (λ n. digits z f n x y) same
  ]

or_zero_digits : (fuel x : ℕ) → x ≤ fuel → digits (λ y. y) max fuel x 0 ≡ x
or_zero_digits zero zero h = refl
or_zero_digits (suc fuel) zero h = refl
or_zero_digits zero (suc x) h = absurd (omega arith)
or_zero_digits (suc fuel) (suc x) h = omega (arith, or_zero_digits fuel (suc x / 2) (omega arith))

and_zero_digits : (fuel x : ℕ) → x ≤ fuel → digits (λ y. 0) min fuel x 0 ≡ 0
and_zero_digits zero zero h = refl
and_zero_digits (suc fuel) zero h = refl
and_zero_digits zero (suc x) h = absurd (omega arith)
and_zero_digits (suc fuel) (suc x) h = omega (arith, and_zero_digits fuel (suc x / 2) (omega arith))

or_nothing : (x : ℕ) → bit_or x 0 ≡ x
or_nothing x = bit_or-bitwise x 0 ∙ or_zero_digits x x (omega arith)

and_nothing : (x : ℕ) → bit_and x 0 ≡ 0
and_nothing x = bit_and-bitwise x 0 ∙ and_zero_digits x x (omega arith)

nothing_or : (y : ℕ) → bit_or 0 y ≡ y
nothing_or y = bit_or-bitwise 0 y

nothing_and : (y : ℕ) → bit_and 0 y ≡ 0
nothing_and y = bit_and-bitwise 0 y

bit_or-halves : (x y : ℕ) → bit_or x y ≡ max (x % 2) (y % 2) + 2 * bit_or (x / 2) (y / 2)
bit_or-halves zero y = omega (arith, nothing_or (y / 2), nothing_or y)
bit_or-halves (suc x) y = omega (
  arith,
  enough (λ y. y) max x (suc x / 2) (suc x / 2) (y / 2) (omega arith) (omega arith),
  bit_or-bitwise (suc x / 2) (y / 2),
  bit_or-bitwise (suc x) y,
)

bit_and-halves : (x y : ℕ) → bit_and x y ≡ min (x % 2) (y % 2) + 2 * bit_and (x / 2) (y / 2)
bit_and-halves zero y = omega (arith, nothing_and (y / 2), nothing_and y)
bit_and-halves (suc x) y = omega (
  arith,
  enough (λ y. 0) min x (suc x / 2) (suc x / 2) (y / 2) (omega arith) (omega arith),
  bit_and-bitwise (suc x / 2) (y / 2),
  bit_and-bitwise (suc x) y,
)

-- One place more for a field above `k` bits.
higher : (y k : ℕ) → y * 2 ^ suc k ≡ y * 2 ^ k + y * 2 ^ k
higher y k = omega (arith, ap (λ (p : ℕ). y * p) (pow-suc 2 k))

-- A field of `k` bits, and one above it.
pub bit_or-add : (k x y : ℕ) → x < 2 ^ k → bit_or x (y * 2 ^ k) ≡ x + y * 2 ^ k
bit_or-add zero zero y h = omega (arith, nothing_or (y * 2 ^ 0))
bit_or-add zero (suc x) y h = absurd (omega arith)
bit_or-add (suc k) x y h =
    ground (arith, bit_or-halves x (y * 2 ^ suc k), higher y k, pow-suc 2 k, bit_or-add k (x / 2) y)

mod-double : (x m : ℕ) → 0 < m → x % (m * 2) ≡ (x / 2) % m * 2 + x % 2
mod-double x m h =
    ap (λ t. t % (m * 2)) split
    ∙ (add-mul-mod_self_right low (x / 2 / m) (m * 2)
        ∙ mod-eq_of_lt (omega (arith, mod-lt (x / 2) h)))
  where
    low : ℕ
    low = (x / 2) % m * 2 + x % 2

    split : x ≡ low + x / 2 / m * (m * 2)
    split = omega (arith, div-add-mod' (x / 2) m, mul_assoc (x / 2 / m) m 2)

-- A mask of the `k` low bits keeps the remainder.
pub bit_and-mod : (k x : ℕ) → bit_and x (2 ^ k - 1) ≡ x % 2 ^ k
bit_and-mod zero x = omega (arith, and_nothing x)
bit_and-mod (suc k) x = ground (
  arith,
  bit_and-halves x (2 ^ suc k - 1),
  pow-suc 2 k,
  one-le-pow k 2,
  mod-double x (2 ^ k),
  bit_and-mod k (x / 2),
)

-- A field of `k` bits, and one above it, the upper one first.
pub bit_or-add' : (k x y : ℕ) → x < 2 ^ k → bit_or (y * 2 ^ k) x ≡ x + y * 2 ^ k
bit_or-add' zero zero y h = omega (arith, or_nothing (y * 2 ^ 0))
bit_or-add' zero (suc x) y h = absurd (omega arith)
bit_or-add' (suc k) x y h =
    ground
      (arith, bit_or-halves (y * 2 ^ suc k) x, higher y k, pow-suc 2 k, bit_or-add' k (x / 2) y)
