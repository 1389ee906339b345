-- ===== src/Ubi/Misc/Trim.antt =====
-- modules/ubi/misc.c: what ubi_calc_data_len leaves out, and ubi_check_pattern.
use native.Mathlib.Nat.{mod-eq_of_lt, mod-lt, div-add-mod', mul-mod_left, mul-le-mul_right}
use android_infotm_confident.Prelude.{
  ℕ, zero, suc, ◌+◌, ◌-◌, ◌*◌, ◌/◌, ◌%◌, ◌≤◌, ◌<◌, ◌≡◌, ◌≢◌, refl, ◌==◌, ltb, List, get_or,
  Bool-cases, inl, inr, arith, ◌⊎◌,
}
use android_infotm_confident.Ubi.Misc.{align, data_end, ubi_calc_data_len}

-- `n` bytes of the `l` in `buf` are worth a write in units of `unit` bytes.
pub record Trimmed (unit : ℕ) (buf : List ℕ) (l n : ℕ) : Type 0 where
  pub whole : n % unit ≡ 0
  pub within : n ≤ l
  pub blank : (i : ℕ) → n ≤ i → i < l → get_or buf i 0 ≡ 255
  pub tight : (n ≡ 0) ⊎ ((i : ℕ) × (i < n) × (n ≤ i + unit) × (get_or buf i 0 ≢ 255))

data_end-blank : (buf : List ℕ) (l i : ℕ) → data_end buf l ≤ i → i < l → get_or buf i 0 ≡ 255
unfolding data_end
data_end-blank buf zero i h k = absurd (omega (arith, k))
data_end-blank buf (suc l) i h k = let ih = data_end-blank buf l i in ground (arith, ih)

data_end-last :
    (buf : List ℕ) (l : ℕ)
    → (data_end buf l ≡ 0) ⊎ ((j : ℕ) × (data_end buf l ≡ suc j) × (get_or buf j 0 ≢ 255))
unfolding data_end
data_end-last buf zero = inl refl
data_end-last buf (suc l) = elim (Bool-cases (get_or buf l 0 == 255)) [
  | inl e ↦ rw (e, data_end) (data_end-last buf l)
  | inr e ↦ rw (e, data_end) (inr (l, refl, ground (arith, e)))
]

data_end-within : (buf : List ℕ) (l : ℕ) → data_end buf l ≤ l
unfolding data_end
data_end-within buf zero = omega arith
data_end-within buf (suc l) = ground (arith, data_end-within buf l)

align-bounds : (x a : ℕ) → 0 < a → (x ≤ align x a) × (align x a < x + a)
align-bounds x a h =
    let q = div-add-mod' (x + a - 1) a in
    let m = mod-lt (x + a - 1) h in (omega (arith, q, m), omega (arith, q, m))

multiple_below : (q k a l : ℕ) → l ≡ k * a → q * a < l + a → q * a ≤ l
multiple_below q k a l e h = elim (Bool-cases (ltb k q)) [
  | inl b ↦
      let more : k + 1 ≤ q = ground (arith, b) in
      absurd (omega (arith, e, h, mul-le-mul_right a more))
  | inr b ↦ let less : q ≤ k = ground (arith, b) in omega (arith, e, mul-le-mul_right a less)
]

-- For bytes that fill whole units, ubi_calc_data_len gives a number of whole units within them,
-- such that all bytes from there on are 0xFF, and the last of its units, if there is one, has
-- another byte: what is left out is blank, and no more could be left out.
pub ubi_calc_data_len-Trimmed :
    (unit : ℕ) (buf : List ℕ) (l : ℕ)
    → 0 < unit
    → l % unit ≡ 0
    → Trimmed unit buf l (ubi_calc_data_len unit buf l)
unfolding ubi_calc_data_len
ubi_calc_data_len-Trimmed unit buf l h w =
    let e = data_end buf l in
    let (low, high) = align-bounds e unit h in
    record {
      whole = mul-mod_left ((e + unit - 1) / unit) unit;
      within =
          multiple_below ((e + unit - 1) / unit) (l / unit) unit l
            (omega (arith, w, div-add-mod' l unit)) (omega (arith, high, data_end-within buf l));
      blank = λ i a b. data_end-blank buf l i (omega (arith, low, a)) b;
      tight = elim (data_end-last buf l) [
        | inl z ↦
            let small : align e unit < unit = omega (arith, z, high) in
            inl (omega (arith, mod-eq_of_lt small, mul-mod_left ((e + unit - 1) / unit) unit))
        | inr (j, f, b) ↦ inr (j, omega (arith, f, low), omega (arith, f, high), b)
      ];
    }
