-- ===== src/Ubifs/Lpt/Shifts.antt =====
-- Shifts of 32-bit values and of bytes, for the bit fields of lpt.c.
use native.Mathlib.Nat.{
  pow-suc, one-le-pow, mod-lt, mod-eq_of_lt, mul_assoc, add-mul-mod_self_right, div-add-mod',
  mul-div_cancel, div-lt_iff_lt-mul, mul-lt-mul_of_pos_right, add-mul,
}
use android_infotm_confident.Prelude.{
  ℕ, zero, suc, ◌+◌, ◌-◌, ◌*◌, ◌/◌, ◌%◌, ◌^◌, ◌≤◌, ◌<◌, ◌≡◌, ap, sym, ◌∙◌, arith,
}
use android_infotm_confident.Ubifs.Lpt.BitFields.{u8, u32}

pub shift_suc : (m n : ℕ) → suc m + n ≡ suc (m + n)
shift_suc m n = omega arith

pub pow-add : (m n : ℕ) → 2 ^ (m + n) ≡ 2 ^ m * 2 ^ n
pow-add zero n = grind arith
pow-add (suc m) n =
    grind (arith, ap (λ t. 2 ^ t) (shift_suc m n), pow-suc 2 (m + n), pow-suc 2 m, pow-add m n)

-- A left shift by `k` in 32 bits and back keeps the low bits.
pub shift_back : (n k x : ℕ) → n + k ≡ 32 → u32 (x * 2 ^ k) / 2 ^ k ≡ x % 2 ^ n
shift_back n k x h =
    ap (λ t. t / 2 ^ k)
      (ap (λ m. x * 2 ^ k % m) whole
        ∙ (ap (λ t. t % (2 ^ n * 2 ^ k)) parts
            ∙ (add-mul-mod_self_right (x % 2 ^ n * 2 ^ k) (x / 2 ^ n) (2 ^ n * 2 ^ k)
                ∙ mod-eq_of_lt small)))
    ∙ mul-div_cancel (x % 2 ^ n) (one-le-pow k 2 (omega arith))
  where
    whole : 2 ^ 32 ≡ 2 ^ n * 2 ^ k
    whole = ap (λ t. 2 ^ t) (sym h) ∙ pow-add n k

    parts : x * 2 ^ k ≡ x % 2 ^ n * 2 ^ k + x / 2 ^ n * (2 ^ n * 2 ^ k)
    parts = omega (
      arith,
      div-add-mod' x (2 ^ n),
      ap (λ t. t * 2 ^ k) (div-add-mod' x (2 ^ n)),
      mul_assoc (x / 2 ^ n) (2 ^ n) (2 ^ k),
      add-mul (x / 2 ^ n * 2 ^ n) (x % 2 ^ n) (2 ^ k),
    )

    small : x % 2 ^ n * 2 ^ k < 2 ^ n * 2 ^ k
    small =
        mul-lt-mul_of_pos_right (mod-lt x (one-le-pow n 2 (omega arith)))
          (one-le-pow k 2 (omega arith))

-- A statement about a bit in a byte, other than the first, bit by bit.
pub by_bit :
    (P : ℕ → Type 0) → P 1 → P 2 → P 3 → P 4 → P 5 → P 6 → P 7 → (b : ℕ) → 0 < b → b < 8 → P b
by_bit P p1 p2 p3 p4 p5 p6 p7 zero pos top = absurd (omega arith)
by_bit P p1 p2 p3 p4 p5 p6 p7 (suc zero) pos top = p1
by_bit P p1 p2 p3 p4 p5 p6 p7 (suc (suc zero)) pos top = p2
by_bit P p1 p2 p3 p4 p5 p6 p7 (suc (suc (suc zero))) pos top = p3
by_bit P p1 p2 p3 p4 p5 p6 p7 (suc (suc (suc (suc zero)))) pos top = p4
by_bit P p1 p2 p3 p4 p5 p6 p7 (suc (suc (suc (suc (suc zero))))) pos top = p5
by_bit P p1 p2 p3 p4 p5 p6 p7 (suc (suc (suc (suc (suc (suc zero)))))) pos top = p6
by_bit P p1 p2 p3 p4 p5 p6 p7 (suc (suc (suc (suc (suc (suc (suc zero))))))) pos top = p7
by_bit P p1 p2 p3 p4 p5 p6 p7 (suc (suc (suc (suc (suc (suc (suc (suc b)))))))) pos top =
    absurd (omega arith)

-- The low bits of a value stand in the upper bits of the byte that it starts in.
pub low_bits :
    (old val b : ℕ)
    → 0 < b
    → b < 8
    → old < 2 ^ b
    → u8 (old + u8 val * 2 ^ b) / 2 ^ b ≡ val % 2 ^ (8 - b)
low_bits old val b pos top =
    by_bit (λ b. old < 2 ^ b → u8 (old + u8 val * 2 ^ b) / 2 ^ b ≡ val % 2 ^ (8 - b))
      (λ h. omega arith) (λ h. omega arith) (λ h. omega arith) (λ h. omega arith) (λ h. omega arith)
      (λ h. omega arith) (λ h. omega arith) b pos top

-- The upper bits of a value, and the low ones, are the value.
pub join_bits :
    (val b : ℕ)
    → val < 2 ^ 32
    → 0 < b
    → b < 8
    → u32 (val / 2 ^ (8 - b) * 2 ^ (8 - b)) + val % 2 ^ (8 - b) ≡ val
join_bits val b small =
    by_bit (λ b. u32 (val / 2 ^ (8 - b) * 2 ^ (8 - b)) + val % 2 ^ (8 - b) ≡ val) (omega arith)
      (omega arith) (omega arith) (omega arith) (omega arith) (omega arith) (omega arith) b

-- A shift to the left in 32 bits leaves a multiple.
pub multiple : (x b : ℕ) → 0 < b → b < 8 → u32 (x * 2 ^ (8 - b)) ≡ x % 2 ^ (24 + b) * 2 ^ (8 - b)
multiple x =
    by_bit (λ b. u32 (x * 2 ^ (8 - b)) ≡ x % 2 ^ (24 + b) * 2 ^ (8 - b)) (omega arith) (omega arith)
      (omega arith) (omega arith) (omega arith) (omega arith) (omega arith)

-- What a byte has above the field does not matter where the whole field ends in it.
pub keep_low :
    (x b n val : ℕ) → 0 < b → n + b ≤ 8 → val < 2 ^ n → (val + x * 2 ^ (8 - b)) % 2 ^ n ≡ val
keep_low x b n val pos top small =
    ap (λ t. (val + t) % 2 ^ n) split
    ∙ (add-mul-mod_self_right val (x * 2 ^ (8 - b - n)) (2 ^ n) ∙ mod-eq_of_lt small)
  where
    split : x * 2 ^ (8 - b) ≡ x * 2 ^ (8 - b - n) * 2 ^ n
    split = omega (
      arith,
      ap (λ t. x * 2 ^ t) (the_sum),
      ap (λ t. x * t) (pow-add (8 - b - n) n),
      mul_assoc x (2 ^ (8 - b - n)) (2 ^ n),
    )
      where
        the_sum : 8 - b ≡ (8 - b - n) + n
        the_sum = omega arith

-- A value that fits comes through the two shifts that cut off the bits above it.
pub cut_off : (n x val : ℕ) → n ≤ 32 → x % 2 ^ n ≡ val → u32 (x * 2 ^ (32 - n)) / 2 ^ (32 - n) ≡ val
cut_off n x val top h = shift_back n (32 - n) x (omega arith) ∙ h

-- The bytes of a value that begins inside a byte are those of its upper part.
pub deeper :
    (val b : ℕ)
    → 0 < b
    → b < 8
    → (val / 2 ^ (16 - b) ≡ val / 2 ^ (8 - b) / 2 ^ 8)
      × (val / 2 ^ (24 - b) ≡ val / 2 ^ (8 - b) / 2 ^ 16)
      × (val / 2 ^ (32 - b) ≡ val / 2 ^ (8 - b) / 2 ^ 24)
deeper val =
    by_bit
      (λ b.
        (val / 2 ^ (16 - b) ≡ val / 2 ^ (8 - b) / 2 ^ 8)
        × (val / 2 ^ (24 - b) ≡ val / 2 ^ (8 - b) / 2 ^ 16)
        × (val / 2 ^ (32 - b) ≡ val / 2 ^ (8 - b) / 2 ^ 24))
      (omega arith, omega arith, omega arith) (omega arith, omega arith, omega arith)
      (omega arith, omega arith, omega arith) (omega arith, omega arith, omega arith)
      (omega arith, omega arith, omega arith) (omega arith, omega arith, omega arith)
      (omega arith, omega arith, omega arith)

pub upper_small :
    (val n b : ℕ) → b < 8 → 8 < n + b → val < 2 ^ n → val / 2 ^ (8 - b) < 2 ^ (n + b - 8)
upper_small val n b b8 more small =
    (div-lt_iff_lt-mul (one-le-pow (8 - b) 2 (omega arith))).1
      (omega (arith, ap (λ t. 2 ^ t) the_sum, pow-add (n + b - 8) (8 - b)))
  where
    the_sum : n ≡ (n + b - 8) + (8 - b)
    the_sum = omega arith
