-- ===== src/Ubifs/Lpt/RoundTrip.antt =====
-- A field that pack_bits packs is what ubifs_unpack_bits unpacks.
use native.Mathlib.Nat.{one-le-pow, mod-lt, mod-eq_of_lt, pow-le-pow_right}
use Prim.Native.Nat.{bit_or}
use android_infotm_confident.Prelude.{
  ℕ, zero, suc, ◌+◌, ◌-◌, ◌*◌, ◌/◌, ◌%◌, ◌^◌, ◌≤◌, ◌<◌, ◌≡◌, ap, sym, ◌∙◌, ltb, ◌==◌, if◌then◌else◌,
  List, length, set, get_or, length-set, arith, ◌⊎◌, inl, inr, Bool-cases,
}
use android_infotm_confident.Prelude.Bits.{bit_or-add, bit_or-add'}
use android_infotm_confident.Ubifs.Lpt.BitFields.{
  BitAddr, u8, u32, put_byte, pack_bits, word, ubifs_unpack_bits,
}
use android_infotm_confident.Ubifs.Lpt.Shifts.{cut_off, join_bits, keep_low, low_bits, multiple}
use android_infotm_confident.Ubifs.Lpt.Layers.{
  four, get_or-set_self, tower, upper_part, value_at_start,
}

-- The two functions at a place inside a byte.
abbrev pub first_byte : List ℕ → ℕ → ℕ → ℕ → ℕ
first_byte buf p b val = u8 (bit_or (get_or buf p 0) (u8 val * 2 ^ b))

pub pack_bits-inside :
    (p b val n : ℕ) (buf : List ℕ)
    → 0 < b
    → pack_bits (record { addr = p; bit = b }) val n buf ≡ (
      put_byte p (n + b) 4 val (32 - b) (
          put_byte p (n + b) 3 val (24 - b) (
            put_byte p
              (n + b)
              2
              val
              (16 - b)
              (put_byte p (n + b) 1 val (8 - b) (set buf p (first_byte buf p b val))))),
      record { addr = p + (n + b) / 8; bit = (n + b) % 8 },
    )
unfolding pack_bits
pack_bits-inside p b val n buf pos = ground arith

abbrev pub upper_word : ℕ → List ℕ → ℕ → ℕ → ℕ
upper_word junk buf p bytes = if bytes == 1 then junk else word buf (p + 1) (bytes - 1)

pub ubifs_unpack_bits-inside :
    (junk p b n : ℕ) (buf : List ℕ)
    → 0 < b
    → ubifs_unpack_bits junk buf (record { addr = p; bit = b }) n ≡ (
      u32 (
            bit_or
              (u32 (upper_word junk buf p ((n + b + 7) / 8) * 2 ^ (8 - b)))
              (get_or buf p 0 / 2 ^ b)
            * 2 ^ (32 - n))
          / 2 ^ (32 - n),
      record { addr = p + (n + b) / 8; bit = (n + b) % 8 },
    )
unfolding ubifs_unpack_bits
ubifs_unpack_bits-inside junk p b n buf pos = ground arith

-- The upper bits and the low bits of what is read.
put_together :
    (upper val b : ℕ)
    → 0 < b
    → b < 8
    → bit_or (u32 (upper * 2 ^ (8 - b))) (val % 2 ^ (8 - b))
      ≡ val % 2 ^ (8 - b) + u32 (upper * 2 ^ (8 - b))
put_together upper val b b0 b8 = rw (multiple upper b b0 b8) (
    bit_or-add' (8 - b) (val % 2 ^ (8 - b)) (upper % 2 ^ (24 + b))
      (mod-lt val (one-le-pow (8 - b) 2 (omega arith))))

joined :
    (upper val b n : ℕ)
    → 0 < b
    → b < 8
    → n ≤ 32
    → val < 2 ^ n
    → ((n + b ≤ 8) ⊎ (upper ≡ val / 2 ^ (8 - b)))
    → bit_or (u32 (upper * 2 ^ (8 - b))) (val % 2 ^ (8 - b)) % 2 ^ n ≡ val
joined upper val b n b0 b8 top small (inl few) =
    ap (λ t. t % 2 ^ n)
      (put_together upper val b b0 b8
        ∙ (ap (λ t. t + u32 (upper * 2 ^ (8 - b))) whole
            ∙ ap (λ t. val + t) (multiple upper b b0 b8)))
    ∙ keep_low (upper % 2 ^ (24 + b)) b n val b0 few small
  where
    whole : val % 2 ^ (8 - b) ≡ val
    whole =
        mod-eq_of_lt
          (omega (arith, pow-le-pow_right {n = 2} (omega arith) {i = n} {j = 8 - b} (omega arith)))
joined upper val b n b0 b8 top small (inr e) =
    ap (λ t. t % 2 ^ n)
      (put_together upper val b b0 b8
        ∙ omega (
          arith,
          ap (λ u. u32 (u * 2 ^ (8 - b))) e,
          join_bits val b
              (omega (arith, pow-le-pow_right {n = 2} (omega arith) {i = n} {j = 32} top)) b0 b8,
        ))
    ∙ mod-eq_of_lt small

-- A field that begins inside a byte.
module _ (junk : ℕ) (buf : List ℕ) (p val n b : ℕ) (top : n ≤ 32) (small : val < 2 ^ n) (b0 : 0 < b)
    (b8 : b < 8) (clear : get_or buf p 0 < 2 ^ b) (pos : 0 < n)
    (fits : 8 * p + (n + b) ≤ 8 * length buf) where
  abbrev packed : List ℕ
  packed =
      four p (n + b) val (8 - b) (16 - b) (24 - b) (32 - b) (set buf p (first_byte buf p b val))
        (omega (arith, length-set buf p (first_byte buf p b val)))

  low_part : get_or packed p 0 / 2 ^ b ≡ val % 2 ^ (8 - b)
  low_part =
      ap (λ t. t / 2 ^ b)
        ((tower p (n + b) val (8 - b) (16 - b) (24 - b) (32 - b)
            (set buf p (first_byte buf p b val))
            (omega (arith, length-set buf p (first_byte buf p b val)))).0
          ∙ (get_or-set_self buf p (first_byte buf p b val) (omega arith)
              ∙ ap u8 (bit_or-add b (get_or buf p 0) (u8 val) clear)))
      ∙ low_bits (get_or buf p 0) val b b0 b8 clear

  high_part : (n + b ≤ 8) ⊎ (upper_word junk packed p ((n + b + 7) / 8) ≡ val / 2 ^ (8 - b))
  high_part = elim (Bool-cases (ltb 8 (n + b))) [
    | inl e ↦ inr (
        ground (
          arith,
          upper_part p n val buf b b0 b8 top (ground arith) small (first_byte buf p b val) fits,
        ))
    | inr e ↦ inl (ground arith)
  ]

  value_inside :
      ubifs_unpack_bits junk packed (record { addr = p; bit = b }) n
      ≡ (val, record { addr = p + (n + b) / 8; bit = (n + b) % 8 })
  value_inside =
      ubifs_unpack_bits-inside junk p b n packed b0
      ∙ ap (λ v. (v, record { addr = p + (n + b) / 8; bit = (n + b) % 8 }))
          (cut_off n _ val top (
            ap
              (λ l.
                bit_or (u32 (upper_word junk packed p ((n + b + 7) / 8) * 2 ^ (8 - b))) l % 2 ^ n)
              low_part
            ∙ joined _ val b n b0 b8 top small high_part))

at_bit :
    (junk : ℕ) (buf : List ℕ) (p b val nrbits : ℕ)
    → b < 8
    → 0 < nrbits
    → nrbits ≤ 32
    → val < 2 ^ nrbits
    → 8 * p + b + nrbits ≤ 8 * length buf
    → (0 < b → get_or buf p 0 < 2 ^ b)
    → ubifs_unpack_bits junk
        (pack_bits (record { addr = p; bit = b }) val nrbits buf).0
        (record { addr = p; bit = b })
        nrbits
      ≡ (val, (pack_bits (record { addr = p; bit = b }) val nrbits buf).1)
unfolding ubifs_unpack_bits pack_bits
at_bit junk buf p zero val nrbits b8 pos top small fits clear =
    ap (λ v. (v, record { addr = p + (nrbits + 0) / 8; bit = (nrbits + 0) % 8 }))
      (cut_off nrbits _ val top (
        ap (λ t. t % 2 ^ nrbits)
          (value_at_start p nrbits val (nrbits + 0) buf (omega arith) pos top small (omega arith))
        ∙ mod-eq_of_lt small))
at_bit junk buf p (suc b) val nrbits b8 pos top small fits clear =
    ap (λ w. ubifs_unpack_bits junk w.0 (record { addr = p; bit = suc b }) nrbits)
      (pack_bits-inside p (suc b) val nrbits buf (omega arith))
    ∙ (value_inside junk buf p val nrbits (suc b) top small (omega arith) b8 (clear (omega arith))
          pos (omega arith)
        ∙ ap (λ w. (val, w.1)) (sym (pack_bits-inside p (suc b) val nrbits buf (omega arith))))

-- For a place in a buffer whose bit is below 8, a field of 1 to 32 bits, a value that fits the
-- field and a buffer that has room for it: if the byte at the place holds nothing from the bit
-- on, unless the bit is 0, then ubifs_unpack_bits at the place in the buffer that pack_bits has
-- packed gives the value, and the same next place as pack_bits.
pub ubifs_unpack_bits-pack_bits :
    (junk : ℕ) (buf : List ℕ) (at : BitAddr) (val nrbits : ℕ)
    → at.bit < 8
    → 0 < nrbits
    → nrbits ≤ 32
    → val < 2 ^ nrbits
    → 8 * at.addr + at.bit + nrbits ≤ 8 * length buf
    → (0 < at.bit → get_or buf at.addr 0 < 2 ^ at.bit)
    → ubifs_unpack_bits junk (pack_bits at val nrbits buf).0 at nrbits
      ≡ (val, (pack_bits at val nrbits buf).1)
ubifs_unpack_bits-pack_bits junk buf at val nrbits b8 pos top small fits clear =
    at_bit junk buf at.addr at.bit val nrbits b8 pos top small fits clear
