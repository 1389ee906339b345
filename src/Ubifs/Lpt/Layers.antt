-- ===== src/Ubifs/Lpt/Layers.antt =====
-- The bytes that pack_bits of lpt.c writes, and the number that is read from them.
use native.Mathlib.Nat.{pow-le-pow_right}
use android_infotm_confident.Prelude.{
  ℕ, zero, suc, ◌+◌, ◌-◌, ◌*◌, ◌/◌, ◌%◌, ◌^◌, ◌≤◌, ◌<◌, ◌≡◌, ◌≢◌, refl, ap, sym, ◌∙◌, ltb, ◌==◌,
  if◌then◌else◌, List, [], ◌∷◌, length, set, get_or, length-set, arith, ◌⊎◌, inl, inr,
}
use android_infotm_confident.Prelude.Bits.{bit_or-add}
use android_infotm_confident.Ubifs.Lpt.BitFields.{u8, put_byte, word}
use android_infotm_confident.Ubifs.Lpt.Shifts.{deeper, upper_small}

pub get_or-set_self : (xs : List ℕ) (i v : ℕ) → i < length xs → get_or (set xs i v) i 0 ≡ v
get_or-set_self [] i v h = elim h [ ]
get_or-set_self (x ∷ xs) zero v h = refl
get_or-set_self (x ∷ xs) (suc i) v h = get_or-set_self xs i v (omega arith)

pub get_or-set_ne : (xs : List ℕ) (i j v : ℕ) → i ≢ j → get_or (set xs i v) j 0 ≡ get_or xs j 0
get_or-set_ne [] i j v h = refl
get_or-set_ne (x ∷ xs) zero zero v h = absurd (h refl)
get_or-set_ne (x ∷ xs) zero (suc j) v h = refl
get_or-set_ne (x ∷ xs) (suc i) zero v h = refl
get_or-set_ne (x ∷ xs) (suc i) (suc j) v h = get_or-set_ne xs i j v (λ e. h (ap suc e))

module _ (p nrbits i val shift : ℕ) (buf : List ℕ) where
  pub length-put_byte : length (put_byte p nrbits i val shift buf) ≡ length buf
  unfolding put_byte
  length-put_byte = ground (arith, length-set buf (p + i) (u8 (val / 2 ^ shift)))

  pub get_or-put_byte :
      (j : ℕ)
      → (8 * i < nrbits → p + i < length buf)
      → get_or (put_byte p nrbits i val shift buf) j 0 ≡ (
          if j == p + i
          then (if ltb (8 * i) nrbits then u8 (val / 2 ^ shift) else get_or buf j 0)
          else get_or buf j 0)
  unfolding put_byte
  get_or-put_byte j h = ground (
    arith,
    get_or-set_self buf (p + i) (u8 (val / 2 ^ shift)),
    get_or-set_ne buf (p + i) j (u8 (val / 2 ^ shift)),
  )

-- The bytes of a number from a place on, and no more of it.
abbrev pub Digits : List ℕ → ℕ → ℕ → ℕ → Type 0
Digits buf p zero val = val ≡ 0
Digits buf p (suc n) val = (get_or buf p 0 ≡ val % 256) × Digits buf (p + 1) n (val / 256)

pub word-Digits : (buf : List ℕ) (p n val : ℕ) → Digits buf p n val → word buf p n ≡ val
unfolding word
word-Digits buf p zero val h = sym h
word-Digits buf p (suc n) val (h, r) =
    ground (arith, word-Digits buf (p + 1) n (val / 256) r, bit_or-add 8 (val % 256) (val / 256))

-- The bytes behind the first one, when pack_bits has been at them.
module _ (p end val s1 s2 s3 s4 : ℕ) (buf : List ℕ) (fits : 8 * p + end ≤ 8 * length buf) where
  abbrev pub one : List ℕ
  one = put_byte p end 1 val s1 buf

  abbrev pub two : List ℕ
  two = put_byte p end 2 val s2 one

  abbrev pub three : List ℕ
  three = put_byte p end 3 val s3 two

  abbrev pub four : List ℕ
  four = put_byte p end 4 val s4 three

  pub lengths : (length one ≡ length buf) × (length two ≡ length buf) × (length three ≡ length buf)
  lengths = ground (
    arith,
    length-put_byte p end 1 val s1 buf,
    length-put_byte p end 2 val s2 one,
    length-put_byte p end 3 val s3 two,
  )

  -- A byte that no layer is about is the one of the buffer; any other is the one of its layer.
  pub at_byte :
      (j : ℕ)
      → get_or four j 0 ≡ (
          if j == p + 4
          then (if ltb 32 end then u8 (val / 2 ^ s4) else get_or buf j 0)
          else if j == p + 3
          then (if ltb 24 end then u8 (val / 2 ^ s3) else get_or buf j 0)
          else if j == p + 2
          then (if ltb 16 end then u8 (val / 2 ^ s2) else get_or buf j 0)
          else if j == p + 1
          then (if ltb 8 end then u8 (val / 2 ^ s1) else get_or buf j 0)
          else get_or buf j 0)
  at_byte j =
      let (l1, l2, l3) = lengths in
      ground (
        arith,
        get_or-put_byte p end 1 val s1 buf j (omega arith),
        get_or-put_byte p end 2 val s2 one j (omega arith),
        get_or-put_byte p end 3 val s3 two j (omega arith),
        get_or-put_byte p end 4 val s4 three j (omega arith),
      )

  pub tower :
      (get_or four p 0 ≡ get_or buf p 0)
      × (8 < end → get_or four (p + 1) 0 ≡ u8 (val / 2 ^ s1))
      × (16 < end → get_or four (p + 2) 0 ≡ u8 (val / 2 ^ s2))
      × (24 < end → get_or four (p + 3) 0 ≡ u8 (val / 2 ^ s3))
      × (32 < end → get_or four (p + 4) 0 ≡ u8 (val / 2 ^ s4))
  tower = (
    ground (arith, at_byte p),
    λ h. ground (arith, at_byte (p + 1)),
    λ h. ground (arith, at_byte (p + 2)),
    λ h. ground (arith, at_byte (p + 3)),
    λ h. ground (arith, at_byte (p + 4)),
  )

-- A number below 2 ^ n is read from the bytes that hold it.
pub word_lem :
    (buf : List ℕ) (p n val : ℕ)
    → 0 < n
    → n ≤ 32
    → val < 2 ^ n
    → get_or buf p 0 ≡ u8 val
    → (8 < n → get_or buf (p + 1) 0 ≡ u8 (val / 2 ^ 8))
    → (16 < n → get_or buf (p + 2) 0 ≡ u8 (val / 2 ^ 16))
    → (24 < n → get_or buf (p + 3) 0 ≡ u8 (val / 2 ^ 24))
    → word buf p ((n + 7) / 8) ≡ val
word_lem buf p n val pos top small b0 b1 b2 b3 = elim count [
  | inl e ↦ rw e (word-Digits buf p 1 val (b0, ground (arith, bound 8 (ground arith))))
  | inr (inl (e, l)) ↦
      rw e (word-Digits buf p 2 val (b0, (b1 l, ground (arith, bound 16 (ground arith)))))
  | inr (inr (inl (e, l))) ↦ rw e (
      word-Digits buf p 3 val
        (b0, (b1 (omega arith), (ground (arith, b2 l), ground (arith, bound 24 (ground arith))))))
  | inr (inr (inr (e, l))) ↦ rw e (
      word-Digits buf p 4 val (
        b0,
        (
          b1 (omega arith),
          (ground (arith, b2 (omega arith)), (ground (arith, b3 l), ground (arith, bound 32 top))),
        ),
      ))
]
  where
    count :
        ((n + 7) / 8 ≡ 1)
        ⊎ (((n + 7) / 8 ≡ 2) × (8 < n))
        ⊎ (((n + 7) / 8 ≡ 3) × (16 < n))
        ⊎ (((n + 7) / 8 ≡ 4) × (24 < n))
    count = ground arith

    bound : (m : ℕ) → n ≤ m → val < 2 ^ m
    bound m h = omega (arith, pow-le-pow_right {n = 2} (omega arith) h)

pub no_fifth : (p end val s : ℕ) (buf : List ℕ) → end ≤ 32 → put_byte p end 4 val s buf ≡ buf
unfolding put_byte
no_fifth p end val s buf h = ground arith

module _ (p nrbits val : ℕ) (buf : List ℕ) where
  -- A field at the beginning of a byte.
  pub aligned :
      0 < nrbits
      → nrbits ≤ 32
      → val < 2 ^ nrbits
      → (fits : 8 * p + nrbits ≤ 8 * length buf)
      → word
          (put_byte p nrbits 3 val 24
            (put_byte p nrbits 2 val 16 (put_byte p nrbits 1 val 8 (set buf p (u8 val)))))
          p
          ((nrbits + 7) / 8)
        ≡ val
  aligned pos top small fits =
      let start = set buf p (u8 val) in
      let within = length-set buf p (u8 val) in
      let (t0, t1, t2, t3, t4) = tower p nrbits val 8 16 24 0 start (omega arith) in
      ap (λ l. word l p ((nrbits + 7) / 8))
        (sym (no_fifth p nrbits val 0 (three p nrbits val 8 16 24 0 start (omega arith)) top))
      ∙ word_lem _ p nrbits val pos top small (t0 ∙ get_or-set_self buf p (u8 val) (omega arith)) t1
          t2 t3

  -- The upper part of a field that begins inside a byte and ends in a later one.
  pub upper_part :
      (b : ℕ)
      → 0 < b
      → b < 8
      → nrbits ≤ 32
      → 8 < nrbits + b
      → val < 2 ^ nrbits
      → (first : ℕ) → (fits : 8 * p + (nrbits + b) ≤ 8 * length buf)
      → word
          (put_byte p (nrbits + b) 4 val (32 - b) (
            put_byte p (nrbits + b) 3 val (24 - b) (
              put_byte p
                (nrbits + b)
                2
                val
                (16 - b)
                (put_byte p (nrbits + b) 1 val (8 - b) (set buf p first)))))
          (p + 1)
          ((nrbits + b + 7) / 8 - 1)
        ≡ val / 2 ^ (8 - b)
  upper_part b pos b8 top more small first fits =
      let start = set buf p first in
      let within = length-set buf p first in
      let (t0, t1, t2, t3, t4) =
        tower p (nrbits + b) val (8 - b) (16 - b) (24 - b) (32 - b) start (omega arith) in
      let (d2, d3, d4) = deeper val b pos b8 in
      ap
        (λ n.
          word (four p (nrbits + b) val (8 - b) (16 - b) (24 - b) (32 - b) start (omega arith))
            (p + 1) n)
        count
      ∙ word_lem _ (p + 1) (nrbits + b - 8) (val / 2 ^ (8 - b)) (omega arith) (omega arith)
          (upper_small val nrbits b b8 more small) (t1 more)
          (λ h. ground (arith, t2 (omega arith), d2)) (λ h. ground (arith, t3 (omega arith), d3))
          (λ h. ground (arith, t4 (omega arith), d4))
    where
      count : (nrbits + b + 7) / 8 - 1 ≡ (nrbits + b - 8 + 7) / 8
      count = omega arith

pub value_at_start :
    (p nrbits val end : ℕ) (buf : List ℕ)
    → end ≡ nrbits
    → 0 < nrbits
    → nrbits ≤ 32
    → val < 2 ^ nrbits
    → 8 * p + nrbits ≤ 8 * length buf
    → word
        (put_byte p end 3 val 24
          (put_byte p end 2 val 16 (put_byte p end 1 val 8 (set buf p (u8 val)))))
        p
        ((end + 7) / 8)
      ≡ val
value_at_start p nrbits val end buf e pos top small fits =
    rw e (aligned p nrbits val buf pos top small fits)
