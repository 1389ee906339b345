-- ===== src/Ubifs/Lpt/Numbers.antt =====
-- The numbers that lpt.c gives to the nodes of the tree.
use native.Mathlib.Nat.{pow-suc, pow-succ', pow-le-pow_right, mul-le-mul_right, mul_assoc}
use Prim.Native.Nat.{bit_or, bit_and}
use android_infotm_confident.Prelude.{
  ℕ, zero, suc, ◌+◌, ◌*◌, ◌/◌, ◌%◌, ◌^◌, ◌≤◌, ◌<◌, ◌≡◌, inl, inr, ap, sym, ◌∙◌, ltb, Bool-cases,
  arith,
}
use android_infotm_confident.Prelude.Bits.{bit_or-add, bit_and-mod}
use android_infotm_confident.Ubifs.Lpt.Dirt.{nnode_num_loop, calc_nnode_num}

-- One round of the loop puts the last digit of the column behind the digits so far.
digit_lem : (col num : ℕ) → bit_or (bit_and col 3) (num * 4) ≡ col % 4 + num * 4
digit_lem col num =
    ap (λ d. bit_or d (num * 4)) (bit_and-mod 2 col) ∙ bit_or-add 2 (col % 4) num (omega arith)

-- A bound on the number of a level, one level further down.
level_lem : (n k row : ℕ) → n * 4 ≤ k → n * 4 ^ suc row ≤ k * 4 ^ row
level_lem n k row h = omega (
  arith,
  mul-le-mul_right (4 ^ row) h,
  mul_assoc n 4 (4 ^ row),
  ap (λ t. n * t) (pow-succ' 4 row),
)

level_lem' : (n k row : ℕ) → k ≤ n * 4 → k * 4 ^ row ≤ n * 4 ^ suc row
level_lem' n k row h = omega (
  arith,
  mul-le-mul_right (4 ^ row) h,
  mul_assoc n 4 (4 ^ row),
  ap (λ t. n * t) (pow-succ' 4 row),
)

loop_range :
    (row col num : ℕ)
    → (num * 4 ^ row ≤ nnode_num_loop row col num)
      × (nnode_num_loop row col num < (num + 1) * 4 ^ row)
unfolding nnode_num_loop
loop_range zero col num = (omega arith, omega arith)
loop_range (suc row) col num =
    let (low, high) = loop_range row (col / 4) (col % 4 + num * 4) in
    let step = ap (λ m. nnode_num_loop row (col / 4) m) (digit_lem col num) in
    (
      omega (arith, low, step, level_lem num (col % 4 + num * 4) row (omega arith)),
      omega (arith, high, step, level_lem' (num + 1) (col % 4 + num * 4 + 1) row (omega arith)),
    )

loop_inj :
    (row c d n m : ℕ)
    → c < 4 ^ row
    → d < 4 ^ row
    → nnode_num_loop row c n ≡ nnode_num_loop row d m
    → (c ≡ d) × (n ≡ m)
unfolding nnode_num_loop
loop_inj zero c d n m p q e = (omega arith, e)
loop_inj (suc row) c d n m p q e =
    let (cols, nums) =
      loop_inj row (c / 4) (d / 4) (c % 4 + n * 4) (d % 4 + m * 4) (omega (arith, pow-suc 4 row))
        (omega (arith, pow-suc 4 row))
        (sym (ap (λ k. nnode_num_loop row (c / 4) k) (digit_lem c n))
          ∙ (e ∙ ap (λ k. nnode_num_loop row (d / 4) k) (digit_lem d m))) in
    (omega arith, omega arith)

-- If calc_nnode_num gives the same number for two rows, each with a column below 4 to the power of
-- that row, then the rows are the same and the columns are the same.
pub calc_nnode_num_inj :
    (r s c d : ℕ)
    → c < 4 ^ r
    → d < 4 ^ s
    → calc_nnode_num r c ≡ calc_nnode_num s d
    → (r ≡ s) × (c ≡ d)
unfolding calc_nnode_num
calc_nnode_num_inj r s c d p q e =
    let rows : r ≡ s = same_row in
    (
      rows,
      (loop_inj r c d 1 1 p (omega (arith, ap (λ k. 4 ^ k) rows))
          (e ∙ ap (λ k. nnode_num_loop k d 1) (sym rows))).0,
    )
  where
    apart : (t u a b : ℕ) → t < u → nnode_num_loop t a 1 < nnode_num_loop u b 1
    apart t u a b h = omega (
      arith,
      (loop_range t a 1).1,
      (loop_range u b 1).0,
      pow-suc 4 t,
      pow-le-pow_right {n = 4} (omega arith) {i = suc t} {j = u} h,
    )

    same_row : r ≡ s
    same_row = elim (Bool-cases (ltb r s)) [
      | inl f ↦ absurd (omega (arith, e, apart r s c d (ground arith)))
      | inr f ↦ elim (Bool-cases (ltb s r)) [
        | inl g ↦ absurd (omega (arith, e, apart s r d c (ground arith)))
        | inr g ↦ ground arith
      ]
    ]
