-- ===== src/Uftl/IntArray.antt =====
-- The two-level arrays of uftl_core.c against a flat array.
use mathlib.Core.Path.{subst}
use native.Mathlib.Nat.{div-add-mod}
use android_infotm_confident.Prelude.{
  ℕ, ◌+◌, ◌*◌, ◌/◌, ◌%◌, ◌≡◌, sym, ◌∙◌, ◌==◌, if◌then◌else◌, List, some, get_elem?, set,
  get_elem?-set_self, get_elem?-set_ne, lt-length_of_get_elem?, ℤ, pos, arith, Option-cases,
  Bool-cases, inl, inr,
}
use android_infotm_confident.Uftl.Types.{FakeIntArray}
use android_infotm_confident.Uftl.Arrays.{array_get, array_set}

-- Rows and places determine an index.
quot-rem_inj : (i j n : ℕ) → i / n ≡ j / n → i % n ≡ j % n → i ≡ j
quot-rem_inj i j n q r = sym (div-add-mod i n) ∙ (λ k. n * q k + r k) ∙ div-add-mod j n

get_elem?-set {ℓ} :
    {A : Type ℓ} (xs : List A) (i j : ℕ) (v x : A)
    → get_elem? xs i ≡ some x
    → get_elem? (set xs i v) j ≡ (if i == j then some v else get_elem? xs j)
get_elem?-set xs i j v x h = elim (Bool-cases (i == j)) [
  | inl e ↦
      let same : i ≡ j = ground arith in
      rw e (
        subst (λ k. get_elem? (set xs i v) k ≡ some v) same
          (get_elem?-set_self xs i v (lt-length_of_get_elem? xs i h)))
  | inr e ↦ rw e (get_elem?-set_ne xs v (ground arith))
]

-- If array_set accepts a write at an index, then array_get gives the value written at that
-- index, and at every other index what it gave before.
pub array_get-array_set :
    (a b : FakeIntArray) (i j : ℕ) (v : ℤ)
    → array_set a (pos i) v ≡ some b
    → array_get b (pos j) ≡ (if i == j then some v else array_get a (pos j))
unfolding array_get array_set
array_get-array_set a b i j v h = elim (Option-cases (get_elem? a.rows (i / a.num))) [
  | inl e ↦ ground arith
  | inr (row, e) ↦ elim (Option-cases (get_elem? row (i % a.num))) [
    | inl f ↦ ground arith
    | inr (x, f) ↦ ground (
      arith,
      get_elem?-set a.rows (i / a.num) (j / a.num) (set row (i % a.num) v) row e,
      get_elem?-set row (i % a.num) (j % a.num) v x f,
      quot-rem_inj i j a.num,
    )
  ]
]
