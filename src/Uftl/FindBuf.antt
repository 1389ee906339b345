-- ===== src/Uftl/FindBuf.antt =====
-- uftl_core.c: which page buffer is found for a sector, after one buffer changes.
use native.Mathlib.Nat.{add-div_right, one-le-pow}
use android_infotm_confident.Prelude.{
  ℕ, zero, suc, ◌+◌, ◌<◌, ◌≡◌, refl, ap, sym, true, false, List, [], ◌∷◌, map, none, some,
  get_elem?, set, length, ℤ, eq_ℤ, eq_ℤ_iff, arith, Bool-cases, inl, inr,
}
use android_infotm_confident.Uftl.Types.{PageBuf}
use android_infotm_confident.Uftl.Sync.{test_bit, set_bit, find_buf}
use android_infotm_confident.Uftl.Buffers.{size_of}

pub test_bit-set_bit : (x k : ℕ) → test_bit (set_bit x k) k ≡ true
unfolding test_bit set_bit
test_bit-set_bit x k = elim (Bool-cases (test_bit x k)) [
  | inl e ↦ rw e e
  | inr e ↦ rw e (rw (add-div_right x (one-le-pow k 2 (omega arith))) (ground arith))
]

-- All the numbers of a list are `n`.
abbrev pub AllEq : ℕ → List ℕ → Type 0
AllEq n [] = Unit
AllEq n (x ∷ xs) = (x ≡ n) × AllEq n xs

pub AllEq-get :
    {n : ℕ} (pool : List PageBuf) (k : ℕ) {b : PageBuf}
    → AllEq n (map size_of pool)
    → get_elem? pool k ≡ some b
    → size_of b ≡ n
AllEq-get [] k h e = cc
AllEq-get (x ∷ xs) zero h e = ground arith
AllEq-get (x ∷ xs) (suc k) h e = AllEq-get xs k h.1 e

-- The first buffer that holds `v`, after one buffer changes.
module _ (v : ℤ) where
  pub find_buf-get :
      (i p : ℕ) (pool : List PageBuf)
      → find_buf v i pool ≡ some p
      → (k : ℕ) × (b : PageBuf) × (p ≡ i + k) × (get_elem? pool k ≡ some b)
  unfolding find_buf
  find_buf-get i p [] h = cc
  find_buf-get i p (b ∷ bs) h = elim (Bool-cases (eq_ℤ v b.sector)) [
    | inl e ↦ (0, b, ground arith, refl)
    | inr e ↦
        let (k, c, q, g) = find_buf-get (i + 1) p bs (ground arith) in (suc k, c, omega arith, g)
  ]

  -- A free buffer that is given to `v` is found, if `v` was nowhere.
  pub find_buf-set :
      (i k : ℕ) (pool : List PageBuf) (c : PageBuf)
      → find_buf v i pool ≡ none
      → k < length pool
      → c.sector ≡ v
      → find_buf v i (set pool k c) ≡ some (i + k)
  unfolding find_buf
  find_buf-set i k [] c h l e = absurd (omega arith)
  find_buf-set i zero (b ∷ bs) c h l e =
      rw ((eq_ℤ_iff v c.sector).1 (sym e)) (ap some (omega arith))
  find_buf-set i (suc k) (b ∷ bs) c h l e = ground (arith, find_buf-set (i + 1) k bs c)

  -- A change that does not touch the sector of the buffer.
  pub find_buf-set_same :
      (i k : ℕ) (pool : List PageBuf) (b c : PageBuf)
      → get_elem? pool k ≡ some b
      → c.sector ≡ b.sector
      → find_buf v i (set pool k c) ≡ find_buf v i pool
  unfolding find_buf
  find_buf-set_same i k [] b c h e = refl
  find_buf-set_same i zero (a ∷ bs) b c h e = ground arith
  find_buf-set_same i (suc k) (a ∷ bs) b c h e = ground (arith, find_buf-set_same (i + 1) k bs b c)

  -- Freeing a buffer brings `v` nowhere.
  pub find_buf-set_ne :
      (i k : ℕ) (pool : List PageBuf) (c : PageBuf)
      → find_buf v i pool ≡ none
      → eq_ℤ v c.sector ≡ false
      → find_buf v i (set pool k c) ≡ none
  unfolding find_buf
  find_buf-set_ne i k [] c h e = refl
  find_buf-set_ne i zero (b ∷ bs) c h e = ground arith
  find_buf-set_ne i (suc k) (b ∷ bs) c h e = ground (arith, find_buf-set_ne (i + 1) k bs c)
