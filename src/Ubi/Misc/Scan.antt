-- ===== src/Ubi/Misc/Scan.antt =====
-- modules/ubi/misc.c: what ubi_check_volume says of a volume.
use mathlib.Core.Path.{subst}
use android_infotm_confident.Prelude.{
  ℕ, zero, suc, ◌+◌, ◌-◌, ◌≤◌, ◌<◌, ◌≡◌, ◌≢◌, refl, sym, Bool, false, not, ◌==◌, if◌then◌else◌,
  arith, ℤ, pos, negsuc, eq_ℤ, Bool-cases, inl, inr,
}
use android_infotm_confident.Ubi.Misc.{ebadmsg, check_from, ubi_check_volume}

-- What ubi_check_volume makes of the value that a failed read returns.
abbrev pub answer : ℤ → ℤ
answer (pos code) = pos code
answer (negsuc e) = if e + 1 == ebadmsg then pos 1 else negsuc e

fails : (z : ℤ) → z ≢ pos 0 → eq_ℤ z (pos 0) ≡ false
fails (pos n) h = ground arith
fails (negsuc n) h = refl

answered : (z : ℤ) → (if eq_ℤ z (negsuc (ebadmsg - 1)) then pos 1 else z) ≡ answer z
answered (pos n) = refl
answered (negsuc n) = ground arith

module _ (read : ℕ → ℕ → ℤ) (usable last used : ℕ) where
  -- The value that reading an eraseblock of the volume returns.
  abbrev pub read_result : ℕ → ℤ
  read_result i = read i (if i == used - 1 then last else usable)

  -- The answer where eraseblock `n` is the first that cannot be read; `n` is `used` if all can.
  abbrev pub verdict : ℕ → ℤ
  verdict n = if n == used then pos 0 else answer (read_result n)

  no_end : (n : ℕ) → n < used → (n == used) ≡ false
  no_end n h = ground (arith, h)

  check_from-verdict :
      (n i m : ℕ)
      → i + m ≡ used
      → i ≤ n
      → n ≤ used
      → ((j : ℕ) → j < n → read_result j ≡ pos 0)
      → (n < used → read_result n ≢ pos 0)
      → check_from read usable last used i m ≡ verdict n
  unfolding check_from
  check_from-verdict n i zero e a b good bad = ground (arith, e, a, b)
  check_from-verdict n i (suc m) e a b good bad = elim (Bool-cases (i == n)) [
    | inl q ↦
        let k : i ≡ n = ground (arith, q) in
        subst (λ j. check_from read usable last used j (suc m) ≡ verdict n) (sym k)
          (rw
            (
              fails (read_result n) (bad (omega (arith, e, k))),
              no_end n (omega (arith, e, k)),
              check_from,
            )
            (answered (read_result n)))
    | inr q ↦
        let l : i < n = ground (arith, q, a) in
        let r = check_from-verdict n (i + 1) m (omega (arith, e)) (omega (arith, l)) b good bad in
        rw (good i l, check_from) r
  ]

  -- For a volume whose eraseblocks before `n` can be read, and `n` cannot if it is one of the volume:
  -- of a static volume ubi_check_volume answers 0 where this means that all of them can be read,
  -- 1 where `n` is damaged, and otherwise what reading `n` returned, a negative error number or a
  -- positive code; it is -ENOMEM (12) where there is no memory for the check, and 0 for a dynamic
  -- volume.
  pub ubi_check_volume-verdict :
      (n : ℕ) (is_static got : Bool)
      → n ≤ used
      → ((j : ℕ) → j < n → read_result j ≡ pos 0)
      → (n < used → read_result n ≢ pos 0)
      → ubi_check_volume is_static got read usable last used
        ≡ (if not is_static then pos 0 else if not got then negsuc 11 else verdict n)
  unfolding ubi_check_volume
  ubi_check_volume-verdict n is_static got b good bad =
      let r = check_from-verdict n 0 used (omega arith) (omega arith) b good bad in
      ground (arith, r)
