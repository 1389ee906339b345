-- ===== src/Outcome/Triple.antt =====
-- What is true of a part of the state before an action, and after it where it succeeds.
use mathlib.Core.Path.{subst, sym}
use android_infotm_confident.Prelude.{
  ◌≡◌, refl, Bool, true, false, if◌then◌else◌, ℕ, zero, suc, ◌+◌, arith,
}
use android_infotm_confident.Outcome.{M, fail, skip, for_range, ◌>>=◌}
use android_infotm_confident.Outcome.Keeps.{Keeps, Ends, Ends-mono, Ends-Keeps, bind-Ends}

pub record Triple {ℓ κ μ ν ξ} {S : Type ℓ} {A : Type κ} {W : Type μ} (v : S → W) (P : W → Type ν)
    (m : M S A) (Q : W → Type ξ) : Type (ℓ ⊔ κ ⊔ μ ⊔ ν ⊔ ξ) where
  pub at : (s : S) → P (v s) → Ends (λ _ t. Q (v t)) (m s)

module _ {ℓ μ} {S : Type ℓ} {W : Type μ} (v : S → W) where
  pub Triple-if {κ ν ξ} :
      {A : Type κ} {P : W → Type ν} {Q : W → Type ξ} (b : Bool) (m n : M S A)
      → (b ≡ true → Triple v P m Q)
      → (b ≡ false → Triple v P n Q)
      → Triple v P (if b then m else n) Q
  Triple-if true m n h k = record { at = (h refl).at }
  Triple-if false m n h k = record { at = (k refl).at }

  pub Triple-fail {κ ν ξ} :
      {A : Type κ} {P : W → Type ν} {Q : W → Type ξ} (e : ℕ) → Triple v P (fail {A = A} e) Q
  unfolding fail
  Triple-fail e = record { at = λ s p. tt }

  pub Triple-bind {κ λ' ν ξ ρ} :
      {A : Type κ} {B : Type λ'} {P : W → Type ν} {R : W → Type ξ} {Q : W → Type ρ} (m : M S A)
      (f : A → M S B)
      → Triple v P m R
      → ((a : A) → Triple v R (f a) Q)
      → Triple v P (m >>= f) Q
  unfolding ◌>>=◌
  Triple-bind {R} {Q} m f h k = record {
    at = λ s p.
        bind-Ends (λ _ t. R (v t)) (λ _ t. Q (v t)) (m s) f (h.at s p) (λ a t r. (k a).at t r);
  }

  pub Triple-Keeps {κ ν ξ} :
      {A : Type κ} {P : W → Type ν} {Q : W → Type ξ} (m : M S A)
      → Keeps v m
      → ((w : W) → P w → Q w)
      → Triple v P m Q
  Triple-Keeps {P} {Q} m k i = record {
    at = λ s p.
        Ends-mono (λ _ t. Q (v t)) (λ _ t. v t ≡ v s) (m s) (λ a t e. subst Q (sym e) (i (v s) p))
          (Ends-Keeps v m s k refl);
  }

  -- A counted loop, by what holds after each round.
  pub Triple-for_range {ν} :
      (P : ℕ → W → Type ν) (from n : ℕ) (body : ℕ → M S (Unit {0}))
      → ((i : ℕ) → Triple v (P i) (body i) (P (i + 1)))
      → Triple v (P from) (for_range from n body) (P (from + n))
  unfolding for_range skip
  Triple-for_range P from zero body h = record {
    at = λ s p. subst (λ k. P k (v s)) (omega arith) p;
  }
  Triple-for_range P from (suc n) body h =
      Triple-bind (body from) (λ _. for_range (from + 1) n body) (h from)
        (λ _.
          subst (λ k. Triple v (P (from + 1)) (for_range (from + 1) n body) (P k)) (omega arith)
            (Triple-for_range P (from + 1) n body h))
