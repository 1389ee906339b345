-- ===== src/Outcome/Post.antt =====
-- What holds at the end of an action that does not fault: one statement for success and one for an
-- error.
use android_infotm_confident.Prelude.{
  ◌≡◌, refl, Bool, true, false, if◌then◌else◌, ℕ, ◌==◌, Bool-cases, inl, inr,
}
use android_infotm_confident.Outcome.{Outcome, ok, err, fault, M, bind, check}

abbrev pub Post {ℓ κ} :
    {S : Type ℓ} {A : Type κ} → (A → S → Type 0) → (S → Type 0) → Outcome S A → Type 0
Post Q R (ok a t) = Q a t
Post Q R (err e t) = R t
Post Q R fault = ⊥

-- Success, with a statement on the end.
abbrev pub Returns {ℓ κ} : {S : Type ℓ} {A : Type κ} → (S → Type 0) → Outcome S A → Type 0
Returns Q (ok a t) = Q t
Returns Q (err e t) = ⊥
Returns Q fault = ⊥

module _ {ℓ κ} {S : Type ℓ} {A : Type κ} (R : S → Type 0) where
  pub bind-Post {λ'} :
      {B : Type λ'} (Q : A → S → Type 0) (P : B → S → Type 0) (o : Outcome S A) (f : A → M S B)
      → Post Q R o
      → ((a : A) (t : S) → Q a t → Post P R (f a t))
      → Post P R (bind o f)
  unfolding bind
  bind-Post Q P (ok a t) f h k = k a t h
  bind-Post Q P (err e t) f h k = h
  bind-Post Q P fault f h k = absurd h

  pub Post-if :
      (Q : A → S → Type 0) (b : Bool) (m n : M S A) (s : S)
      → (b ≡ true → Post Q R (m s))
      → (b ≡ false → Post Q R (n s))
      → Post Q R ((if b then m else n) s)
  Post-if Q true m n s h k = h refl
  Post-if Q false m n s h k = k refl

  pub Post-map :
      (Q P : A → S → Type 0) (o : Outcome S A)
      → Post Q R o
      → ((a : A) (t : S) → Q a t → P a t)
      → Post P R o
  Post-map Q P (ok a t) h k = k a t h
  Post-map Q P (err e t) h k = h
  Post-map Q P fault h k = absurd h

pub check-Post {ℓ} :
    {S : Type ℓ} (Q : Unit {0} → S → Type 0) (R : S → Type 0) (e : ℕ) (s : S)
    → Q tt s
    → R s
    → Post Q R (check e s)
unfolding check
check-Post Q R e s h k = elim (Bool-cases (e == 0)) [ inl q ↦ rw q h | inr q ↦ rw q k ]
