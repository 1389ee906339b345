-- ===== src/Outcome/Keeps.antt =====
-- Actions that leave a part of the state alone, on success and on an error: one rule for each way
-- to build an action.
use mathlib.Core.Path.{subst}
use android_infotm_confident.Prelude.{
  ℕ, zero, suc, ◌+◌, ◌≡◌, refl, ap, Bool, true, false, ◌==◌, if◌then◌else◌, Option, none, some,
  Bool-cases, inl, inr,
}
use android_infotm_confident.Outcome.{
  Outcome, ok, err, fault, M, bind, pure, fail, crash, or_fault, recover, get_state, skip, when,
  check, ◌>>=◌, for_range,
}

-- The state of the outcome shows `w` through `v`.
abbrev pub Stays {ℓ κ μ} :
    {S : Type ℓ} {A : Type κ} {W : Type μ} → (S → W) → W → Outcome S A → Type μ
Stays v w (ok a t) = v t ≡ w
Stays v w (err e t) = v t ≡ w
Stays v w fault = Unit

pub record Keeps {ℓ κ μ} {S : Type ℓ} {A : Type κ} {W : Type μ} (v : S → W) (m : M S A)
    : Type (ℓ ⊔ μ) where
  pub at : (s : S) → Stays v (v s) (m s)

module _ {ℓ κ μ ν} {S : Type ℓ} {A : Type κ} {B : Type μ} {W : Type ν} (v : S → W) where
  pub bind-Stays :
      (w : W) (o : Outcome S A) (f : A → M S B)
      → Stays v w o
      → ((a : A) (t : S) → v t ≡ w → Stays v w (f a t))
      → Stays v w (bind o f)
  unfolding bind
  bind-Stays w (ok a t) f h k = k a t h
  bind-Stays w (err e t) f h k = h
  bind-Stays w fault f h k = tt

module _ {ℓ κ ν} {S : Type ℓ} {A : Type κ} {W : Type ν} {v : S → W} where
  pub Keeps-from : (w : W) (m : M S A) (s : S) → Keeps v m → v s ≡ w → Stays v w (m s)
  Keeps-from w m s k e = subst (λ x. Stays v x (m s)) e (k.at s)

  pub Keeps-pure : (a : A) → Keeps v (pure a)
  unfolding pure
  Keeps-pure a = record { at = λ s. refl }

  pub Keeps-fail : (e : ℕ) → Keeps v (fail {A = A} e)
  unfolding fail
  Keeps-fail e = record { at = λ s. refl }

  pub Keeps-crash : Keeps v (crash {A = A})
  unfolding crash
  Keeps-crash = record { at = λ s. tt }

  pub Keeps-or_fault : (o : Option A) → Keeps v (or_fault o)
  unfolding or_fault
  Keeps-or_fault none = record { at = λ s. tt }
  Keeps-or_fault (some a) = record { at = λ s. refl }

  pub Keeps-if : (b : Bool) (m n : M S A) → Keeps v m → Keeps v n → Keeps v (if b then m else n)
  Keeps-if true m n km kn = km
  Keeps-if false m n km kn = kn

  recover-Stays :
      (w : W) (o : Outcome S A) (h : ℕ → M S A)
      → Stays v w o
      → ((e : ℕ) → Keeps v (h e))
      → Stays v w (elim o [ ok a t ↦ ok a t | err e t ↦ h e t | fault ↦ fault ])
  recover-Stays w (ok a t) h e k = e
  recover-Stays w (err c t) h e k = Keeps-from w (h c) t (k c) e
  recover-Stays w fault h e k = tt

  pub Keeps-recover :
      (m : M S A) (h : ℕ → M S A) → Keeps v m → ((e : ℕ) → Keeps v (h e)) → Keeps v (recover m h)
  unfolding recover
  Keeps-recover m h km kh = record { at = λ s. recover-Stays (v s) (m s) h (km.at s) kh }

module _ {ℓ ν} {S : Type ℓ} {W : Type ν} {v : S → W} where
  pub Keeps-get_state : Keeps v get_state
  unfolding get_state
  Keeps-get_state = record { at = λ s. refl }

  pub Keeps-skip : Keeps v skip
  unfolding skip
  Keeps-skip = record { at = λ s. refl }

  pub Keeps-when : (b : Bool) (m : M S (Unit {0})) → Keeps v m → Keeps v (when b m)
  unfolding when skip
  Keeps-when true m k = record { at = λ s. k.at s }
  Keeps-when false m k = record { at = λ s. refl }

  pub Keeps-check : (e : ℕ) → Keeps v (check e)
  unfolding check
  Keeps-check e = elim (Bool-cases (e == 0)) [
    | inl h ↦ record { at = λ s. rw h refl }
    | inr h ↦ record { at = λ s. rw h refl }
  ]

module _ {ℓ κ μ ν} {S : Type ℓ} {A : Type κ} {B : Type μ} {W : Type ν} {v : S → W} where
  pub Keeps-bind :
      (m : M S A) (f : A → M S B) → Keeps v m → ((a : A) → Keeps v (f a)) → Keeps v (m >>= f)
  unfolding ◌>>=◌
  Keeps-bind m f km kf = record {
    at = λ s. bind-Stays v (v s) (m s) f (km.at s) (λ a t e. Keeps-from (v s) (f a) t (kf a) e);
  }

module _ {ℓ ν} {S : Type ℓ} {W : Type ν} {v : S → W} where
  pub Keeps-for_range :
      (from n : ℕ) (body : ℕ → M S (Unit {0}))
      → ((i : ℕ) → Keeps v (body i))
      → Keeps v (for_range from n body)
  unfolding for_range
  Keeps-for_range from zero body k = Keeps-skip
  Keeps-for_range from (suc n) body k =
      Keeps-bind (body from) (λ _. for_range (from + 1) n body) (k from)
        (λ _. Keeps-for_range (from + 1) n body k)

-- If the outcome is a success, the result and the state are in `Q`.
abbrev pub Ends {ℓ κ μ} : {S : Type ℓ} {A : Type κ} → (A → S → Type μ) → Outcome S A → Type μ
Ends Q (ok a t) = Q a t
Ends Q (err e t) = Unit
Ends Q fault = Unit

module _ {ℓ κ μ ν ξ} {S : Type ℓ} {A : Type κ} {B : Type μ} where
  pub bind-Ends :
      (P : A → S → Type ν) (Q : B → S → Type ξ) (o : Outcome S A) (f : A → M S B)
      → Ends P o
      → ((a : A) (t : S) → P a t → Ends Q (f a t))
      → Ends Q (bind o f)
  unfolding bind
  bind-Ends P Q (ok a t) f h k = k a t h
  bind-Ends P Q (err e t) f h k = tt
  bind-Ends P Q fault f h k = tt

module _ {ℓ κ ν} {S : Type ℓ} {A : Type κ} {W : Type ν} (v : S → W) where
  Ends-Stays : (w : W) (o : Outcome S A) → Stays v w o → Ends (λ _ t. v t ≡ w) o
  Ends-Stays w (ok a t) h = h
  Ends-Stays w (err e t) h = tt
  Ends-Stays w fault h = tt

  pub Ends-Keeps : {w : W} (m : M S A) (s : S) → Keeps v m → v s ≡ w → Ends (λ _ t. v t ≡ w) (m s)
  Ends-Keeps {w} m s k e = Ends-Stays w (m s) (Keeps-from w m s k e)

module _ {ℓ κ μ} {S : Type ℓ} {A : Type κ} (Q : A → S → Type μ) where
  pub Ends-ok : {o : Outcome S A} {a : A} {t : S} → Ends Q o → o ≡ ok a t → Q a t
  Ends-ok h e = subst (Ends Q) e h

  pub Ends-mono {ν} :
      (P : A → S → Type ν) (o : Outcome S A)
      → ((a : A) (t : S) → P a t → Q a t)
      → Ends P o
      → Ends Q o
  Ends-mono P (ok a t) k h = k a t h
  Ends-mono P (err e t) k h = tt
  Ends-mono P fault k h = tt

pub Ends-both {ℓ κ μ ν ξ} :
    {S : Type ℓ} {A : Type κ} {P : A → S → Type μ} {R : A → S → Type ν} {Q : A → S → Type ξ}
    (o : Outcome S A)
    → Ends P o
    → Ends R o
    → ((a : A) (t : S) → P a t → R a t → Q a t)
    → Ends Q o
Ends-both (ok a t) h r k = k a t h r
Ends-both (err e t) h r k = tt
Ends-both fault h r k = tt

-- What shows less is kept too.
pub Keeps-ap {ℓ κ μ ν} :
    {S : Type ℓ} {A : Type κ} {W : Type μ} {X : Type ν} {v : S → W} (g : W → X) (m : M S A)
    → Keeps v m
    → Keeps (λ s. g (v s)) m
Keeps-ap {S} {A} {W} {X} {v} g m k = record { at = λ s. go s (m s) (k.at s) }
  where
    go : (s : S) (o : Outcome S A) → Stays v (v s) o → Stays (λ t. g (v t)) (g (v s)) o
    go s (ok a t) h = ap g h
    go s (err e t) h = ap g h
    go s fault h = tt

pub ruleset keeps_rules = (
  Keeps-pure, Keeps-fail, Keeps-crash, Keeps-or_fault, Keeps-if, Keeps-recover, Keeps-get_state,
  Keeps-skip, Keeps-when, Keeps-check, Keeps-bind, Keeps-for_range,
)
