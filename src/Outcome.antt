-- ===== src/Outcome.antt =====
-- Stateful code that may fail: a function of the state into an outcome. A C function that returns
-- an error number keeps the state that it has reached.
pub mod Keeps
pub mod Post
pub mod Triple
use android_infotm_confident.Prelude.{
  ℕ, zero, suc, ◌+◌, ◌≡◌, refl, Bool, true, false, ◌==◌, if◌then◌else◌, Option, none, some,
}

-- `err e` is the return of `-e`. `fault` is undefined behaviour (an access out of bounds, a NULL
-- dereference), a `BUG()`, or a loop that outlives its fuel.
pub data Outcome {ℓ κ} (S : Type ℓ) (A : Type κ) : Type (ℓ ⊔ κ) where
  ok : A → S → Outcome S A
  err : ℕ → S → Outcome S A
  fault : Outcome S A

abbrev pub M {ℓ κ} : Type ℓ → Type κ → Type (ℓ ⊔ κ)
M S A = S → Outcome S A

unfoldable pub bind {ℓ κ μ} :
    {S : Type ℓ} {A : Type κ} {B : Type μ} → Outcome S A → (A → M S B) → Outcome S B
bind (ok a s) f = f a s
bind (err e s) f = err e s
bind fault f = fault

module _ {ℓ κ} {S : Type ℓ} {A : Type κ} where
  unfoldable pub pure : A → M S A
  pure a s = ok a s

  unfoldable pub fail : ℕ → M S A
  fail e s = err e s

  unfoldable pub crash : M S A
  crash s = fault

  unfoldable pub or_fault : Option A → M S A
  or_fault none s = fault
  or_fault (some a) s = ok a s

  -- `ret = m(); if (ret) { handler }`, where the handler goes on from the state reached.
  unfoldable pub recover : M S A → (ℕ → M S A) → M S A
  recover m h s = elim (m s) [ ok a t ↦ ok a t | err e t ↦ h e t | fault ↦ fault ]

module _ {ℓ} {S : Type ℓ} where
  unfoldable pub get_state : M S S
  get_state s = ok s s

  unfoldable pub skip : M S (Unit {0})
  skip s = ok tt s

  unfoldable pub when : Bool → M S (Unit {0}) → M S (Unit {0})
  unfolding skip
  when b m s = elim b [ true ↦ m s | false ↦ skip s ]

  -- `if (ret) return ret;`
  unfoldable pub check : ℕ → M S (Unit {0})
  check e s = if e == 0 then ok tt s else err e s

-- Opening the bind opens the other ways to build an action.
infixl 5 ◌>>=◌ ◌>>◌
unfoldable pub ◌>>=◌ {ℓ κ μ} : {S : Type ℓ} {A : Type κ} {B : Type μ} → M S A → (A → M S B) → M S B
unfolding bind pure fail crash or_fault recover get_state skip when check
◌>>=◌ m f s = bind (m s) f

abbrev pub ◌>>◌ {ℓ κ} : {S : Type ℓ} {B : Type κ} → M S (Unit {0}) → M S B → M S B
m >> k = m >>= λ _. k

module _ {ℓ} {S : Type ℓ} where
  -- `for (i = from; i < from + n; i++) body(i);`
  unfoldable pub for_range : ℕ → ℕ → (ℕ → M S (Unit {0})) → M S (Unit {0})
  for_range from zero body = skip
  for_range from (suc n) body = body from >> for_range (from + 1) n body

pub bind_assoc {ℓ κ μ ν} :
    {S : Type ℓ} {A : Type κ} {B : Type μ} {C : Type ν} (o : Outcome S A) (f : A → M S B)
    (g : B → M S C)
    → bind (bind o f) g ≡ bind o (λ a t. bind (f a t) g)
unfolding bind
bind_assoc (ok a t) f g = refl
bind_assoc (err e t) f g = refl
bind_assoc fault f g = refl
