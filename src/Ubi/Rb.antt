-- ===== src/Ubi/Rb.antt =====
-- The search trees of the driver: struct rb_node with the walks that scan.c writes out. Balancing
-- is lib/rbtree.c of the kernel, a parameter.
pub mod Walk
pub mod Insert
use android_infotm_confident.Prelude.{
  ℕ, ◌<◌, ◌≡◌, Bool, true, false, ◌==◌, ltb, if◌then◌else◌, Option, none, some, List, [], ◌∷◌, ◌++◌,
  map,
}

pub data Tree {ℓ} (A : Type ℓ) : Type ℓ where
  leaf : Tree A
  node : Tree A → A → Tree A → Tree A

-- `true`: the small keys stand on the left.
abbrev pub before : Bool → ℕ → ℕ → Bool
before true a b = ltb a b
before false a b = ltb b a

module _ {ℓ} {A : Type ℓ} where
  abbrev pub inorder : Tree A → List A
  inorder leaf = []
  inorder (node l a r) = inorder l ++ (a ∷ inorder r)

  module _ (up : Bool) (key : A → ℕ) where
    -- while (p) { if (k == key) return p; p = k before key ? p->rb_left : p->rb_right; }
    unfoldable pub walk : ℕ → Tree A → Option A
    walk k leaf = none
    walk k (node l a r) =
        let left = walk k l in
        let right = walk k r in
        if k == key a then some a else if before up k (key a) then left else right

    -- The same walk, which then changes what it has found.
    unfoldable pub amend : ℕ → (A → A) → Tree A → Tree A
    amend k f leaf = leaf
    amend k f (node l a r) =
        let left = amend k f l in
        let right = amend k f r in
        if k == key a
        then node l (f a) r
        else if before up k (key a)
        then node left a r
        else node l a right

    -- rb_link_node where the walk has ended.
    unfoldable pub link : A → Tree A → Tree A
    link x leaf = node leaf x leaf
    link x (node l a r) =
        let left = link x l in
        let right = link x r in if before up (key x) (key a) then node left a r else node l a right

-- rb_insert_color turns nodes round, and keeps their order from left to right.
pub record Balance : Type 1 where
  pub insert_color : {A : Type 0} → Tree A → Tree A
  pub inorder-insert_color : {A : Type 0} (t : Tree A) → inorder (insert_color t) ≡ inorder t

-- The first entry with a key.
module _ {ℓ} {A : Type ℓ} (key : A → ℕ) where
  abbrev pub find : ℕ → List A → Option A
  find k [] = none
  find k (a ∷ r) = let rest = find k r in if k == key a then some a else rest

abbrev pub All : (ℕ → Type 0) → List ℕ → Type 0
All P [] = Unit
All P (a ∷ r) = P a × All P r

-- All keys of a list come after a key, or before it.
abbrev pub After : Bool → ℕ → List ℕ → Type 0
After up k = All (λ a. before up k a ≡ true)

abbrev pub Until : Bool → List ℕ → ℕ → Type 0
Until up r k = All (λ a. before up a k ≡ true) r

abbrev pub Sorted : Bool → List ℕ → Type 0
Sorted up [] = Unit
Sorted up (a ∷ r) = After up a r × Sorted up r

abbrev pub Ordered {ℓ} : {A : Type ℓ} → Bool → (A → ℕ) → Tree A → Type 0
Ordered up key t = Sorted up (map key (inorder t))
