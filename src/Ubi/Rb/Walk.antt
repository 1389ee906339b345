-- ===== src/Ubi/Rb/Walk.antt =====
-- A walk of an ordered tree finds the entry with the key.
use mathlib.Core.Path.{subst}
use android_infotm_confident.Prelude.{
  ℕ, ◌≡◌, refl, ap, sym, Bool, true, false, ◌==◌, Option, none, some, List, [], ◌∷◌, ◌++◌, map,
  arith, Bool-cases, inl, inr, ◌⊎◌,
}
use android_infotm_confident.Ubi.Rb.{
  Tree, leaf, node, before, inorder, walk, find, All, After, Until, Sorted, Ordered,
}

pub before_trans :
    (up : Bool) (a b c : ℕ) → before up a b ≡ true → before up b c ≡ true → before up a c ≡ true
before_trans true a b c h k = ground arith
before_trans false a b c h k = ground arith

pub before_ne : (up : Bool) (a b : ℕ) → before up a b ≡ true → (a == b) ≡ false
before_ne true a b h = ground arith
before_ne false a b h = ground arith

pub before_flip :
    (up : Bool) (a b : ℕ) → (a == b) ≡ false → before up a b ≡ false → before up b a ≡ true
before_flip true a b h k = ground arith
before_flip false a b h k = ground arith

pub before_asym : (up : Bool) (a b : ℕ) → before up a b ≡ true → before up b a ≡ false
before_asym true a b h = ground arith
before_asym false a b h = ground arith

pub After-before :
    (up : Bool) (a b : ℕ) (r : List ℕ) → before up a b ≡ true → After up b r → After up a r
After-before up a b [] h s = tt
After-before up a b (c ∷ r) h (s, t) = (before_trans up a b c h s, After-before up a b r h t)

All-split :
    (P : ℕ → Type 0) (xs : List ℕ) (k : ℕ) (ys : List ℕ)
    → All P (xs ++ k ∷ ys)
    → All P xs × P k × All P ys
All-split P [] k ys (h, t) = (tt, h, t)
All-split P (x ∷ xs) k ys (h, t) = let (b, c, d) = All-split P xs k ys t in ((h, b), c, d)

All-join :
    (P : ℕ → Type 0) (xs : List ℕ) (k : ℕ) (ys : List ℕ)
    → All P xs
    → P k
    → All P ys
    → All P (xs ++ k ∷ ys)
All-join P [] k ys b h a = (h, a)
All-join P (x ∷ xs) k ys (c, b) h a = (c, All-join P xs k ys b h a)

-- The parts of an ordered sequence round one of its keys.
Sorted-split :
    (up : Bool) (xs : List ℕ) (k : ℕ) (ys : List ℕ)
    → Sorted up (xs ++ k ∷ ys)
    → Sorted up xs × Until up xs k × After up k ys × Sorted up ys
Sorted-split up [] k ys (a, s) = (tt, tt, a, s)
Sorted-split up (x ∷ xs) k ys (a, s) =
    let (p, q, u, v) = Sorted-split up xs k ys s in
    let (b, c, d) = All-split (λ y. before up x y ≡ true) xs k ys a in ((b, p), (c, q), u, v)

Sorted-join :
    (up : Bool) (xs : List ℕ) (k : ℕ) (ys : List ℕ)
    → Sorted up xs
    → Until up xs k
    → After up k ys
    → Sorted up ys
    → Sorted up (xs ++ k ∷ ys)
Sorted-join up [] k ys s u a t = (a, t)
Sorted-join up (x ∷ xs) k ys (b, s) (h, u) a t = (
  All-join (λ y. before up x y ≡ true) xs k ys b h (After-before up x k ys h a),
  Sorted-join up xs k ys s u a t,
)

module _ {ℓ} {A : Type ℓ} (key : A → ℕ) where
  pub or_find : Option A → Option A → Option A
  or_find (some a) o = some a
  or_find none o = o

  pub find-append :
      (k : ℕ) (xs ys : List A) → find key k (xs ++ ys) ≡ or_find (find key k xs) (find key k ys)
  unfolding or_find
  find-append k [] ys = refl
  find-append k (x ∷ xs) ys = ground (arith, find-append k xs ys)

  pub find-After :
      (up : Bool) (k j : ℕ) (xs : List A)
      → After up j (map key xs)
      → before up k j ≡ true
      → find key k xs ≡ none
  find-After up k j [] a h = refl
  find-After up k j (x ∷ xs) (b, a) h =
      rw (before_ne up k (key x) (before_trans up k j (key x) h b)) (find-After up k j xs a h)

  pub find-After_self :
      (up : Bool) (k : ℕ) (xs : List A) → After up k (map key xs) → find key k xs ≡ none
  find-After_self up k [] a = refl
  find-After_self up k (x ∷ xs) (b, a) = rw (before_ne up k (key x) b) (find-After_self up k xs a)

  pub find-Until :
      (up : Bool) (k j : ℕ) (xs : List A)
      → Until up (map key xs) j
      → (k == j) ≡ true ⊎ (before up j k ≡ true)
      → find key k xs ≡ none
  find-Until up k j [] u h = refl
  find-Until up k j (x ∷ xs) (b, u) (inl h) = rw (apart up x j b h) (find-Until up k j xs u (inl h))
    where
      apart :
          (up : Bool) (x : A) (j : ℕ)
          → before up (key x) j ≡ true
          → (k == j) ≡ true
          → (k == key x) ≡ false
      apart true x j b h = ground arith
      apart false x j b h = ground arith
  find-Until up k j (x ∷ xs) (b, u) (inr h) = rw (apart up x j b h) (find-Until up k j xs u (inr h))
    where
      apart :
          (up : Bool) (x : A) (j : ℕ)
          → before up (key x) j ≡ true
          → before up j k ≡ true
          → (k == key x) ≡ false
      apart true x j b h = ground arith
      apart false x j b h = ground arith

  pub map-inorder :
      (l : Tree A) (a : A) (r : Tree A)
      → map key (inorder l ++ (a ∷ inorder r))
        ≡ map key (inorder l) ++ (key a ∷ map key (inorder r))
  map-inorder l a r = map_append (inorder l) (a ∷ inorder r)
    where
      map_append : (xs ys : List A) → map key (xs ++ ys) ≡ map key xs ++ map key ys
      map_append [] ys = refl
      map_append (x ∷ xs) ys = ap (◌∷◌ (key x)) (map_append xs ys)

  pub All-node :
      (P : ℕ → Type 0) (l : Tree A) (a : A) (r : Tree A)
      → All P (map key (inorder (node l a r)))
      → All P (map key (inorder l)) × P (key a) × All P (map key (inorder r))
  All-node P l a r h =
      All-split P (map key (inorder l)) (key a) (map key (inorder r))
        (subst (All P) (map-inorder l a r) h)

  pub node-All :
      (P : ℕ → Type 0) (l : Tree A) (a : A) (r : Tree A)
      → All P (map key (inorder l))
      → P (key a)
      → All P (map key (inorder r))
      → All P (map key (inorder (node l a r)))
  node-All P l a r p q u =
      subst (All P) (sym (map-inorder l a r))
        (All-join P (map key (inorder l)) (key a) (map key (inorder r)) p q u)

  -- The order of a tree at its root.
  pub Ordered-node :
      (up : Bool) (l : Tree A) (a : A) (r : Tree A)
      → Ordered up key (node l a r)
      → Ordered up key l
        × Until up (map key (inorder l)) (key a)
        × After up (key a) (map key (inorder r))
        × Ordered up key r
  Ordered-node up l a r s =
      Sorted-split up (map key (inorder l)) (key a) (map key (inorder r))
        (subst (Sorted up) (map-inorder l a r) s)

  pub node-Ordered :
      (up : Bool) (l : Tree A) (a : A) (r : Tree A)
      → Ordered up key l
      → Until up (map key (inorder l)) (key a)
      → After up (key a) (map key (inorder r))
      → Ordered up key r
      → Ordered up key (node l a r)
  node-Ordered up l a r p q u v =
      subst (Sorted up) (sym (map-inorder l a r))
        (Sorted-join up (map key (inorder l)) (key a) (map key (inorder r)) p q u v)

  -- A walk of an ordered tree finds what stands first in its sequence.
  pub walk-find :
      (up : Bool) (k : ℕ) (t : Tree A) → Ordered up key t → walk up key k t ≡ find key k (inorder t)
  unfolding walk or_find
  walk-find up k leaf s = refl
  walk-find up k (node l a r) s =
      let (p, q, u, v) = Ordered-node up l a r s in
      elim (Bool-cases (k == key a)) [
        | inl e ↦
            rw (find-append k (inorder l) (a ∷ inorder r))
              (rw (e, find-Until up k (key a) (inorder l) q (inl e)) refl)
        | inr e ↦
            rw (find-append k (inorder l) (a ∷ inorder r))
              (elim (Bool-cases (before up k (key a))) [
                | inl b ↦
                    rw (e, b, find-After up k (key a) (inorder r) u b, walk-find up k l p)
                      (or_find-none (find key k (inorder l)))
                | inr b ↦
                    rw
                      (
                        e,
                        b,
                        find-Until up k (key a) (inorder l) q (inr (before_flip up k (key a) e b)),
                      )
                      (walk-find up k r v)
              ])
      ]
    where
      or_find-none : (o : Option A) → o ≡ or_find o none
      or_find-none none = refl
      or_find-none (some x) = refl
