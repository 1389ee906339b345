-- ===== src/Ubi/Rb/Insert.antt =====
-- What a walk finds after an entry has been linked, changed, or the tree balanced.
use mathlib.Core.Path.{subst}
use mathlib.Core.Option
use android_infotm_confident.Prelude.{
  ℕ, ◌≡◌, refl, ap, sym, ◌∙◌, Bool, true, ◌==◌, if◌then◌else◌, none, some, ◌∷◌, ◌++◌, map, arith,
  Bool-cases, inl, inr,
}
use android_infotm_confident.Ubi.Rb.{
  Tree, leaf, node, before, inorder, walk, amend, link, Balance, All, Ordered, Sorted, find,
}
use android_infotm_confident.Ubi.Rb.Walk.{
  Ordered-node, node-Ordered, All-node, node-All, map-inorder, walk-find, before_flip,
}

module _ {ℓ} {A : Type ℓ} (up : Bool) (key : A → ℕ) where
  pub walk-link :
      (x : A) (t : Tree A) (j : ℕ)
      → walk up key (key x) t ≡ none
      → walk up key j (link up key x t) ≡ (if j == key x then some x else walk up key j t)
  unfolding walk link
  walk-link x leaf j h = ground arith
  walk-link x (node l a r) j h = ground (arith, walk-link x l j, walk-link x r j)

  pub walk-amend :
      (k : ℕ) (f : A → A) (t : Tree A) (j : ℕ)
      → ((a : A) → key (f a) ≡ key a)
      → walk up key j (amend up key k f t)
        ≡ (if j == k then Option.map f (walk up key j t) else walk up key j t)
  unfolding walk amend
  walk-amend k f leaf j h = ground arith
  walk-amend k f (node l a r) j h = ground (arith, h a, walk-amend k f l j h, walk-amend k f r j h)

  -- What All says of the keys, it says of the keys with the new one.
  All-link :
      (P : ℕ → Type 0) (x : A) (t : Tree A)
      → All P (map key (inorder t))
      → P (key x)
      → All P (map key (inorder (link up key x t)))
  unfolding link
  All-link P x leaf h p = (p, tt)
  All-link P x (node l a r) h p =
      let (u, q, v) = All-node key P l a r h in
      elim (Bool-cases (before up (key x) (key a))) [
        | inl b ↦ rw b (node-All key P (link up key x l) a r (All-link P x l u p) q v)
        | inr b ↦ rw b (node-All key P l a (link up key x r) u q (All-link P x r v p))
      ]

  -- The new entry stands where the order wants it.
  pub link-Ordered :
      (x : A) (t : Tree A)
      → Ordered up key t
      → walk up key (key x) t ≡ none
      → Ordered up key (link up key x t)
  unfolding link walk
  link-Ordered x leaf s h = (tt, tt)
  link-Ordered x (node l a r) s h =
      let (p, q, u, v) = Ordered-node key up l a r s in
      elim (Bool-cases (before up (key x) (key a))) [
        | inl b ↦ rw b (
            node-Ordered key up (link up key x l) a r (link-Ordered x l p (ground (arith, b, h)))
              (All-link (λ c. before up c (key a) ≡ true) x l q b) u v)
        | inr b ↦ rw b (
            node-Ordered key up l a (link up key x r) p q
              (All-link (λ c. before up (key a) c ≡ true) x r u
                (before_flip up (key x) (key a) (ground (arith, h)) b))
              (link-Ordered x r v (ground (arith, b, h))))
      ]

  amend-keys :
      (k : ℕ) (f : A → A) (t : Tree A)
      → ((a : A) → key (f a) ≡ key a)
      → map key (inorder (amend up key k f t)) ≡ map key (inorder t)
  unfolding amend
  amend-keys k f leaf h = refl
  amend-keys k f (node l a r) h = elim (Bool-cases (k == key a)) [
    | inl e ↦ rw e (
        map-inorder key l (f a) r
        ∙ ap (λ c. map key (inorder l) ++ (c ∷ map key (inorder r))) (h a)
        ∙ sym (map-inorder key l a r))
    | inr e ↦ elim (Bool-cases (before up k (key a))) [
      | inl b ↦
          rw (e, b)
            (map-inorder key (amend up key k f l) a r
              ∙ ap (λ ks. ks ++ (key a ∷ map key (inorder r))) (amend-keys k f l h)
              ∙ sym (map-inorder key l a r))
      | inr b ↦
          rw (e, b)
            (map-inorder key l a (amend up key k f r)
              ∙ ap (λ ks. map key (inorder l) ++ (key a ∷ ks)) (amend-keys k f r h)
              ∙ sym (map-inorder key l a r))
    ]
  ]

  pub amend-Ordered :
      (k : ℕ) (f : A → A) (t : Tree A)
      → ((a : A) → key (f a) ≡ key a)
      → Ordered up key t
      → Ordered up key (amend up key k f t)
  amend-Ordered k f t h s = subst (Sorted up) (sym (amend-keys k f t h)) s

module _ (B : Balance) {A : Type 0} (up : Bool) (key : A → ℕ) where
  pub insert_color-Ordered : (t : Tree A) → Ordered up key t → Ordered up key (B.insert_color t)
  insert_color-Ordered t s = subst (λ xs. Sorted up (map key xs)) (sym (B.inorder-insert_color t)) s

  -- An entry linked where the walk for it has ended, and the tree then balanced.
  pub walk-insert :
      (x : A) (t : Tree A) (j : ℕ)
      → Ordered up key t
      → walk up key (key x) t ≡ none
      → walk up key j (B.insert_color (link up key x t))
        ≡ (if j == key x then some x else walk up key j t)
  walk-insert x t j s h =
      let o = link-Ordered up key x t s h in
      walk-find key up j _ (insert_color-Ordered _ o)
      ∙ ap (find key j) (B.inorder-insert_color (link up key x t))
      ∙ sym (walk-find key up j (link up key x t) o)
      ∙ walk-link up key x t j h
