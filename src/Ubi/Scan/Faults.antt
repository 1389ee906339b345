-- ===== src/Ubi/Scan/Faults.antt =====
-- scan.c: ubi_scan_find_seb walks a tree the wrong way.
use android_infotm_confident.Prelude.{
  ℕ, ◌≡◌, refl, Bool, true, false, ◌==◌, if◌then◌else◌, Option, none, some, List, [], ◌∷◌, map,
  arith, Bool-cases, inl, inr,
}
use android_infotm_confident.Ubi.Rb.{Tree, leaf, node, before, inorder, walk, All, Ordered}
use android_infotm_confident.Ubi.Rb.Walk.{All-node, Ordered-node}
use android_infotm_confident.Ubi.Scan.Types.{ScanLeb, ScanVolume}
use android_infotm_confident.Ubi.Scan.{ScanLeb_lnum, ubi_scan_find_seb}

walk-none {ℓ} :
    {A : Type ℓ} (up : Bool) (key : A → ℕ) (k : ℕ) (t : Tree A)
    → All (λ a. (k == a) ≡ false) (map key (inorder t))
    → walk up key k t ≡ none
unfolding walk
walk-none up key k leaf h = refl
walk-none up key k (node l a r) h =
    let (p, q, u) = All-node key (λ a. (k == a) ≡ false) l a r h in
    ground (arith, q, walk-none up key k l p, walk-none up key k r u)

All-apart :
    (k a : ℕ) (up : Bool) (xs : List ℕ)
    → before up a k ≡ true
    → All (λ x. before up x a ≡ true) xs
    → All (λ x. (k == x) ≡ false) xs
All-apart k a up [] b h = tt
All-apart k a true (x ∷ xs) b h = (ground (arith, b, h.0), All-apart k a true xs b h.1)
All-apart k a false (x ∷ xs) b h = (ground (arith, b, h.0), All-apart k a false xs b h.1)

All-apart_above :
    (k a : ℕ) (xs : List ℕ)
    → before true k a ≡ true
    → All (λ x. before true a x ≡ true) xs
    → All (λ x. (k == x) ≡ false) xs
All-apart_above k a [] b h = tt
All-apart_above k a (x ∷ xs) b h = (ground (arith, b, h.0), All-apart_above k a xs b h.1)

-- The entry at the root, if it is the one sought.
abbrev pub at_root : ℕ → Tree ScanLeb → Option ScanLeb
at_root l leaf = none
at_root l (node a seb b) = if l == seb.lnum then some seb else none

-- In a volume whose tree is ordered the way in which ubi_scan_add_used builds it, ubi_scan_find_seb
-- finds the LEB at the root of the tree and no other.
pub ubi_scan_find_seb-at_root :
    (sv : ScanVolume) (l : ℕ)
    → Ordered true ScanLeb_lnum sv.root
    → ubi_scan_find_seb sv l ≡ at_root l sv.root
unfolding ubi_scan_find_seb
ubi_scan_find_seb-at_root sv l o = go sv.root o
  where
    go :
        (t : Tree ScanLeb) → Ordered true ScanLeb_lnum t → walk false ScanLeb_lnum l t ≡ at_root l t
    go leaf o = refl
    go (node a seb b) o =
        let (p, q, u, v) = Ordered-node ScanLeb_lnum true a seb b o in
        elim (Bool-cases (l == seb.lnum)) [
          | inl e ↦ rw (e, walk) refl
          | inr e ↦ elim (Bool-cases (before true seb.lnum l)) [
            | inl g ↦
                rw (e, g, walk)
                  (walk-none false ScanLeb_lnum l a
                    (All-apart l seb.lnum true (map ScanLeb_lnum (inorder a)) g q))
            | inr g ↦
                rw (e, g, walk)
                  (walk-none false ScanLeb_lnum l b (
                    All-apart_above l seb.lnum (map ScanLeb_lnum (inorder b)) (ground (arith, e, g))
                      u))
          ]
        ]
