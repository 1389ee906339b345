-- ===== src/Ubi/Scan/Found.antt =====
-- scan.c: the outcome of ubi_scan.
use mathlib.Core.Path.{subst}
use mathlib.Core.Option
use mathlib.Core.List.{map-append}
use android_infotm_confident.Prelude.{
  ℕ, ◌+◌, ◌≡◌, refl, ap, sym, ◌∙◌, Bool, true, false, Option, none, some, List, [], ◌∷◌, ◌++◌, map,
  arith,
}
use android_infotm_confident.Outcome.Keeps.{Ends}
use android_infotm_confident.Outcome.Triple.{Triple, Triple-bind, Triple-Keeps, Triple-for_range}
use android_infotm_confident.Ubi.Rb.{Tree, leaf, node, Balance, walk, inorder, Ordered, Sorted}
use android_infotm_confident.Ubi.Scan.Types.{Flash, ScanLeb, ScanVolume}
use android_infotm_confident.Ubi.Scan.{ScanVolume_vol_id, ScanLeb_lnum}
use android_infotm_confident.Ubi.Scan.Chosen.{Kept, Scanned}
use android_infotm_confident.Ubi.Scan.View.{leb_at, leb_in, volume_at, Neat, NeatVolume}
use android_infotm_confident.Ubi.Scan.Upto.{Upto, Tame}
use android_infotm_confident.Ubi.Scan.Frame.{
  vols, alloc-Keeps, calc_mean_ec-Keeps, check_what_we_have-Keeps,
}
use android_infotm_confident.Ubi.Scan.Process.{
  tree_map, known_seb, known_volume, fill_unknown_ec, fresh_info, process_eb, ubi_scan,
}
use android_infotm_confident.Ubi.Scan.Whole.{process_eb-Round}

-- What a walk finds in a tree whose entries have all been changed.
walk-tree_map {ℓ} :
    {A : Type ℓ} (up : Bool) (key : A → ℕ) (f : A → A) (k : ℕ) (t : Tree A)
    → ((a : A) → key (f a) ≡ key a)
    → walk up key k (tree_map f t) ≡ Option.map f (walk up key k t)
unfolding walk
walk-tree_map up key f k leaf h = refl
walk-tree_map up key f k (node l a r) h =
    ground (arith, h a, walk-tree_map up key f k l h, walk-tree_map up key f k r h)

leb_at-fill :
    (m : ℕ) (vs : Tree ScanVolume) (v l : ℕ)
    → leb_at (tree_map (known_volume m) vs) v l ≡ Option.map (known_seb m) (leb_at vs v l)
leb_at-fill m vs v l =
    ap (leb_in l) (walk-tree_map false ScanVolume_vol_id (known_volume m) v vs (λ a. refl))
    ∙ inside (volume_at vs v)
  where
    inside :
        (o : Option ScanVolume)
        → leb_in l (Option.map (known_volume m) o) ≡ Option.map (known_seb m) (leb_in l o)
    inside none = refl
    inside (some sv) = walk-tree_map true ScanLeb_lnum (known_seb m) l sv.root (λ a. refl)

-- For each LEB, what the tree holds is the newest sound copy among the eraseblocks below a number.
abbrev pub Newest : Flash → ℕ → Tree ScanVolume → Type 0
Newest F n vs = (v l : ℕ) → Kept F (Upto F n) v l (leb_at vs v l)

abbrev pub IsOutcome : Flash → ℕ → Tree ScanVolume → Type 0
IsOutcome F n vs = Neat vs × Newest F n vs

inorder-tree_map {ℓ} :
    {A : Type ℓ} (f : A → A) (t : Tree A) → inorder (tree_map f t) ≡ map f (inorder t)
inorder-tree_map f leaf = refl
inorder-tree_map f (node l a r) =
    ap (λ xs. xs ++ (f a ∷ inorder (tree_map f r))) (inorder-tree_map f l)
    ∙ ap (λ xs. map f (inorder l) ++ (f a ∷ xs)) (inorder-tree_map f r)
    ∙ sym (map-append f (inorder l) (a ∷ inorder r))

tree_map-Ordered {ℓ} :
    {A : Type ℓ} (up : Bool) (key : A → ℕ) (f : A → A) (t : Tree A)
    → ((a : A) → key (f a) ≡ key a)
    → Ordered up key t
    → Ordered up key (tree_map f t)
tree_map-Ordered {A = A} up key f t h o =
    subst (Sorted up) (sym (ap (map key) (inorder-tree_map f t) ∙ keys (inorder t))) o
  where
    keys : (xs : List A) → map key (map f xs) ≡ map key xs
    keys [] = refl
    keys (x ∷ xs) = ap (λ k. k ∷ map key (map f xs)) (h x) ∙ ap (◌∷◌ (key x)) (keys xs)

fill-Neat : (m : ℕ) (vs : Tree ScanVolume) → Neat vs → Neat (tree_map (known_volume m) vs)
fill-Neat m vs n = record {
  order = tree_map-Ordered false ScanVolume_vol_id (known_volume m) vs (λ a. refl) n.order;
  roots = λ v.
      subst NeatVolume
        (sym (walk-tree_map false ScanVolume_vol_id (known_volume m) v vs (λ a. refl)))
        (filled (volume_at vs v) (n.roots v));
}
  where
    filled : (o : Option ScanVolume) → NeatVolume o → NeatVolume (Option.map (known_volume m) o)
    filled none t = tt
    filled (some sv) t = tree_map-Ordered true ScanLeb_lnum (known_seb m) sv.root (λ a. refl) t

module _ (F : Flash) (n : ℕ) where
  known-Kept :
      (m v l : ℕ) (o : Option ScanLeb)
      → Kept F (Upto F n) v l o
      → Kept F (Upto F n) v l (Option.map (known_seb m) o)
  known-Kept m v l none k = k
  known-Kept m v l (some seb) k = record {
    peb = k.peb;
    seen = k.seen;
    vol_id = k.vol_id;
    lnum = k.lnum;
    pnum = k.pnum;
    sqnum = k.sqnum;
    copy_flag = k.copy_flag;
    best = k.best;
  }

  fill-Outcome : Triple vols (IsOutcome F n) fill_unknown_ec (IsOutcome F n)
  unfolding fill_unknown_ec
  fill-Outcome = record {
    at = λ s (neat, k). (
      fill-Neat s.mean_ec s.volumes neat,
      λ v l.
          subst (Kept F (Upto F n) v l) (sym (leb_at-fill s.mean_ec s.volumes v l))
            (known-Kept s.mean_ec v l (leb_at s.volumes v l) (k v l)),
    );
  }

nothing-Scanned : (F : Flash) → Scanned F (Upto F 0) leaf
unfolding walk
nothing-Scanned F = record {
  neat = record { order = tt; roots = λ v. tt };
  honest = λ q u. absurd (omega (arith, u.below));
  kept = λ v l q u ev el. absurd (omega (arith, u.below));
}

all_rounds :
    (F : Flash) (n : ℕ) (vs : Tree ScanVolume) → Scanned F (Upto F (0 + n)) vs → IsOutcome F n vs
all_rounds F n vs S =
    let e : 0 + n ≡ n = omega arith in
    (S.neat, λ v l. subst (λ k. Kept F (Upto F k) v l (leb_at vs v l)) e (S.kept v l))

-- Whenever ubi_scan succeeds, the trees of volumes and eraseblocks are ordered, and each LEB is at
-- its newest sound copy.
pub ubi_scan-Outcome :
    (B : Balance) (F : Flash) (n random : ℕ) (ro_mode : Bool) (image_seq : ℕ) (allocs : List Bool)
    (junk : ℕ)
    → Tame F
    → Ends
        (λ _ t. IsOutcome F n t.volumes)
        (ubi_scan B F n random (fresh_info ro_mode image_seq allocs junk))
unfolding ubi_scan
ubi_scan-Outcome B F n random ro seq allocs junk T =
    (Triple-bind vols _ _ (Triple-Keeps vols _ alloc-Keeps (λ vs S. S)) (λ _.
        Triple-bind vols _ _ (Triple-Keeps vols _ alloc-Keeps (λ vs S. S)) (λ _.
          Triple-bind vols _ _ (Triple-Keeps vols _ alloc-Keeps (λ vs S. S)) (λ _.
            Triple-bind vols _ _ (Triple-Keeps vols _ alloc-Keeps (λ vs S. S)) (λ _.
              Triple-bind vols _ _
                (Triple-for_range vols (λ i. Scanned F (Upto F i)) 0 n (process_eb B F)
                  (process_eb-Round B F T))
                (λ _.
                  Triple-bind vols _ _ (Triple-Keeps vols _ calc_mean_ec-Keeps (all_rounds F n))
                    (λ _.
                      Triple-bind vols _ _
                        (Triple-Keeps vols _ (check_what_we_have-Keeps n random) (λ vs S. S))
                        (λ _. fill-Outcome F n)))))))).at
      (fresh_info ro seq allocs junk) (nothing-Scanned F)
