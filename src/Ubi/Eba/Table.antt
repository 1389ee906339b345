-- ===== src/Ubi/Eba/Table.antt =====
-- eba.c: the tables that ubi_eba_init_scan sets up.
use android_infotm_confident.Prelude.{
  ℕ, zero, suc, ◌<◌, ◌≡◌, refl, ap, sym, ◌∙◌, true, ◌==◌, leb, Option, none, some, List, [], ◌∷◌,
  map, set, length, get_elem?, get_elem?-set_self, get_elem?-set_ne, length-set, length-replicate,
  ℤ, pos, arith, Bool-cases, inl, inr, ==_iff,
}
use android_infotm_confident.Ubi.Rb.{inorder, find, Sorted}
use android_infotm_confident.Ubi.Rb.Walk.{walk-find, find-After_self}
use android_infotm_confident.Ubi.Scan.{ScanLeb_lnum, ubi_scan_find_sv}
use android_infotm_confident.Ubi.Scan.Types.{ScanLeb, ScanVolume, ScanInfo}
use android_infotm_confident.Ubi.Scan.View.{leb_at, leb_in, volume_at, Neat, NeatVolume}
use android_infotm_confident.Ubi.Eba.{leb_unmapped, fill_tbl, blank_tbl, tbl_of}

-- Where an LEB is, by what was found.
abbrev pub place : Option ScanLeb → Option ℤ → Option ℤ
place none o = o
place (some seb) o = some (pos seb.pnum)

-- The entries of a filled table: each LEB is where it was found, all else is as before.
fill_tbl-get :
    (n : ℕ) (xs : List ScanLeb) (tbl out : List ℤ)
    → Sorted true (map ScanLeb_lnum xs)
    → length tbl ≡ n
    → fill_tbl n xs tbl ≡ some out
    → (l : ℕ) → get_elem? out l ≡ place (find ScanLeb_lnum l xs) (get_elem? tbl l)
unfolding fill_tbl
fill_tbl-get n [] tbl out s h e l = ap (λ t. get_elem? t l) (sym (some_inj e))
  where
    some_inj : {a b : List ℤ} → some a ≡ some b → a ≡ b
    some_inj h = cc
fill_tbl-get n (x ∷ xs) tbl out (a, s) h e l = elim (Bool-cases (leb n x.lnum)) [
  | inl g ↦ absurd (ground (arith, e, g))
  | inr g ↦
      let rest =
        fill_tbl-get n xs (set tbl x.lnum (pos x.pnum)) out s
          (length-set tbl x.lnum (pos x.pnum) ∙ h) (ground (arith, e, g)) l in
      elim (Bool-cases (l == x.lnum)) [
        | inl q ↦
            let same = (==_iff l x.lnum).0 q in
            rw q (
              rest
              ∙ ap (λ k. place (find ScanLeb_lnum k xs) (get_elem? (set tbl x.lnum (pos x.pnum)) k))
                  same
              ∙ (rw (find-After_self ScanLeb_lnum true x.lnum xs a)
                  (get_elem?-set_self tbl x.lnum (pos x.pnum) (ground (arith, g, h)))))
        | inr q ↦ rw q (
            rest
            ∙ ap (place (find ScanLeb_lnum l xs))
                (get_elem?-set_ne tbl (pos x.pnum) (λ d. ground (arith, q, d))))
      ]
]

-- What the entry of an LEB should be.
abbrev pub entry : Option ScanLeb → ℤ
entry none = leb_unmapped
entry (some seb) = pos seb.pnum

get_elem?-blank_tbl : (n l : ℕ) → l < n → get_elem? (blank_tbl n) l ≡ some leb_unmapped
get_elem?-blank_tbl zero l h = absurd (omega arith)
get_elem?-blank_tbl (suc n) zero h = refl
get_elem?-blank_tbl (suc n) (suc l) h = get_elem?-blank_tbl n l (omega arith)

place-unmapped : (o : Option ScanLeb) → place o (some leb_unmapped) ≡ some (entry o)
place-unmapped none = refl
place-unmapped (some seb) = refl

-- A table that is set up maps each LEB of the volume to where the scan has found it.
pub tbl_of-entry :
    (s : ScanInfo) (v n : ℕ) (out : List ℤ)
    → Neat s.volumes
    → tbl_of s v n ≡ some out
    → (l : ℕ) → l < n
    → get_elem? out l ≡ some (entry (leb_at s.volumes v l))
unfolding ubi_scan_find_sv
tbl_of-entry s v n out neat e l h = go (volume_at s.volumes v) (neat.roots v) e
  where
    go :
        (o : Option ScanVolume)
        → NeatVolume o
        → (elim o as (λ _. Option (List ℤ)) [
          | none ↦ some (blank_tbl n)
          | some sv ↦ fill_tbl n (inorder sv.root) (blank_tbl n)
        ])
          ≡ some out
        → get_elem? out l ≡ some (entry (leb_in l o))
    go none t e = ap (λ o. get_elem? (get_some o) l) (sym e) ∙ get_elem?-blank_tbl n l h
      where
        get_some : Option (List ℤ) → List ℤ
        get_some none = []
        get_some (some a) = a
    go (some sv) t e =
        fill_tbl-get n (inorder sv.root) (blank_tbl n) out t (length-replicate n leb_unmapped) e l
        ∙ ap (place (find ScanLeb_lnum l (inorder sv.root))) (get_elem?-blank_tbl n l h)
        ∙ place-unmapped (find ScanLeb_lnum l (inorder sv.root))
        ∙ ap (λ o. some (entry o)) (sym (walk-find ScanLeb_lnum true l sv.root t))
