-- ===== src/Ubi/Scan/View.antt =====
-- The logical eraseblocks that the scanning information holds, and what its updates do to them.
use mathlib.Core.Path.{subst}
use mathlib.Core.Option
use android_infotm_confident.Prelude.{
  ℕ, ◌≡◌, refl, ap, sym, ◌∙◌, true, false, ◌==◌, if◌then◌else◌, Option, none, some, Bool-cases, inl,
  inr, ==_iff,
}
use android_infotm_confident.Ubi.Rb.{Tree, walk, amend, link, Balance, Ordered}
use android_infotm_confident.Ubi.Rb.Insert.{
  walk-insert, walk-amend, amend-Ordered, insert_color-Ordered, link-Ordered,
}
use android_infotm_confident.Ubi.Scan.Types.{VidHdr, ScanLeb, ScanVolume}
use android_infotm_confident.Ubi.Scan.{ScanVolume_vol_id, ScanLeb_lnum, fresh_volume}

abbrev pub volume_at : Tree ScanVolume → ℕ → Option ScanVolume
volume_at vs v = walk false ScanVolume_vol_id v vs

abbrev pub leb_in : ℕ → Option ScanVolume → Option ScanLeb
leb_in l none = none
leb_in l (some sv) = walk true ScanLeb_lnum l sv.root

abbrev pub leb_at : Tree ScanVolume → ℕ → ℕ → Option ScanLeb
leb_at vs v l = leb_in l (volume_at vs v)

abbrev pub NeatVolume : Option ScanVolume → Type 0
NeatVolume none = Unit
NeatVolume (some sv) = Ordered true ScanLeb_lnum sv.root

-- The volumes are ordered downwards, and the eraseblocks of each upwards.
pub record Neat (vs : Tree ScanVolume) : Type 0 where
  pub order : Ordered false ScanVolume_vol_id vs
  pub roots : (v : ℕ) → NeatVolume (volume_at vs v)

module _ (B : Balance) (v : ℕ) (vid : VidHdr) (junk : ℕ) (vs : Tree ScanVolume) (n : Neat vs)
    (e : volume_at vs v ≡ none) where
  abbrev pub with_volume : Tree ScanVolume
  with_volume = B.insert_color (link false ScanVolume_vol_id (fresh_volume v vid junk) vs)

  pub volume_at-with_volume :
      (j : ℕ)
      → volume_at with_volume j
        ≡ (if j == v then some (fresh_volume v vid junk) else volume_at vs j)
  volume_at-with_volume j =
      walk-insert B false ScanVolume_vol_id (fresh_volume v vid junk) vs j n.order e

  pub with_volume-Neat : Neat with_volume
  with_volume-Neat = record {
    order =
        insert_color-Ordered B false ScanVolume_vol_id _
          (link-Ordered false ScanVolume_vol_id (fresh_volume v vid junk) vs n.order e);
    roots = λ j. elim (Bool-cases (j == v)) [
      | inl h ↦ subst NeatVolume (sym (volume_at-with_volume j)) (rw h tt)
      | inr h ↦ subst NeatVolume (sym (volume_at-with_volume j)) (rw h (n.roots j))
    ];
  }

  -- A volume with no eraseblocks shows none.
  pub leb_at-with_volume : (j l : ℕ) → leb_at with_volume j l ≡ leb_at vs j l
  unfolding walk
  leb_at-with_volume j l = ap (leb_in l) (volume_at-with_volume j) ∙ (elim (Bool-cases (j == v)) [
    | inl h ↦ rw h (sym (ap (leb_in l) (ap (volume_at vs) ((==_iff j v).0 h) ∙ e)))
    | inr h ↦ rw h refl
  ])

module _ (v : ℕ) (f : ScanVolume → ScanVolume) (vs : Tree ScanVolume) (sv : ScanVolume)
    (same : (x : ScanVolume) → (f x).vol_id ≡ x.vol_id) (e : volume_at vs v ≡ some sv) where
  abbrev pub amended : Tree ScanVolume
  amended = amend false ScanVolume_vol_id v f vs

  pub volume_at-amended :
      (j : ℕ) → volume_at amended j ≡ (if j == v then some (f sv) else volume_at vs j)
  volume_at-amended j =
      walk-amend false ScanVolume_vol_id v f vs j same ∙ (elim (Bool-cases (j == v)) [
        | inl h ↦ rw h (ap (Option.map f) (ap (volume_at vs) ((==_iff j v).0 h) ∙ e))
        | inr h ↦ rw h refl
      ])

  pub amended-Neat : Neat vs → Ordered true ScanLeb_lnum (f sv).root → Neat amended
  amended-Neat n o = record {
    order = amend-Ordered false ScanVolume_vol_id v f vs same n.order;
    roots = λ j. elim (Bool-cases (j == v)) [
      | inl h ↦ subst NeatVolume (sym (volume_at-amended j)) (rw h o)
      | inr h ↦ subst NeatVolume (sym (volume_at-amended j)) (rw h (n.roots j))
    ];
  }

  pub leb_at-amended :
      (j l : ℕ)
      → leb_at amended j l
        ≡ (if j == v then walk true ScanLeb_lnum l (f sv).root else leb_at vs j l)
  leb_at-amended j l =
      ap (leb_in l) (volume_at-amended j)
      ∙ (elim (Bool-cases (j == v)) [ inl h ↦ rw h refl | inr h ↦ rw h refl ])
