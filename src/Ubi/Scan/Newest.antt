-- ===== src/Ubi/Scan/Newest.antt =====
-- scan.c: of all copies of a logical eraseblock the newest sound one is kept.
use mathlib.Core.Path.{subst}
use mathlib.Core.Option
use android_infotm_confident.Prelude.{
  ℕ, ◌≡◌, refl, ap, sym, ◌∙◌, Bool, true, false, ◌==◌, if◌then◌else◌, Option, none, some, arith,
  Bool-cases, inl, inr, ==_iff,
}
use android_infotm_confident.Ubi.Rb.{Tree, walk, amend, Balance, Ordered}
use android_infotm_confident.Ubi.Rb.Insert.{
  walk-insert, walk-amend, amend-Ordered, insert_color-Ordered, link-Ordered,
}
use android_infotm_confident.Ubi.Scan.Types.{Flash, ScanLeb, ScanVolume}
use android_infotm_confident.Ubi.Scan.{ScanVolume_vol_id, ScanLeb_lnum}
use android_infotm_confident.Ubi.Scan.Used.{Peb, seb_of, renew_seb, renew_volume, extend_volume}
use android_infotm_confident.Ubi.Scan.View.{
  volume_at, leb_in, leb_at, NeatVolume, Neat, amended-Neat, leb_at-amended,
}
use android_infotm_confident.Ubi.Scan.Compare.{Honest, FirstStays, SecondWins}
use android_infotm_confident.Ubi.Scan.Chosen.{
  Chosen, Kept, Scanned, With, Chosen-other, Chosen-stays, Chosen-wins, Chosen-first,
}

module _ (F : Flash) (Seen : Peb → Type 0) (p : Peb) (hp : Honest F p) (vs : Tree ScanVolume)
    (S : Scanned F Seen vs) where
  -- Where no LEB but that of `p` changes, and what is kept for it is right, all is.
  With-Scanned :
      (ws : Tree ScanVolume)
      → Neat ws
      → ((v l : ℕ) → (p.vid.vol_id ≡ v → p.vid.lnum ≡ l → ⊥) → leb_at ws v l ≡ leb_at vs v l)
      → Kept F (With Seen p) p.vid.vol_id p.vid.lnum (leb_at ws p.vid.vol_id p.vid.lnum)
      → Scanned F (With Seen p) ws
  With-Scanned ws n other here = record {
    neat = n;
    honest = λ q w. elim w [ inl s ↦ S.honest q s | inr e ↦ subst (Honest F) (sym e) hp ];
    kept = λ v l. elim (Bool-cases (p.vid.vol_id == v)) [
      | inr a ↦ elsewhere v l λ ev el. ground (arith, a, ev)
      | inl a ↦ elim (Bool-cases (p.vid.lnum == l)) [
        | inr b ↦ elsewhere v l λ ev el. ground (arith, b, el)
        | inl b ↦
            subst (λ k. Kept F (With Seen p) v k (leb_at ws v k)) ((==_iff _ l).0 b)
              (subst (λ k. Kept F (With Seen p) k p.vid.lnum (leb_at ws k p.vid.lnum))
                ((==_iff _ v).0 a) here)
      ]
    ];
  }
    where
      elsewhere :
          (v l : ℕ)
          → (p.vid.vol_id ≡ v → p.vid.lnum ≡ l → ⊥)
          → Kept F (With Seen p) v l (leb_at ws v l)
      elsewhere v l apart =
          subst (Kept F (With Seen p) v l) (sym (other v l apart))
            (Chosen-other F Seen p v l (leb_at vs v l) apart (S.kept v l))

  module _ (sv : ScanVolume) (e : volume_at vs p.vid.vol_id ≡ some sv) where
    -- What was kept before, for the LEB of `p`.
    pub before_p :
        (o : Option ScanLeb)
        → walk true ScanLeb_lnum p.vid.lnum sv.root ≡ o
        → Kept F Seen p.vid.vol_id p.vid.lnum o
    before_p o m =
        subst (Kept F Seen p.vid.vol_id p.vid.lnum) (ap (leb_in p.vid.lnum) e ∙ m)
          (S.kept p.vid.vol_id p.vid.lnum)

    -- The volume of `p` gets a new entry for the LEB of `p`.
    amended-Scanned :
        (f : ScanVolume → ScanVolume) (x : ScanLeb)
        → ((y : ScanVolume) → (f y).vol_id ≡ y.vol_id)
        → Ordered true ScanLeb_lnum (f sv).root
        → ((l : ℕ)
            → walk true ScanLeb_lnum l (f sv).root
              ≡ (if l == p.vid.lnum then some x else walk true ScanLeb_lnum l sv.root))
        → Chosen F (With Seen p) p.vid.vol_id p.vid.lnum x
        → Scanned F (With Seen p) (amend false ScanVolume_vol_id p.vid.vol_id f vs)
    amended-Scanned f x same o look c =
        let v = p.vid.vol_id in
        With-Scanned (amend false ScanVolume_vol_id v f vs) (amended-Neat v f vs sv same e S.neat o)
          (λ j l apart. leb_at-amended v f vs sv same e j l ∙ (elim (Bool-cases (j == v)) [
            | inr h ↦ rw h refl
            | inl h ↦ rw h (
                look l ∙ (elim (Bool-cases (l == p.vid.lnum)) [
                  | inl g ↦ absurd (apart (sym ((==_iff j v).0 h)) (sym ((==_iff l _).0 g)))
                  | inr g ↦ rw g (
                      sym
                        (ap (λ k. leb_in l (volume_at vs k)) ((==_iff j v).0 h) ∙ ap (leb_in l) e))
                ]))
          ]))
          (subst (Kept F (With Seen p) v p.vid.lnum)
            (sym (
              leb_at-amended v f vs sv same e v p.vid.lnum
              ∙ itself v _ _
              ∙ look p.vid.lnum
              ∙ itself p.vid.lnum _ _))
            c)
      where
        itself : (n : ℕ) (a b : Option ScanLeb) → (if n == n then a else b) ≡ a
        itself n a b = ground arith

    pub extended-Scanned :
        (B : Balance)
        → walk true ScanLeb_lnum p.vid.lnum sv.root ≡ none
        → Scanned F
            (With Seen p)
            (amend false ScanVolume_vol_id p.vid.vol_id (extend_volume B p) vs)
    extended-Scanned B m =
        let o : Ordered true ScanLeb_lnum sv.root =
          subst NeatVolume e (S.neat.roots p.vid.vol_id) in
        amended-Scanned (extend_volume B p) (seb_of p) (λ y. refl)
          (insert_color-Ordered B true ScanLeb_lnum _
            (link-Ordered true ScanLeb_lnum (seb_of p) sv.root o m))
          (λ l. walk-insert B true ScanLeb_lnum (seb_of p) sv.root l o m)
          (Chosen-first F Seen p p.vid.vol_id p.vid.lnum (before_p none m) refl refl)

    module _ (seb : ScanLeb) (m : walk true ScanLeb_lnum p.vid.lnum sv.root ≡ some seb) where
      pub renewed-Scanned :
          (flips : Bool)
          → SecondWins F (before_p (some seb) m).peb p
          → Scanned F
              (With Seen p)
              (amend false ScanVolume_vol_id p.vid.vol_id (renew_volume p flips) vs)
      renewed-Scanned flips w =
          let o : Ordered true ScanLeb_lnum sv.root =
            subst NeatVolume e (S.neat.roots p.vid.vol_id) in
          amended-Scanned (renew_volume p flips) (renew_seb p flips seb) (λ y. refl)
            (amend-Ordered true ScanLeb_lnum p.vid.lnum (renew_seb p flips) sv.root (λ y. refl) o)
            (λ l.
              walk-amend true ScanLeb_lnum p.vid.lnum (renew_seb p flips) sv.root l (λ y. refl)
              ∙ (elim (Bool-cases (l == p.vid.lnum)) [
                | inl g ↦ rw g (
                    ap (Option.map (renew_seb p flips))
                      (ap (λ k. walk true ScanLeb_lnum k sv.root) ((==_iff l _).0 g) ∙ m))
                | inr g ↦ rw g refl
              ]))
            (Chosen-wins F Seen p p.vid.vol_id p.vid.lnum seb (renew_seb p flips seb)
              (before_p (some seb) m) w refl refl refl refl refl)

      pub stays-Scanned : FirstStays F (before_p (some seb) m).peb p → Scanned F (With Seen p) vs
      stays-Scanned f =
          With-Scanned vs S.neat (λ j l apart. refl)
            (subst (Kept F (With Seen p) p.vid.vol_id p.vid.lnum)
              (sym (ap (leb_in p.vid.lnum) e ∙ m))
              (Chosen-stays F Seen p p.vid.vol_id p.vid.lnum seb (before_p (some seb) m) f))
