-- ===== src/Ubi/Scan/Add.antt =====
-- scan.c: ubi_scan_add_used keeps the newest sound copy.
use mathlib.Core.Path.{subst}
use android_infotm_confident.Prelude.{
  ℕ, ℤ, ◌/◌, ◌%◌, ◌≡◌, refl, ap, sym, ◌∙◌, Bool, true, false, not, ◌&&◌, ◌==◌, ltb, if◌then◌else◌,
  Option, none, some, Bool-cases, Option-cases, inl, inr,
}
use android_infotm_confident.Outcome.{bind, ◌>>=◌, fail, get_state, or_fault}
use android_infotm_confident.Outcome.Keeps.{
  Keeps, keeps_rules, Ends, bind-Ends, Ends-mono, Ends-Keeps,
}
use android_infotm_confident.Ubi.Rb.{walk, amend, Balance}
use android_infotm_confident.Ubi.Scan.Types.{Flash, VidHdr, ScanLeb, ScanVolume, ScanInfo}
use android_infotm_confident.Ubi.Scan.{
  alloc, validate_vid_hdr, add_volume, add_to_erase, compare_lebs, ScanVolume_vol_id, ScanLeb_lnum,
}
use android_infotm_confident.Ubi.Scan.Used.{
  Peb, renew_volume, extend_volume, settle, meet_leb, new_leb, place_leb, raise_max_sqnum,
  ubi_scan_add_used,
}
use android_infotm_confident.Ubi.Scan.View.{volume_at, with_volume-Neat, leb_at-with_volume}
use android_infotm_confident.Ubi.Scan.Compare.{
  Honest, Choice, Says, Unchanged, alloc-Ends, compare_lebs-Choice,
}
use android_infotm_confident.Ubi.Scan.Chosen.{Kept, Scanned, With}
use android_infotm_confident.Ubi.Scan.Newest.{
  before_p, extended-Scanned, renewed-Scanned, stays-Scanned,
}

validate-Keeps :
    (vid : VidHdr) (sv : ScanVolume) → Keeps (λ (s : ScanInfo). s.volumes) (validate_vid_hdr vid sv)
unfolding validate_vid_hdr
validate-Keeps vid sv = search keeps_rules depth 8

validate-Ends :
    (vid : VidHdr) (sv : ScanVolume) (s : ScanInfo)
    → Ends (Unchanged s.volumes) (validate_vid_hdr vid sv s)
validate-Ends vid sv s =
    Ends-Keeps (λ (t : ScanInfo). t.volumes) (validate_vid_hdr vid sv) s (validate-Keeps vid sv)
      refl

add_to_erase-Ends :
    (pnum : ℕ) (ec : ℤ) (b : Bool) (s : ScanInfo)
    → Ends (Unchanged s.volumes) (add_to_erase pnum ec b s)
unfolding add_to_erase ◌>>=◌
add_to_erase-Ends pnum ec b s =
    bind-Ends (Unchanged s.volumes) (Unchanged s.volumes) (alloc s) _ (alloc-Ends s) λ a t e. e

abbrev ThenScanned : Flash → (Peb → Type 0) → Peb → Unit {0} → ScanInfo → Type 0
ThenScanned F Seen p a t = Scanned F (With Seen p) t.volumes

module _ (F : Flash) (Seen : Peb → Type 0) (p : Peb) (hp : Honest F p) (s : ScanInfo)
    (S : Scanned F Seen s.volumes) (sv : ScanVolume)
    (e : volume_at s.volumes p.vid.vol_id ≡ some sv) where
  new_leb-Scanned :
      (B : Balance)
      → walk true ScanLeb_lnum p.vid.lnum sv.root ≡ none
      → Ends (ThenScanned F Seen p) (new_leb B p sv s)
  unfolding new_leb ◌>>=◌
  new_leb-Scanned B m =
      bind-Ends (Unchanged s.volumes) (ThenScanned F Seen p) (validate_vid_hdr p.vid sv s) _
        (validate-Ends p.vid sv s)
        λ a t u.
          bind-Ends (Unchanged t.volumes) (ThenScanned F Seen p) (alloc t) _ (alloc-Ends t) λ b w x.
            subst
              (λ vs.
                Scanned F (With Seen p)
                  (amend false ScanVolume_vol_id p.vid.vol_id (extend_volume B p) vs))
              (sym (x ∙ u)) (extended-Scanned F Seen p hp s.volumes S sv e B m)

  module _ (seb : ScanLeb) (m : walk true ScanLeb_lnum p.vid.lnum sv.root ≡ some seb) where
    settle-Scanned :
        (t : ScanInfo) (r : ℕ)
        → t.volumes ≡ s.volumes
        → Choice F (before_p F Seen p hp s.volumes S sv e (some seb) m).peb p (r % 2 == 1)
        → Ends (ThenScanned F Seen p) (settle p sv seb r t)
    unfolding settle ◌>>=◌
    settle-Scanned t r u c =
        let k = before_p F Seen p hp s.volumes S sv e (some seb) m in
        elim (Bool-cases (r % 2 == 1)) [
          | inl b ↦ rw b (
              bind-Ends (Unchanged t.volumes) (ThenScanned F Seen p) (validate_vid_hdr p.vid sv t) _
                (validate-Ends p.vid sv t)
                λ a w x.
                  bind-Ends (Unchanged w.volumes) (ThenScanned F Seen p)
                    (add_to_erase seb.pnum seb.ec (r / 4 % 2 == 1) w) _ (add_to_erase-Ends _ _ _ w)
                    λ d z y.
                      subst
                        (λ vs. Scanned F (With Seen p) (
                          amend false ScanVolume_vol_id p.vid.vol_id
                            (renew_volume p (r / 2 % 2 == 1)) vs))
                        (sym (y ∙ x ∙ u))
                        (renewed-Scanned F Seen p hp s.volumes S sv e seb m (r / 2 % 2 == 1)
                          (subst (Choice F k.peb p) b c)))
          | inr b ↦ rw b (
              Ends-mono (ThenScanned F Seen p) (Unchanged t.volumes)
                (add_to_erase p.pnum p.ec (r / 4 % 2 == 1) t)
                (λ a w x.
                  subst (Scanned F (With Seen p)) (sym (x ∙ u)) (
                    stays-Scanned F Seen p hp s.volumes S sv e seb m
                      (subst (Choice F k.peb p) b c)))
                (add_to_erase-Ends _ _ _ t))
        ]

    meet_leb-Scanned : Ends (ThenScanned F Seen p) (meet_leb F p sv seb s)
    unfolding meet_leb fail ◌>>=◌
    meet_leb-Scanned = elim (Bool-cases (seb.sqnum == p.vid.sqnum && not (p.vid.sqnum == 0))) [
      | inl b ↦ rw b tt
      | inr b ↦
          let k = before_p F Seen p hp s.volumes S sv e (some seb) m in
          rw b (
            bind-Ends (Says s.volumes (Choice F k.peb p)) (ThenScanned F Seen p)
              (compare_lebs F seb p.pnum p.vid s) _
              (compare_lebs-Choice F k.peb p seb s (S.honest k.peb k.seen) hp k.pnum k.sqnum
                k.copy_flag)
              λ r t h. settle-Scanned t r h.0 h.1)
    ]

  place_leb-Scanned : (B : Balance) → Ends (ThenScanned F Seen p) (place_leb B F p sv s)
  unfolding place_leb
  place_leb-Scanned B = elim (Option-cases (walk true ScanLeb_lnum p.vid.lnum sv.root)) [
    | inl m ↦ rw (m, place_leb) (new_leb-Scanned B m)
    | inr (seb, m) ↦ rw (m, place_leb) (meet_leb-Scanned seb m)
  ]

-- add_volume makes no LEB appear or vanish.
add_volume-Scanned :
    (B : Balance) (F : Flash) (Seen : Peb → Type 0) (v : ℕ) (vid : VidHdr) (s : ScanInfo)
    → Scanned F Seen s.volumes
    → Ends (λ _ t. Scanned F Seen t.volumes) (add_volume B v vid s)
unfolding add_volume ◌>>=◌
add_volume-Scanned B F Seen v vid s S =
    elim (Option-cases (walk false ScanVolume_vol_id v s.volumes)) [
      | inr (sv, e) ↦ rw (e, add_volume) S
      | inl e ↦
          rw (e, add_volume)
            (bind-Ends (Unchanged s.volumes) (λ _ t. Scanned F Seen t.volumes) (alloc s) _
              (alloc-Ends s)
              λ a t u.
                let T = subst (Scanned F Seen) (sym u) S in
                record {
                  neat =
                      with_volume-Neat B v vid t.junk t.volumes T.neat
                        (ap (λ vs. volume_at vs v) u ∙ e);
                  honest = T.honest;
                  kept = λ j l.
                      subst (Kept F Seen j l)
                        (sym (
                          leb_at-with_volume B v vid t.junk t.volumes T.neat
                            (ap (λ vs. volume_at vs v) u ∙ e) j l))
                        (T.kept j l);
                })
    ]

-- What was kept of the eraseblocks seen before is the newest sound copy of each LEB; where
-- ubi_scan_add_used succeeds, this holds with the new one.
pub ubi_scan_add_used-Scanned :
    (B : Balance) (F : Flash) (Seen : Peb → Type 0) (p : Peb) (s : ScanInfo)
    → Scanned F Seen s.volumes
    → Honest F p
    → Ends (λ _ t. Scanned F (With Seen p) t.volumes) (ubi_scan_add_used B F p s)
unfolding ubi_scan_add_used raise_max_sqnum get_state or_fault ◌>>=◌ bind
ubi_scan_add_used-Scanned B F Seen p s S hp =
    bind-Ends (λ _ t. Scanned F Seen t.volumes) (ThenScanned F Seen p)
      (add_volume B p.vid.vol_id p.vid s) _ (add_volume-Scanned B F Seen p.vid.vol_id p.vid s S)
      λ a t T.
        let u = record t {
          max_sqnum = if ltb t.max_sqnum p.vid.sqnum then p.vid.sqnum else t.max_sqnum;
        } in
        placed u T (volume_at t.volumes p.vid.vol_id) refl
  where
    placed :
        (u : ScanInfo)
        → Scanned F Seen u.volumes
        → (o : Option ScanVolume) → volume_at u.volumes p.vid.vol_id ≡ o
        → Ends (ThenScanned F Seen p) (bind (or_fault o u) (λ sv. place_leb B F p sv))
    placed u T none e = tt
    placed u T (some sv) e = place_leb-Scanned F Seen p hp u T sv e B
