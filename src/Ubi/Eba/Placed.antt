-- ===== src/Ubi/Eba/Placed.antt =====
-- scan.c and eba.c together: where the logical eraseblocks of an attached device are.
use mathlib.Core.Path.{subst}
use android_infotm_confident.Prelude.{
  ℕ, zero, suc, ◌+◌, ◌≤◌, ◌<◌, ◌≡◌, refl, ap, sym, ◌∙◌, Bool, true, false, ◌==◌, ◌||◌, Option, none,
  some, List, [], ◌∷◌, get_elem?, ℤ, pos, negsuc, arith,
}
use android_infotm_confident.Outcome.{ok}
use android_infotm_confident.Outcome.Keeps.{Ends-ok}
use android_infotm_confident.Ubi.Rb.{Balance}
use android_infotm_confident.Ubi.Scan.Types.{Flash, VidHdr, ScanLeb, ScanInfo}
use android_infotm_confident.Ubi.Scan.Used.{Peb}
use android_infotm_confident.Ubi.Scan.Chosen.{Kept}
use android_infotm_confident.Ubi.Scan.View.{leb_at}
use android_infotm_confident.Ubi.Scan.Upto.{used, Upto, Tame}
use android_infotm_confident.Ubi.Scan.Process.{fresh_info, ubi_scan}
use android_infotm_confident.Ubi.Scan.Found.{IsOutcome, ubi_scan-Outcome}
use android_infotm_confident.Ubi.Eba.{EbaVolume, EbaDevice, idx2vol_id, ubi_eba_init_scan}
use android_infotm_confident.Ubi.Eba.Table.{entry}
use android_infotm_confident.Ubi.Eba.Attach.{IsTable, Mapped, Attached, ubi_eba_init_scan-Attached}

module _ (F : Flash) where
  abbrev pub hdr_at : ℕ → VidHdr
  hdr_at p = (F.read_vid_hdr p).1

  -- Not a copy, or with the checksum of its header.
  abbrev pub sound_at : ℕ → Bool
  sound_at p =
      (hdr_at p).copy_flag == 0
      || F.crc32 (F.read_data p (hdr_at p).data_size).1 == (hdr_at p).data_crc

  -- A used eraseblock with the header of an LEB.
  abbrev pub Carries : ℕ → ℕ → ℕ → Type 0
  Carries v l p = (used F p ≡ true) × ((hdr_at p).vol_id ≡ v) × ((hdr_at p).lnum ≡ l)

  -- Where the entry of an LEB points: to a used eraseblock with the header of the LEB, one that is
  -- sound and the newest of the sound ones if there is a sound one. Without an entry there is no such eraseblock.
  abbrev pub Placed : ℕ → ℕ → ℕ → ℤ → Type 0
  Placed n v l (pos p) =
      Carries v l p
      × (p < n)
      × ((q : ℕ)
          → q < n
          → Carries v l q
          → sound_at q ≡ true
          → (sound_at p ≡ true) × ((hdr_at q).sqnum ≤ (hdr_at p).sqnum))
  Placed n v l (negsuc k) = (q : ℕ) → q < n → Carries v l q → ⊥

  peb_of : ℕ → Peb
  peb_of q = record { pnum = q; ec = pos 0; vid = hdr_at q; flips = false }

  peb_of-Upto : (n q v l : ℕ) → q < n → Carries v l q → Upto F n (peb_of q)
  unfolding peb_of
  peb_of-Upto n q v l h c = record { below = h; used_peb = c.0; header = refl }

  entry-Placed : (n v l : ℕ) (o : Option ScanLeb) → Kept F (Upto F n) v l o → Placed n v l (entry o)
  unfolding peb_of
  entry-Placed n v l none k = λ q h c. k (peb_of q) (peb_of-Upto n q v l h c) c.1 c.2
  entry-Placed n v l (some seb) k =
      let p = k.peb in
      let u = k.seen in
      let same : p.vid ≡ hdr_at p.pnum = u.header in
      subst (λ (e : ℕ). Placed n v l (pos e)) (sym k.pnum)
        (
          (
            u.used_peb,
            ap (λ (x : VidHdr). x.vol_id) (sym same) ∙ k.vol_id,
            ap (λ (x : VidHdr). x.lnum) (sym same) ∙ k.lnum,
          ),
          u.below,
          λ q h c s.
              let (a, b) = k.best (peb_of q) (peb_of-Upto n q v l h c) c.1 c.2 s in
              (
                ap
                      (λ (x : VidHdr).
                        x.copy_flag == 0
                        || F.crc32 (F.read_data p.pnum x.data_size).1 == x.data_crc)
                      (sym same)
                    ∙ a,
                subst (λ (x : VidHdr). (hdr_at q).sqnum ≤ x.sqnum) same b,
              ),
        )

-- The table of the volume at an index.
Mapped-get :
    (s : ScanInfo) (slots idx i : ℕ) (vs ws : List (Option EbaVolume)) (w : EbaVolume)
    (tbl : List ℤ)
    → Mapped s slots idx vs ws
    → get_elem? ws i ≡ some (some w)
    → w.eba_tbl ≡ some tbl
    → IsTable s (idx2vol_id slots (idx + i)) w.reserved_pebs (some tbl)
Mapped-get s slots idx i [] [] w tbl m g e = cc
Mapped-get s slots idx i [] (x ∷ ws) w tbl m g e = absurd m
Mapped-get s slots idx i (v ∷ vs) [] w tbl m g e = absurd m
Mapped-get s slots idx i (none ∷ vs) (some x ∷ ws) w tbl m g e = absurd m
Mapped-get s slots idx i (some v ∷ vs) (none ∷ ws) w tbl m g e = absurd m
Mapped-get s slots idx zero (none ∷ vs) (none ∷ ws) w tbl m g e = cc
Mapped-get s slots idx (suc i) (none ∷ vs) (none ∷ ws) w tbl m g e =
    subst (λ k. IsTable s (idx2vol_id slots k) w.reserved_pebs (some tbl)) (omega arith)
      (Mapped-get s slots (idx + 1) i vs ws w tbl m g e)
Mapped-get s slots idx (suc i) (some v ∷ vs) (some x ∷ ws) w tbl m g e =
    subst (λ k. IsTable s (idx2vol_id slots k) w.reserved_pebs (some tbl)) (omega arith)
      (Mapped-get s slots (idx + 1) i vs ws w tbl m.2 g e)
Mapped-get s slots idx zero (some v ∷ vs) (some x ∷ ws) w tbl m g e =
    let same : x ≡ w = ap (got x) g in
    subst (λ k. IsTable s (idx2vol_id slots k) w.reserved_pebs (some tbl)) (omega arith)
      (subst (IsTable s (idx2vol_id slots idx) w.reserved_pebs)
        (ap (λ (y : EbaVolume). y.eba_tbl) same ∙ e)
        (subst (λ n. IsTable s (idx2vol_id slots idx) n x.eba_tbl)
          (sym m.0 ∙ ap (λ (y : EbaVolume). y.reserved_pebs) same) m.1))
  where
    got : EbaVolume → Option (Option EbaVolume) → EbaVolume
    got d none = d
    got d (some none) = d
    got d (some (some y)) = y

-- A device whose I/O gives a copy flag of 0 or 1, and answers reads of data with 0, UBI_IO_BITFLIPS or an
-- error, is scanned, and the tables are set up from what the scan has found, both with success. Then the
-- table of each volume has an entry for each LEB below its size. An entry that is an eraseblock is a used one
-- that carries the LEB's header; if any used eraseblock of the LEB is sound, it is sound, and no sound one has a higher
-- sequence number. Where the entry is UBI_LEB_UNMAPPED, no used eraseblock carries the LEB.
pub attach-Placed :
    (B : Balance) (F : Flash) (n random : ℕ) (ro_mode : Bool) (image_seq : ℕ) (allocs : List Bool)
    (junk rsvd least : ℕ) (s : ScanInfo) (u t : EbaDevice) (i l : ℕ) (v : EbaVolume) (tbl : List ℤ)
    → Tame F
    → ubi_scan B F n random (fresh_info ro_mode image_seq allocs junk) ≡ ok tt s
    → ubi_eba_init_scan rsvd least s u ≡ ok tt t
    → get_elem? t.volumes i ≡ some (some v)
    → v.eba_tbl ≡ some tbl
    → l < v.reserved_pebs
    → (e : ℤ) × (get_elem? tbl l ≡ some e) × Placed F n (idx2vol_id u.vtbl_slots i) l e
attach-Placed B F n random ro seq allocs junk rsvd least s u t i l v tbl T es eu g et h =
    let (neat, found) =
      Ends-ok (λ _ (r : ScanInfo). IsOutcome F n r.volumes)
        (ubi_scan-Outcome B F n random ro seq allocs junk T) es in
    let m = (Ends-ok (Attached s u) (ubi_eba_init_scan-Attached rsvd least s u neat) eu).0 in
    let vol = idx2vol_id u.vtbl_slots i in
    let e : 0 + i ≡ i = omega arith in
    let at =
      subst (λ k. IsTable s (idx2vol_id u.vtbl_slots k) v.reserved_pebs (some tbl)) e
        (Mapped-get s u.vtbl_slots 0 i u.volumes t.volumes v tbl m g et) in
    (
      entry (leb_at s.volumes vol l),
      at l h,
      entry-Placed F n vol l (leb_at s.volumes vol l) (found vol l),
    )
