-- ===== src/Ubi/Scan/Used.antt =====
-- scan.c: ubi_scan_add_used, which keeps one physical eraseblock for each logical one.
use android_infotm_confident.Prelude.{
  ℕ, ◌+◌, ◌/◌, ◌%◌, Bool, true, false, not, ◌&&◌, ◌||◌, ◌==◌, ltb, leb, if◌then◌else◌, none, some,
  ℤ,
}
use android_infotm_confident.Outcome.{ok, ◌>>=◌, ◌>>◌, get_state, fail, or_fault}
use android_infotm_confident.Ubi.Rb.{walk, amend, link, Balance}
use android_infotm_confident.Ubi.Scan.Types.{Flash, VidHdr, ScanLeb, ScanVolume, ScanInfo, einval}
use android_infotm_confident.Ubi.Scan.{
  ScanAct, alloc, add_to_erase, validate_vid_hdr, add_volume, compare_lebs, ScanVolume_vol_id,
  ScanLeb_lnum,
}

-- A change of the volume that `sv` points to.
abbrev pub amend_volume : ℕ → (ScanVolume → ScanVolume) → ScanInfo → ScanInfo
amend_volume vol_id f s = record s { volumes = amend false ScanVolume_vol_id vol_id f s.volumes }

-- What a physical eraseblock says of itself.
pub record Peb : Type 0 where
  pub pnum : ℕ
  pub ec : ℤ
  pub vid : VidHdr
  pub flips : Bool

-- The 1-bit fields take the lowest bit.
abbrev pub seb_of : Peb → ScanLeb
seb_of p = record {
  ec = p.ec;
  pnum = p.pnum;
  lnum = p.vid.lnum;
  scrub = p.flips;
  copy_flag = p.vid.copy_flag % 2;
  sqnum = p.vid.sqnum;
}

abbrev pub renew_seb : Peb → Bool → ScanLeb → ScanLeb
renew_seb p flips seb = record seb {
  ec = p.ec;
  pnum = p.pnum;
  scrub = flips || p.flips;
  copy_flag = p.vid.copy_flag % 2;
  sqnum = p.vid.sqnum;
}

abbrev pub renew_volume : Peb → Bool → ScanVolume → ScanVolume
renew_volume p flips sv = record sv {
  root = amend true ScanLeb_lnum p.vid.lnum (renew_seb p flips) sv.root;
  last_data_size = if sv.highest_lnum == p.vid.lnum then p.vid.data_size else sv.last_data_size;
}

abbrev pub extend_volume : Balance → Peb → ScanVolume → ScanVolume
extend_volume B p sv = record sv {
  highest_lnum = if leb sv.highest_lnum p.vid.lnum then p.vid.lnum else sv.highest_lnum;
  last_data_size = if leb sv.highest_lnum p.vid.lnum then p.vid.data_size else sv.last_data_size;
  leb_count = sv.leb_count + 1;
  root = B.insert_color (link true ScanLeb_lnum (seb_of p) sv.root);
}

-- `cmp_res` has three bits: the second is newer, the newer has bit-flips, the older is corrupted.
unfoldable pub settle : Peb → ScanVolume → ScanLeb → ℕ → ScanAct (Unit {0})
unfolding validate_vid_hdr add_to_erase
settle p sv seb cmp_res =
    if cmp_res % 2 == 1
    then (do
      validate_vid_hdr p.vid sv
      add_to_erase seb.pnum seb.ec (cmp_res / 4 % 2 == 1)
      λ s. ok tt (amend_volume p.vid.vol_id (renew_volume p (cmp_res / 2 % 2 == 1)) s))
    else add_to_erase p.pnum p.ec (cmp_res / 4 % 2 == 1)

-- The logical eraseblock is there already.
unfoldable pub meet_leb : Flash → Peb → ScanVolume → ScanLeb → ScanAct (Unit {0})
unfolding compare_lebs settle
meet_leb F p sv seb =
    if seb.sqnum == p.vid.sqnum && not (p.vid.sqnum == 0)
    then fail einval
    else (do cmp_res ← compare_lebs F seb p.pnum p.vid; settle p sv seb cmp_res)

-- The logical eraseblock is met for the first time.
unfoldable pub new_leb : Balance → Peb → ScanVolume → ScanAct (Unit {0})
unfolding validate_vid_hdr alloc
new_leb B p sv = do
  validate_vid_hdr p.vid sv
  alloc
  λ s. ok tt (amend_volume p.vid.vol_id (extend_volume B p) s)

unfoldable pub place_leb : Balance → Flash → Peb → ScanVolume → ScanAct (Unit {0})
unfolding meet_leb new_leb walk
place_leb B F p sv = elim (walk true ScanLeb_lnum p.vid.lnum sv.root) [
  | some seb ↦ meet_leb F p sv seb
  | none ↦ new_leb B p sv
]

unfoldable pub raise_max_sqnum : ℕ → ScanAct (Unit {0})
raise_max_sqnum sqnum s =
    ok tt (record s { max_sqnum = if ltb s.max_sqnum sqnum then sqnum else s.max_sqnum })

unfoldable pub ubi_scan_add_used : Balance → Flash → Peb → ScanAct (Unit {0})
unfolding add_volume raise_max_sqnum place_leb
ubi_scan_add_used B F p = do
  add_volume B p.vid.vol_id p.vid
  raise_max_sqnum p.vid.sqnum
  s ← get_state
  sv ← or_fault (walk false ScanVolume_vol_id p.vid.vol_id s.volumes)
  place_leb B F p sv
