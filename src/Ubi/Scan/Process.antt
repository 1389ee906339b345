-- ===== src/Ubi/Scan/Process.antt =====
-- scan.c: process_eb, and ubi_scan over all physical eraseblocks.
use android_infotm_confident.Prelude.{
  ℕ, ◌+◌, ◌-◌, ◌/◌, Bool, true, false, not, ◌&&◌, ◌||◌, ◌==◌, ltb, leb, if◌then◌else◌, List, [],
  map, ℤ, pos, ◌+ℤ◌, ltb_ℤ, eq_ℤ, neg_part, pos_part,
}
use android_infotm_confident.Outcome.{ok, ◌>>◌, when, fail, for_range}
use android_infotm_confident.Ubi.Rb.{Tree, leaf, node, Balance}
use android_infotm_confident.Ubi.Misc.{ubi_check_pattern}
use android_infotm_confident.Ubi.Scan.Types.{
  Flash, EcHdr, VidHdr, ScanLeb, ScanPeb, ScanVolume, ScanInfo, io_ff, io_ff_bitflips, io_bad_hdr,
  io_bad_hdr_ebadmsg, io_bitflips, scan_unknown_ec, ebadmsg, einval, ubi_version, max_erasecounter,
  max_volumes, layout_volume_id, compat_delete, compat_ro, compat_preserve, compat_reject,
}
use android_infotm_confident.Ubi.Scan.{
  ScanAct, alloc, add_to_free, add_to_erase, add_to_alien, add_corrupted,
}
use android_infotm_confident.Ubi.Scan.Used.{Peb, ubi_scan_add_used}

-- 0 if a power cut explains the header, 1 if it does not, or the error of the read.
unfoldable pub check_corruption : Flash → ℕ → ℤ
unfolding ubi_check_pattern
check_corruption F pnum =
    let (e, buf) = F.read_area pnum in
    if eq_ℤ e io_bitflips || eq_ℤ e ebadmsg
    then pos 0
    else if not (eq_ℤ e (pos 0))
    then e
    else if not (ubi_check_pattern buf 255 F.leb_size == 0)
    then pos 0
    else pos 1

unfoldable pub adjust_mean_ec : ℤ → ℤ → ScanAct (Unit {0})
adjust_mean_ec ec_err ec s =
    if eq_ℤ ec_err (pos 0)
    then ok tt (record s {
      ec_sum = s.ec_sum +ℤ ec;
      ec_count = s.ec_count + 1;
      max_ec = if ltb_ℤ s.max_ec ec then ec else s.max_ec;
      min_ec = if ltb_ℤ ec s.min_ec then ec else s.min_ec;
    })
    else ok tt s

unfoldable pub count_empty : ScanAct (Unit {0})
count_empty s = ok tt (record s { empty_peb_count = s.empty_peb_count + 1 })

unfoldable pub count_bad : ScanAct (Unit {0})
count_bad s = ok tt (record s { bad_peb_count = s.bad_peb_count + 1 })

unfoldable pub count_maybe_bad : ScanAct (Unit {0})
count_maybe_bad s = ok tt (record s { maybe_bad_peb_count = s.maybe_bad_peb_count + 1 })

unfoldable pub set_ro_mode : ScanAct (Unit {0})
set_ro_mode s = ok tt (record s { ro_mode = true })

-- A corrupted VID header.
unfoldable pub bad_vid_hdr : Flash → ℕ → ℤ → ℤ → ScanAct (Unit {0})
unfolding check_corruption add_to_erase add_corrupted adjust_mean_ec
bad_vid_hdr F pnum ec_err ec =
    let e = if not (eq_ℤ ec_err (pos 0)) then pos 0 else check_corruption F pnum in
    if ltb_ℤ e (pos 0) then fail (neg_part e) else (do
      if eq_ℤ e (pos 0) then add_to_erase pnum ec true else add_corrupted pnum ec
      adjust_mean_ec ec_err ec)

-- An internal volume that this UBI does not know.
abbrev pub foreign : VidHdr → Bool
foreign vid = ltb max_volumes vid.vol_id && not (vid.vol_id == layout_volume_id)

unfoldable pub add_and_adjust : Balance → Flash → Peb → ℤ → ScanAct (Unit {0})
unfolding ubi_scan_add_used adjust_mean_ec
add_and_adjust B F p ec_err = do ubi_scan_add_used B F p; adjust_mean_ec ec_err p.ec

unfoldable pub use_peb : Balance → Flash → Peb → ℤ → ScanAct (Unit {0})
unfolding add_to_erase add_to_alien set_ro_mode add_and_adjust
use_peb B F p ec_err =
    if foreign p.vid
    then (if p.vid.compat == compat_delete
        then add_to_erase p.pnum p.ec true
        else if p.vid.compat == compat_ro
        then (do set_ro_mode; add_and_adjust B F p ec_err)
        else if p.vid.compat == compat_preserve
        then add_to_alien p.pnum p.ec false
        else if p.vid.compat == compat_reject
        then fail einval
        else add_and_adjust B F p ec_err)
    else add_and_adjust B F p ec_err

unfoldable pub look_at_vid_hdr : Balance → Flash → ℕ → ℤ → ℤ → Bool → ScanAct (Unit {0})
unfolding bad_vid_hdr use_peb count_maybe_bad add_to_free
look_at_vid_hdr B F pnum ec_err ec flips =
    let (e, vid) = F.read_vid_hdr pnum in
    if ltb_ℤ e (pos 0)
    then fail (neg_part e)
    else if eq_ℤ e (pos 0)
    then use_peb B F (record { pnum = pnum; ec = ec; vid = vid; flips = flips }) ec_err
    else if eq_ℤ e io_bitflips
    then use_peb B F (record { pnum = pnum; ec = ec; vid = vid; flips = true }) ec_err
    else if eq_ℤ e io_bad_hdr_ebadmsg
    then (do when (eq_ℤ ec_err io_bad_hdr_ebadmsg) count_maybe_bad; bad_vid_hdr F pnum ec_err ec)
    else if eq_ℤ e io_bad_hdr
    then bad_vid_hdr F pnum ec_err ec
    else if eq_ℤ e io_ff_bitflips
    then (do add_to_erase pnum ec true; adjust_mean_ec ec_err ec)
    else if eq_ℤ e io_ff
    then (do
      if not (eq_ℤ ec_err (pos 0)) then add_to_erase pnum ec true else add_to_free pnum ec false
      adjust_mean_ec ec_err ec)
    else fail einval

-- The image sequence number of the first header that has one is the device's.
unfoldable pub check_ec_hdr : EcHdr → ScanAct (Unit {0})
check_ec_hdr h s =
    if not (h.version == ubi_version)
    then fail einval s
    else if ltb max_erasecounter h.ec
    then fail einval s
    else (let seq =
          if s.image_seq == 0 && not (h.image_seq == 0) then h.image_seq else s.image_seq in
        let t = record s { image_seq = seq } in
        if not (seq == 0) && (not (h.image_seq == 0) && not (seq == h.image_seq))
        then fail einval t
        else ok tt t)

unfoldable pub process_good : Balance → Flash → ℕ → ScanAct (Unit {0})
unfolding look_at_vid_hdr check_ec_hdr count_empty
process_good B F pnum =
    let (e, h) = F.read_ec_hdr pnum in
    if ltb_ℤ e (pos 0)
    then fail (neg_part e)
    else if eq_ℤ e (pos 0) || eq_ℤ e io_bitflips
    then (do check_ec_hdr h; look_at_vid_hdr B F pnum (pos 0) (pos h.ec) (eq_ℤ e io_bitflips))
    else if eq_ℤ e io_ff
    then (do count_empty; add_to_erase pnum scan_unknown_ec false)
    else if eq_ℤ e io_ff_bitflips
    then (do count_empty; add_to_erase pnum scan_unknown_ec true)
    else if eq_ℤ e io_bad_hdr_ebadmsg || eq_ℤ e io_bad_hdr
    then look_at_vid_hdr B F pnum e scan_unknown_ec true
    else fail einval

unfoldable pub process_eb : Balance → Flash → ℕ → ScanAct (Unit {0})
unfolding process_good count_bad
process_eb B F pnum =
    let e = F.is_bad pnum in
    if ltb_ℤ e (pos 0)
    then fail (neg_part e)
    else if not (eq_ℤ e (pos 0))
    then count_bad
    else process_good B F pnum

abbrev pub tree_map {ℓ} : {A : Type ℓ} → (A → A) → Tree A → Tree A
tree_map f leaf = leaf
tree_map f (node l a r) = node (tree_map f l) (f a) (tree_map f r)

unfoldable pub calc_mean_ec : ScanAct (Unit {0})
calc_mean_ec s =
    ok tt
      (record s { mean_ec = if s.ec_count == 0 then s.mean_ec else pos_part s.ec_sum / s.ec_count })

-- Bad and alien eraseblocks are counted once each, so the difference is exact. `random` is what
-- get_random_bytes gives.
unfoldable pub check_what_we_have : ℕ → ℕ → ScanAct (Unit {0})
check_what_we_have total random s =
    let peb_count = total - s.bad_peb_count - s.alien_peb_count in
    let max_corr = if peb_count / 20 == 0 then 8 else peb_count / 20 in
    if not (s.corr_peb_count == 0) && leb max_corr s.corr_peb_count
    then fail einval s
    else if s.empty_peb_count + s.maybe_bad_peb_count == peb_count
    then (if leb s.maybe_bad_peb_count 2
        then ok tt (record s { is_empty = true; image_seq = random })
        else fail einval s)
    else ok tt s

abbrev pub known_ec : ℕ → ℤ → ℤ
known_ec mean ec = if eq_ℤ ec scan_unknown_ec then pos mean else ec

abbrev pub known_seb : ℕ → ScanLeb → ScanLeb
known_seb mean seb = record seb { ec = known_ec mean seb.ec }

abbrev pub known_volume : ℕ → ScanVolume → ScanVolume
known_volume mean sv = record sv { root = tree_map (known_seb mean) sv.root }

abbrev pub known_peb : ℕ → ScanPeb → ScanPeb
known_peb mean p = record p { ec = known_ec mean p.ec }

-- An unknown erase counter is taken to be the mean.
unfoldable pub fill_unknown_ec : ScanAct (Unit {0})
fill_unknown_ec s = ok tt (record s {
  volumes = tree_map (known_volume s.mean_ec) s.volumes;
  free = map (known_peb s.mean_ec) s.free;
  corr = map (known_peb s.mean_ec) s.corr;
  erase = map (known_peb s.mean_ec) s.erase;
})

-- struct ubi_scan_info as kzalloc leaves it, on a device in a mode.
abbrev pub fresh_info : Bool → ℕ → List Bool → ℕ → ScanInfo
fresh_info ro_mode image_seq allocs junk = record {
  volumes = leaf;
  corr = [];
  free = [];
  erase = [];
  alien = [];
  corr_peb_count = 0;
  empty_peb_count = 0;
  alien_peb_count = 0;
  bad_peb_count = 0;
  maybe_bad_peb_count = 0;
  vols_found = 0;
  highest_vol_id = 0;
  is_empty = false;
  min_ec = pos 0;
  max_ec = pos 0;
  max_sqnum = 0;
  mean_ec = 0;
  ec_sum = pos 0;
  ec_count = 0;
  ro_mode = ro_mode;
  image_seq = image_seq;
  allocs = allocs;
  junk = junk;
}

-- The allocations before the scan: `si`, the slab, and the two headers.
unfoldable pub ubi_scan : Balance → Flash → ℕ → ℕ → ScanAct (Unit {0})
unfolding alloc process_eb calc_mean_ec check_what_we_have fill_unknown_ec
ubi_scan B F peb_count random = do
  alloc
  alloc
  alloc
  alloc
  for_range 0 peb_count (process_eb B F)
  calc_mean_ec
  check_what_we_have peb_count random
  fill_unknown_ec
