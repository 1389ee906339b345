-- ===== src/Ubi/Scan.antt =====
-- modules/ubi/scan.c: the volumes and eraseblocks that are found when a device is attached.
pub mod Types
pub mod Used
pub mod View
pub mod Compare
pub mod Chosen
pub mod Newest
pub mod Add
pub mod Process
pub mod Frame
pub mod Upto
pub mod Whole
pub mod Found
pub mod Faults
use android_infotm_confident.Prelude.{
  ℕ, ◌+◌, ◌*◌, ◌/◌, ◌%◌, ◌≡◌, Bool, true, false, not, ◌&&◌, ◌||◌, ◌==◌, ltb, leb, if◌then◌else◌,
  Option, none, some, List, [], ◌∷◌, ◌++◌, ℤ, pos, negsuc, eq_ℤ,
}
use android_infotm_confident.Outcome.{
  M, ok, err, ◌>>=◌, ◌>>◌, get_state, skip, when, fail, pure, or_fault, check,
}
use android_infotm_confident.Ubi.Rb.{Tree, leaf, walk, amend, link, Balance}
use android_infotm_confident.Ubi.Scan.Types.*

abbrev pub ScanAct : Type 0 → Type 0
ScanAct A = M ScanInfo A

-- kmalloc, vmalloc or kmem_cache_alloc.
unfoldable pub alloc : ScanAct (Unit {0})
alloc s = elim s.allocs [
  | [] ↦ ok tt s
  | true ∷ rest ↦ ok tt (record s { allocs = rest })
  | false ∷ rest ↦ err enomem (record s { allocs = rest })
]

-- list_add or list_add_tail
abbrev pub put {ℓ} : {A : Type ℓ} → Bool → A → List A → List A
put to_head a xs = if to_head then a ∷ xs else xs ++ (a ∷ [])

unfoldable pub add_to_free : ℕ → ℤ → Bool → ScanAct (Unit {0})
unfolding alloc
add_to_free pnum ec to_head = do
  alloc
  λ s. ok tt (record s { free = put to_head (record { pnum = pnum; ec = ec }) s.free })

unfoldable pub add_to_erase : ℕ → ℤ → Bool → ScanAct (Unit {0})
unfolding alloc
add_to_erase pnum ec to_head = do
  alloc
  λ s. ok tt (record s { erase = put to_head (record { pnum = pnum; ec = ec }) s.erase })

-- The count goes up also where the allocation fails.
unfoldable pub add_to_alien : ℕ → ℤ → Bool → ScanAct (Unit {0})
unfolding alloc
add_to_alien pnum ec to_head = do
  λ s. ok tt (record s { alien_peb_count = s.alien_peb_count + 1 })
  alloc
  λ s. ok tt (record s { alien = put to_head (record { pnum = pnum; ec = ec }) s.alien })

unfoldable pub add_corrupted : ℕ → ℤ → ScanAct (Unit {0})
unfolding alloc
add_corrupted pnum ec = do
  alloc
  λ s. ok tt (record s {
    corr_peb_count = s.corr_peb_count + 1;
    corr = record { pnum = pnum; ec = ec } ∷ s.corr;
  })

unfoldable pub validate_vid_hdr : VidHdr → ScanVolume → ScanAct (Unit {0})
validate_vid_hdr vid sv =
    if sv.leb_count == 0
    then skip
    else if not (vid.vol_id == sv.vol_id)
    then fail einval
    else if not (vid.vol_type == (if sv.is_static then vid_static else vid_dynamic))
    then fail einval
    else if not (vid.used_ebs == sv.used_ebs)
    then fail einval
    else if not (vid.data_pad == sv.data_pad)
    then fail einval
    else skip

abbrev pub ScanVolume_vol_id : ScanVolume → ℕ
ScanVolume_vol_id sv = sv.vol_id

abbrev pub ScanLeb_lnum : ScanLeb → ℕ
ScanLeb_lnum seb = seb.lnum

-- The walk turns left where the number sought is greater.
unfoldable pub ubi_scan_find_sv : ScanInfo → ℕ → Option ScanVolume
unfolding walk
ubi_scan_find_sv s vol_id = walk false ScanVolume_vol_id vol_id s.volumes

unfoldable pub ubi_scan_find_seb : ScanVolume → ℕ → Option ScanLeb
unfolding walk
ubi_scan_find_seb sv lnum = walk false ScanLeb_lnum lnum sv.root

abbrev pub fresh_volume : ℕ → VidHdr → ℕ → ScanVolume
fresh_volume vol_id vid junk = record {
  vol_id = vol_id;
  highest_lnum = 0;
  leb_count = 0;
  is_static = not (vid.vol_type == vid_dynamic);
  used_ebs = vid.used_ebs;
  last_data_size = junk;
  data_pad = vid.data_pad;
  compat = vid.compat;
  root = leaf;
}

unfoldable pub add_volume : Balance → ℕ → VidHdr → ScanAct (Unit {0})
unfolding alloc walk
add_volume B vol_id vid s = elim (walk false ScanVolume_vol_id vol_id s.volumes) [
  | some sv ↦ ok tt s
  | none ↦
      (do
        alloc
        λ t. ok tt (record t {
          highest_vol_id = if ltb t.highest_vol_id vol_id then vol_id else t.highest_vol_id;
          volumes =
              B.insert_color
                (link false ScanVolume_vol_id (fresh_volume vol_id vid t.junk) t.volumes);
          vols_found = t.vols_found + 1;
        }))
        s
]

-- second_is_newer | (bitflips << 1) | (corrupted << 2)
abbrev pub verdict : Bool → Bool → Bool → ℕ
verdict newer flips corrupted =
    (if newer then 1 else 0) + (if flips then 2 else 0) + (if corrupted then 4 else 0)

-- An `int` that is passed on: a code, or a negative error number.
unfoldable pub pass_on : ℤ → ScanAct ℕ
pass_on (pos n) = pure n
pass_on (negsuc n) = fail (n + 1)

-- The newer of the two is a copy: its data has to have the checksum of its header.
unfoldable pub check_copy : Flash → ℕ → VidHdr → Bool → ScanAct ℕ
unfolding alloc pass_on
check_copy F pnum vid newer = do
  alloc
  let (e, buf) = F.read_data pnum vid.data_size
  if not (eq_ℤ e (pos 0)) && (not (eq_ℤ e io_bitflips) && not (eq_ℤ e ebadmsg))
      then pass_on e
      else if F.crc32 buf == vid.data_crc
      then pure (verdict newer (not (eq_ℤ e (pos 0))) false)
      else pure (verdict (not newer) false true)

unfoldable pub compare_lebs : Flash → ScanLeb → ℕ → VidHdr → ScanAct ℕ
unfolding check_copy alloc
compare_lebs F seb pnum vid =
    if vid.sqnum == seb.sqnum
    then fail einval
    else if ltb seb.sqnum vid.sqnum
    then (if vid.copy_flag == 0 then pure 1 else check_copy F pnum vid true)
    else if seb.copy_flag == 0
    then pure 0
    else (do
      alloc
      let (e, vh) = F.read_vid_hdr seb.pnum
      if eq_ℤ e (pos 0) || eq_ℤ e io_bitflips
          then check_copy F seb.pnum vh false
          else elim e [ pos n ↦ fail eio | negsuc n ↦ fail (n + 1) ])
