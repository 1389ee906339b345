-- ===== src/Ubi/Scan/Types.antt =====
-- What scan.c works on: headers as io.c reads them, struct ubi_scan_leb, ubi_scan_volume and
-- ubi_scan_info of scan.h, and the codes of ubi.h and ubi-media.h.
use android_infotm_confident.Prelude.{ℕ, Bool, List, ℤ, pos, negsuc}
use android_infotm_confident.Ubi.Rb.{Tree}

abbrev pub io_ff : ℤ
io_ff = pos 1

abbrev pub io_ff_bitflips : ℤ
io_ff_bitflips = pos 2

abbrev pub io_bad_hdr : ℤ
io_bad_hdr = pos 3

abbrev pub io_bad_hdr_ebadmsg : ℤ
io_bad_hdr_ebadmsg = pos 4

abbrev pub io_bitflips : ℤ
io_bitflips = pos 5

abbrev pub scan_unknown_ec : ℤ
scan_unknown_ec = negsuc 0

-- -EBADMSG
abbrev pub ebadmsg : ℤ
ebadmsg = negsuc 73

abbrev pub eio : ℕ
eio = 5

abbrev pub enomem : ℕ
enomem = 12

abbrev pub einval : ℕ
einval = 22

abbrev pub vid_dynamic : ℕ
vid_dynamic = 1

abbrev pub vid_static : ℕ
vid_static = 2

abbrev pub ubi_version : ℕ
ubi_version = 1

abbrev pub max_erasecounter : ℕ
max_erasecounter = 0x7FFFFFFF

abbrev pub max_volumes : ℕ
max_volumes = 128

abbrev pub layout_volume_id : ℕ
layout_volume_id = 0x7FFFEFFF

abbrev pub compat_delete : ℕ
compat_delete = 1

abbrev pub compat_ro : ℕ
compat_ro = 2

abbrev pub compat_preserve : ℕ
compat_preserve = 4

abbrev pub compat_reject : ℕ
compat_reject = 5

pub record EcHdr : Type 0 where
  pub version : ℕ
  pub ec : ℕ
  pub image_seq : ℕ

pub record VidHdr : Type 0 where
  pub vol_type : ℕ
  pub copy_flag : ℕ
  pub compat : ℕ
  pub vol_id : ℕ
  pub lnum : ℕ
  pub data_size : ℕ
  pub used_ebs : ℕ
  pub data_pad : ℕ
  pub data_crc : ℕ
  pub sqnum : ℕ

-- What io.c answers while the flash is scanned, by the number of the physical eraseblock, and
-- crc32 of the kernel. `read_area` is ubi_io_read of the whole data area.
pub record Flash : Type 0 where
  pub leb_size : ℕ
  pub is_bad : ℕ → ℤ
  pub read_ec_hdr : ℕ → ℤ × EcHdr
  pub read_vid_hdr : ℕ → ℤ × VidHdr
  pub read_data : ℕ → ℕ → ℤ × List ℕ
  pub read_area : ℕ → ℤ × List ℕ
  pub crc32 : List ℕ → ℕ

pub record ScanLeb : Type 0 where
  pub ec : ℤ
  pub pnum : ℕ
  pub lnum : ℕ
  pub scrub : Bool
  pub copy_flag : ℕ
  pub sqnum : ℕ

-- An eraseblock on one of the lists.
pub record ScanPeb : Type 0 where
  pub pnum : ℕ
  pub ec : ℤ

pub record ScanVolume : Type 0 where
  pub vol_id : ℕ
  pub highest_lnum : ℕ
  pub leb_count : ℕ
  pub is_static : Bool
  pub used_ebs : ℕ
  pub last_data_size : ℕ
  pub data_pad : ℕ
  pub compat : ℕ
  pub root : Tree ScanLeb

-- struct ubi_scan_info, with `ro_mode` and `image_seq` of the device, `allocs`, the outcomes of
-- the coming allocations (success when empty), and `junk`, what fresh memory holds.
pub record ScanInfo : Type 0 where
  pub volumes : Tree ScanVolume
  pub corr : List ScanPeb
  pub free : List ScanPeb
  pub erase : List ScanPeb
  pub alien : List ScanPeb
  pub corr_peb_count : ℕ
  pub empty_peb_count : ℕ
  pub alien_peb_count : ℕ
  pub bad_peb_count : ℕ
  pub maybe_bad_peb_count : ℕ
  pub vols_found : ℕ
  pub highest_vol_id : ℕ
  pub is_empty : Bool
  pub min_ec : ℤ
  pub max_ec : ℤ
  pub max_sqnum : ℕ
  pub mean_ec : ℕ
  pub ec_sum : ℤ
  pub ec_count : ℕ
  pub ro_mode : Bool
  pub image_seq : ℕ
  pub allocs : List Bool
  pub junk : ℕ
