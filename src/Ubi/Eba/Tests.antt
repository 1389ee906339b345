-- ===== src/Ubi/Eba/Tests.antt =====
-- A device of four eraseblocks is attached, and the theorems at it.
use android_infotm_confident.Prelude.{
  ℕ, ◌+◌, ◌<◌, ◌≡◌, refl, true, false, ◌==◌, if◌then◌else◌, Option, none, some, List, [], ◌∷◌,
  get_elem?, ℤ, pos, negsuc, inl, inr, arith, Bool-cases,
}
use android_infotm_confident.Outcome.Keeps.{Ends-ok}
use android_infotm_confident.Outcome.{Outcome, ok, err, fault, ◌>>=◌, for_range}
use android_infotm_confident.Ubi.Rb.{leaf, node, Balance, link, amend}
use android_infotm_confident.Ubi.Scan.Types.{Flash, VidHdr, ScanLeb, ScanVolume, ScanInfo}
use android_infotm_confident.Ubi.Scan.View.{leb_at, Neat}
use android_infotm_confident.Ubi.Scan.Found.{IsOutcome, ubi_scan-Outcome}
use android_infotm_confident.Ubi.Scan.Upto.{Tame}
use android_infotm_confident.Ubi.Scan.Process.{fresh_info, ubi_scan}
use android_infotm_confident.Ubi.Scan.{ubi_scan_find_seb}
use android_infotm_confident.Ubi.Scan.Faults.{at_root, ubi_scan_find_seb-at_root}
use android_infotm_confident.Ubi.Eba.{EbaDevice, idx2vol_id, ubi_eba_init_scan}
use android_infotm_confident.Ubi.Eba.Placed.{Placed, attach-Placed}
use android_infotm_confident.Ubi.Eba.Beyond.{ubi_eba_init_scan-fault}

abbrev no_turns : Balance
no_turns = record { insert_color = λ t. t; inorder-insert_color = λ t. refl }

abbrev header : ℕ → ℕ → ℕ → VidHdr
header copy crc sqnum = record {
  vol_type = 1;
  copy_flag = copy;
  compat = 0;
  vol_id = 3;
  lnum = 7;
  data_size = 2;
  used_ebs = 0;
  data_pad = 0;
  data_crc = crc;
  sqnum = sqnum;
}

-- Three copies of LEB 3:7, the newest with a checksum that is wrong, and a blank eraseblock.
abbrev headers : ℕ → VidHdr
headers n = if n == 0 then header 0 0 11 else if n == 1 then header 1 9 12 else header 1 8 13

abbrev flash : Flash
flash = record {
  leb_size = 8;
  is_bad = λ n. pos 0;
  read_ec_hdr =
      λ n. (if n == 3 then pos 1 else pos 0, record { version = 1; ec = n + 5; image_seq = 0 });
  read_vid_hdr = λ n. (pos 0, headers n);
  read_data = λ n len. (pos 0, 4 ∷ 5 ∷ []);
  read_area = λ n. (pos 0, []);
  crc32 = λ bytes. elim bytes [ [] ↦ 0 | x ∷ r ↦ elim r [ [] ↦ x | y ∷ z ↦ x + y ] ];
}

abbrev start : ScanInfo
start = fresh_info false 0 [] 0

found_at : Outcome ScanInfo (Unit {0}) → ℕ → ℕ → Option ℕ
found_at (ok a t) v l = elim (leb_at t.volumes v l) [ none ↦ none | some seb ↦ some seb.pnum ]
found_at (err e t) v l = none
found_at fault v l = none

scan_finds_copy : found_at (ubi_scan no_turns flash 4 77 start) 3 7 ≡ some 1
unfolding found_at ubi_scan ◌>>=◌ for_range link amend
scan_finds_copy = refl

copy_flag_bit : (n : ℕ) → (headers n).copy_flag < 2
copy_flag_bit n = elim (Bool-cases (n == 0)) [
  | inl e ↦ rw e (omega arith)
  | inr e ↦ elim (Bool-cases (n == 1)) [
    | inl h ↦ rw (e, h) (omega arith)
    | inr h ↦ rw (e, h) (omega arith)
  ]
]

flash-Tame : Tame flash
flash-Tame = record { flag = copy_flag_bit; status = λ n len. inl refl }

abbrev end_state : {S : Type 0} → S → Outcome S (Unit {0}) → S
end_state s (ok a t) = t
end_state s (err e t) = t
end_state s fault = s

scanned : ScanInfo
unfolding ubi_scan ◌>>=◌ for_range link amend
scanned = end_state start (ubi_scan no_turns flash 4 77 start)

scanned_ok : ubi_scan no_turns flash 4 77 start ≡ ok tt scanned
unfolding scanned ubi_scan ◌>>=◌ for_range link amend
scanned_ok = refl

-- Volume 3 of a device with 4 slots, of a number of LEBs.
abbrev device : ℕ → EbaDevice
device size = record {
  vtbl_slots = 4;
  volumes = none ∷ none ∷ none ∷ some (record { reserved_pebs = size; eba_tbl = none }) ∷ none ∷ [];
  bad_allowed = true;
  good_peb_count = 400;
  avail_pebs = 10;
  rsvd_pebs = 0;
  beb_rsvd_pebs = 0;
  beb_rsvd_level = 0;
  global_sqnum = 0;
  allocs = [];
}

abbrev table : List ℤ
table =
    negsuc 0
    ∷ negsuc 0
    ∷ negsuc 0
    ∷ negsuc 0
    ∷ negsuc 0
    ∷ negsuc 0
    ∷ negsuc 0
    ∷ pos 1
    ∷ negsuc 0
    ∷ []

attached : EbaDevice
unfolding scanned ubi_scan ubi_eba_init_scan ◌>>=◌ for_range link amend
attached = end_state (device 9) (ubi_eba_init_scan 5 2 scanned (device 9))

attached_ok : ubi_eba_init_scan 5 2 scanned (device 9) ≡ ok tt attached
unfolding attached
attached_ok = refl

attached_table :
    get_elem? attached.volumes 3 ≡ some (some (record { reserved_pebs = 9; eba_tbl = some table }))
unfolding attached
attached_table = refl

attach-Placed_example : (e : ℤ) × (get_elem? table 7 ≡ some e) × Placed flash 4 (idx2vol_id 4 3) 7 e
attach-Placed_example =
    attach-Placed no_turns flash 4 77 false 0 [] 0 5 2 scanned (device 9) attached 3 7
      (record { reserved_pebs = 9; eba_tbl = some table }) table flash-Tame scanned_ok attached_ok
      attached_table refl (omega arith)

abbrev newest : ScanLeb
newest = record { ec = pos 6; pnum = 1; lnum = 7; scrub = false; copy_flag = 1; sqnum = 12 }

scanned-Neat : Neat scanned.volumes
scanned-Neat =
    (Ends-ok (λ _ (t : ScanInfo). IsOutcome flash 4 t.volumes)
      (ubi_scan-Outcome no_turns flash 4 77 false 0 [] 0 flash-Tame) scanned_ok).0

scanned_newest : leb_at scanned.volumes 3 7 ≡ some newest
unfolding scanned
scanned_newest = refl

-- The volume is smaller than the LEB that was found.
ubi_eba_init_scan-fault_example : ubi_eba_init_scan 5 2 scanned (device 5) ≡ fault
unfolding idx2vol_id
ubi_eba_init_scan-fault_example =
    ubi_eba_init_scan-fault scanned scanned-Neat 7 (record { reserved_pebs = 5; eba_tbl = none })
      newest (omega arith) 5 2 3 (device 5) refl refl scanned_newest

abbrev older : ScanLeb
older = record newest { lnum = 3; pnum = 2 }

abbrev two_lebs : ScanVolume
two_lebs = record {
  vol_id = 3;
  highest_lnum = 7;
  leb_count = 2;
  is_static = false;
  used_ebs = 0;
  last_data_size = 0;
  data_pad = 0;
  compat = 0;
  root = node (node leaf older leaf) newest leaf;
}

-- LEB 3 is in the volume, and is not found.
ubi_scan_find_seb-at_root_example : ubi_scan_find_seb two_lebs 3 ≡ at_root 3 two_lebs.root
ubi_scan_find_seb-at_root_example = ubi_scan_find_seb-at_root two_lebs 3 ((refl, tt), (tt, tt))
