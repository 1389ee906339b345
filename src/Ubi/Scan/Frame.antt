-- ===== src/Ubi/Scan/Frame.antt =====
-- scan.c: what leaves the volumes alone.
use android_infotm_confident.Prelude.{ℕ, Bool, ℤ, arith, refl}
use android_infotm_confident.Outcome.{fail}
use android_infotm_confident.Outcome.Keeps.{Keeps, keeps_rules}
use android_infotm_confident.Ubi.Rb.{Tree}
use android_infotm_confident.Ubi.Scan.Types.{Flash, EcHdr, ScanVolume, ScanInfo}
use android_infotm_confident.Ubi.Scan.{
  alloc, add_to_free, add_to_erase, add_to_alien, add_corrupted,
}
use android_infotm_confident.Ubi.Scan.Process.{
  adjust_mean_ec, count_empty, count_bad, count_maybe_bad, set_ro_mode, bad_vid_hdr, check_ec_hdr,
  calc_mean_ec, check_what_we_have,
}

abbrev pub vols : ScanInfo → Tree ScanVolume
vols s = s.volumes

pub alloc-Keeps : Keeps vols alloc
unfolding alloc
alloc-Keeps = record { at = λ s. ground arith }

-- An action that writes other fields.
pub add_to_free-Keeps : (n : ℕ) (ec : ℤ) (b : Bool) → Keeps vols (add_to_free n ec b)
unfolding add_to_free
add_to_free-Keeps n ec b = search (keeps_rules, alloc-Keeps)

pub add_to_erase-Keeps : (n : ℕ) (ec : ℤ) (b : Bool) → Keeps vols (add_to_erase n ec b)
unfolding add_to_erase
add_to_erase-Keeps n ec b = search (keeps_rules, alloc-Keeps)

pub add_to_alien-Keeps : (n : ℕ) (ec : ℤ) (b : Bool) → Keeps vols (add_to_alien n ec b)
unfolding add_to_alien
add_to_alien-Keeps n ec b = search (keeps_rules, alloc-Keeps)

pub add_corrupted-Keeps : (n : ℕ) (ec : ℤ) → Keeps vols (add_corrupted n ec)
unfolding add_corrupted
add_corrupted-Keeps n ec = search (keeps_rules, alloc-Keeps)

pub adjust_mean_ec-Keeps : (e ec : ℤ) → Keeps vols (adjust_mean_ec e ec)
unfolding adjust_mean_ec
adjust_mean_ec-Keeps e ec = record { at = λ s. ground arith }

pub count_empty-Keeps : Keeps vols count_empty
unfolding count_empty
count_empty-Keeps = record { at = λ s. refl }

pub count_bad-Keeps : Keeps vols count_bad
unfolding count_bad
count_bad-Keeps = record { at = λ s. refl }

pub count_maybe_bad-Keeps : Keeps vols count_maybe_bad
unfolding count_maybe_bad
count_maybe_bad-Keeps = record { at = λ s. refl }

pub set_ro_mode-Keeps : Keeps vols set_ro_mode
unfolding set_ro_mode
set_ro_mode-Keeps = record { at = λ s. refl }

pub check_ec_hdr-Keeps : (h : EcHdr) → Keeps vols (check_ec_hdr h)
unfolding check_ec_hdr fail
check_ec_hdr-Keeps h = record { at = λ s. ground arith }

pub bad_vid_hdr-Keeps : (F : Flash) (n : ℕ) (e ec : ℤ) → Keeps vols (bad_vid_hdr F n e ec)
unfolding bad_vid_hdr
bad_vid_hdr-Keeps F n e ec =
    search (keeps_rules, add_to_erase-Keeps, add_corrupted-Keeps, adjust_mean_ec-Keeps) depth 10

pub calc_mean_ec-Keeps : Keeps vols calc_mean_ec
unfolding calc_mean_ec
calc_mean_ec-Keeps = record { at = λ s. refl }

pub check_what_we_have-Keeps : (n r : ℕ) → Keeps vols (check_what_we_have n r)
unfolding check_what_we_have fail
check_what_we_have-Keeps n r = record { at = λ s. ground arith }
