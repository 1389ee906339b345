-- ===== src/Ubi/Eba.antt =====
-- modules/ubi/eba.c: the association of logical with physical eraseblocks, as it is set up from
-- the scanning information.
pub mod Table
pub mod Attach
pub mod Beyond
pub mod Placed
pub mod Read
pub mod Write
pub mod Tests
use android_infotm_confident.Prelude.{
  ℕ, ◌+◌, ◌-◌, ◌<◌, ◌≡◌, Bool, true, false, not, ◌==◌, ltb, leb, if◌then◌else◌, Option, none, some,
  List, [], ◌∷◌, map, set, replicate, ℤ, pos, negsuc,
}
use android_infotm_confident.Outcome.{
  M, ok, err, ◌>>=◌, ◌>>◌, get_state, skip, when, fail, pure, recover, or_fault,
}
use android_infotm_confident.Ubi.Rb.{Tree, inorder, walk}
use android_infotm_confident.Ubi.Misc.{ubi_calculate_reserved}
use android_infotm_confident.Ubi.Scan.{ubi_scan_find_sv}
use android_infotm_confident.Ubi.Scan.Types.{
  ScanLeb, ScanVolume, ScanInfo, layout_volume_id, enomem,
}

-- UBI_LEB_UNMAPPED
abbrev pub leb_unmapped : ℤ
leb_unmapped = negsuc 0

abbrev pub enospc : ℕ
enospc = 28

abbrev pub eba_reserved_pebs : ℕ
eba_reserved_pebs = 1

-- struct ubi_volume: its size, and its table, NULL at first.
pub record EbaVolume : Type 0 where
  pub reserved_pebs : ℕ
  pub eba_tbl : Option (List ℤ)

-- The fields of struct ubi_device that are set up, and the outcomes of the coming allocations.
pub record EbaDevice : Type 0 where
  pub vtbl_slots : ℕ
  pub volumes : List (Option EbaVolume)
  pub bad_allowed : Bool
  pub good_peb_count : ℕ
  pub avail_pebs : ℕ
  pub rsvd_pebs : ℕ
  pub beb_rsvd_pebs : ℕ
  pub beb_rsvd_level : ℕ
  pub global_sqnum : ℕ
  pub allocs : List Bool

abbrev pub EbaAct : Type 0 → Type 0
EbaAct A = M EbaDevice A

unfoldable pub idx2vol_id : ℕ → ℕ → ℕ
idx2vol_id vtbl_slots idx = if leb vtbl_slots idx then idx - vtbl_slots + layout_volume_id else idx

-- The loop over the eraseblocks of a volume. One beyond the end of the volume is moved to the list
-- of those to erase, and is still written to the table: `none`, a write out of bounds.
unfoldable pub fill_tbl : ℕ → List ScanLeb → List ℤ → Option (List ℤ)
fill_tbl reserved [] tbl = some tbl
fill_tbl reserved (seb ∷ rest) tbl =
    let next = fill_tbl reserved rest (set tbl seb.lnum (pos seb.pnum)) in
    if leb reserved seb.lnum then none else next

abbrev pub blank_tbl : ℕ → List ℤ
blank_tbl n = replicate n leb_unmapped

abbrev pub tbl_of : ScanInfo → ℕ → ℕ → Option (List ℤ)
tbl_of s vol_id reserved = elim (ubi_scan_find_sv s vol_id) [
  | none ↦ some (blank_tbl reserved)
  | some sv ↦ fill_tbl reserved (inorder sv.root) (blank_tbl reserved)
]

unfoldable pub eba_alloc : EbaAct (Unit {0})
eba_alloc u = elim u.allocs [
  | [] ↦ ok tt u
  | true ∷ rest ↦ ok tt (record u { allocs = rest })
  | false ∷ rest ↦ err enomem (record u { allocs = rest })
]

-- The tables of the volumes from an index on.
unfoldable pub init_tbls : ScanInfo → ℕ → List (Option EbaVolume) → EbaAct (List (Option EbaVolume))
unfolding eba_alloc fill_tbl idx2vol_id ubi_scan_find_sv
init_tbls s idx [] = pure []
init_tbls s idx (none ∷ rest) = do vs ← init_tbls s (idx + 1) rest; pure (none ∷ vs)
init_tbls s idx (some v ∷ rest) =
    let later = init_tbls s (idx + 1) rest in
    (do
      eba_alloc
      u ← get_state
      tbl ← or_fault (tbl_of s (idx2vol_id u.vtbl_slots idx) v.reserved_pebs)
      vs ← later
      pure (some (record v { eba_tbl = some tbl }) ∷ vs))

unfoldable pub set_tbls : List (Option EbaVolume) → EbaAct (Unit {0})
set_tbls vs u = ok tt (record u { volumes = vs })

unfoldable pub raise_sqnum : ℕ → EbaAct (Unit {0})
raise_sqnum max_sqnum u = ok tt (record u { global_sqnum = max_sqnum + 1 })

-- Eraseblocks are set apart for atomic changes, and for those that go bad. `rsvd` is
-- CONFIG_MTD_UBI_BEB_RESERVE, `least` is MIN_RESEVED_PEBS.
unfoldable pub reserve_pebs : ℕ → ℕ → EbaAct (Unit {0})
unfolding ubi_calculate_reserved
reserve_pebs rsvd least u =
    if ltb u.avail_pebs eba_reserved_pebs
    then fail enospc u
    else (let avail = u.avail_pebs - eba_reserved_pebs in
        let taken = u.rsvd_pebs + eba_reserved_pebs in
        let level = ubi_calculate_reserved rsvd least u.good_peb_count in
        let beb = if ltb avail level then avail else level in
        if u.bad_allowed
        then ok tt (record u {
          beb_rsvd_level = level;
          beb_rsvd_pebs = beb;
          avail_pebs = avail - beb;
          rsvd_pebs = taken + beb;
        })
        else ok tt (record u { avail_pebs = avail; rsvd_pebs = taken }))

abbrev pub without_tbl : Option EbaVolume → Option EbaVolume
without_tbl none = none
without_tbl (some v) = some (record v { eba_tbl = none })

-- out_free: all tables are freed, and the pointers reset.
unfoldable pub free_tbls : ℕ → EbaAct (Unit {0})
free_tbls e u = err e (record u { volumes = map without_tbl u.volumes })

unfoldable pub set_up_tbls : ℕ → ℕ → ScanInfo → EbaAct (Unit {0})
unfolding init_tbls set_tbls reserve_pebs
set_up_tbls rsvd least s = do
  u ← get_state
  vs ← init_tbls s 0 u.volumes
  set_tbls vs
  reserve_pebs rsvd least

unfoldable pub ubi_eba_init_scan : ℕ → ℕ → ScanInfo → EbaAct (Unit {0})
unfolding raise_sqnum set_up_tbls free_tbls
ubi_eba_init_scan rsvd least s = do
  raise_sqnum s.max_sqnum
  recover (set_up_tbls rsvd least s) free_tbls
