-- ===== src/Ubi/Misc.antt =====
-- modules/ubi/misc.c: ubi_calc_data_len, ubi_check_pattern, ubi_check_volume, ubi_calculate_reserved.
pub mod Trim
pub mod Scan
use android_infotm_confident.Prelude.{
  ℕ, zero, suc, ◌+◌, ◌-◌, ◌*◌, ◌/◌, Bool, true, false, not, ◌==◌, ltb, if◌then◌else◌, List, get_or,
  ℤ, pos, negsuc, eq_ℤ,
}

abbrev pub ebadmsg : ℕ
ebadmsg = 74

-- `ALIGN(x, a)` for a power of two `a`.
abbrev pub align : ℕ → ℕ → ℕ
align x a = (x + a - 1) / a * a

-- The loop down from `length`: the place behind the last byte that is not 0xFF.
unfoldable pub data_end : List ℕ → ℕ → ℕ
data_end buf zero = 0
data_end buf (suc i) = elim (get_or buf i 0 == 255) [ true ↦ data_end buf i | false ↦ suc i ]

unfoldable pub ubi_calc_data_len : ℕ → List ℕ → ℕ → ℕ
unfolding data_end
ubi_calc_data_len min_io_size buf length = align (data_end buf length) min_io_size

-- The loop of ubi_check_pattern from byte `i` on, over `n` bytes.
unfoldable pub pattern_from : List ℕ → ℕ → ℕ → ℕ → ℕ
pattern_from buf patt i zero = 1
pattern_from buf patt i (suc n) = elim (get_or buf i 0 == patt) [
  | true ↦ pattern_from buf patt (i + 1) n
  | false ↦ 0
]

unfoldable pub ubi_check_pattern : List ℕ → ℕ → ℕ → ℕ
unfolding pattern_from
ubi_check_pattern buf patt size = pattern_from buf patt 0 size

-- `rsvd` is CONFIG_MTD_UBI_BEB_RESERVE, `least` is MIN_RESEVED_PEBS.
unfoldable pub ubi_calculate_reserved : ℕ → ℕ → ℕ → ℕ
ubi_calculate_reserved rsvd least good_peb_count =
    let level = good_peb_count / 100 * rsvd in if ltb level least then least else level

-- The loop of ubi_check_volume from eraseblock `i` on. `read i size` is what ubi_eba_read_leb returns
-- for that many bytes of the eraseblock with a check of its CRC: 0, a negative error number, or one
-- of its positive codes.
unfoldable pub check_from : (ℕ → ℕ → ℤ) → ℕ → ℕ → ℕ → ℕ → ℕ → ℤ
check_from read usable last used i zero = pos 0
check_from read usable last used i (suc n) =
    let size = if i == used - 1 then last else usable in
    elim (eq_ℤ (read i size) (pos 0)) [
      | true ↦ check_from read usable last used (i + 1) n
      | false ↦ if eq_ℤ (read i size) (negsuc (ebadmsg - 1)) then pos 1 else read i size
    ]

-- `got` tells whether vmalloc gives memory.
unfoldable pub ubi_check_volume : Bool → Bool → (ℕ → ℕ → ℤ) → ℕ → ℕ → ℕ → ℤ
unfolding check_from
ubi_check_volume is_static got read usable last used =
    if not is_static
    then pos 0
    else if not got
    then negsuc 11
    else check_from read usable last used 0 used
