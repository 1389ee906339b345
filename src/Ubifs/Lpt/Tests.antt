-- ===== src/Ubifs/Lpt/Tests.antt =====
-- Runs of the functions of lpt.c and lprops.c on a small tree.
use mathlib.Core.Logic.{◌↔◌}
use android_infotm_confident.Prelude.{
  ℕ, zero, suc, ◌+◌, ◌/◌, ◌≤◌, ◌<◌, ◌≡◌, ◌⊎◌, refl, false, ◌==◌, if◌then◌else◌, ◌%◌, ◌^◌, List, [],
  ◌∷◌, replicate, get_elem?, Option, none, some, arith,
}
use android_infotm_confident.Ubifs.Lpt.Sample.{tree}
use android_infotm_confident.Ubifs.Lpt.BitFields.{
  BitAddr, pack_bits, put_byte, word, ubifs_unpack_bits,
}
use android_infotm_confident.Ubifs.Lpt.Types.{Info, Lprops, LptLprops, Pnode, Nnode}
use android_infotm_confident.Ubifs.Lpt.Geometry.{
  calc_sizes, do_calc_lpt_geom, calc_dflt_lpt_geom, height_loop, add_wastage, wastage_loop,
  enough_lebs,
}
use android_infotm_confident.Ubifs.Lpt.Dirt.{
  calc_nnode_num, nnode_num_loop, calc_nnode_num_from_parent, calc_pnode_num_from_parent,
  pnode_num_loop,
}
use android_infotm_confident.Ubifs.Lpt.Check.{
  validate_pnode, validate_lprops, validate_nnode, level_under,
}
use android_infotm_confident.Ubifs.Lpt.RoundTrip.{ubifs_unpack_bits-pack_bits}
use android_infotm_confident.Ubifs.Lpt.Sound.{
  AllFit, AllLead, validate_pnode_iff, validate_nnode_iff,
}
use android_infotm_confident.Ubifs.Lpt.Pack.{
  ubifs_pack_lsave, ubifs_pack_ltab, pack_lnums, pack_entries, put, stamp_crc,
}
use android_infotm_confident.Ubifs.Lpt.Unpack.{
  unpack_lsave, unpack_ltab, unpack_lnums, unpack_entries, check_lpt_type, check_lpt_crc,
}
use android_infotm_confident.Ubifs.Lpt.Tables.{unpack_lsave-main, unpack_ltab-fits}
use android_infotm_confident.Ubifs.Lpt.Numbers.{calc_nnode_num_inj}
use android_infotm_confident.Ubifs.Lpt.Fit.{Roomy, do_calc_lpt_geom-ends, calc_dflt_lpt_geom-Roomy}

-- The number of the last bit set, from 1 on; 0 for 0.
abbrev last_set : ℕ → ℕ → ℕ
last_set zero n = 0
last_set (suc k) n = let rest = last_set k (n / 2) in if n == 0 then 0 else rest + 1

abbrev fls : ℕ → ℕ
fls n = last_set 32 n

abbrev place : BitAddr
place = record { addr = 2; bit = 4 }

abbrev buffer : List ℕ
buffer = 0 ∷ 0 ∷ 9 ∷ 255 ∷ 255 ∷ 255 ∷ []

ubifs_unpack_bits-pack_bits_example :
    ubifs_unpack_bits 77 (pack_bits place 70000 17 buffer).0 place 17
    ≡ (70000, (pack_bits place 70000 17 buffer).1)
ubifs_unpack_bits-pack_bits_example =
    ubifs_unpack_bits-pack_bits 77 buffer place 70000 17 (omega arith) (omega arith) (omega arith)
      (omega arith) (omega arith) (λ h. omega arith)

abbrev dirty_leb : Lprops
dirty_leb = record {
  free = 2048;
  dirty = 4096;
  index = false;
  taken = false;
  category = 0;
  lnum = 12;
}

abbrev leaf : Pnode
leaf = record { num = 16; lprops = dirty_leb ∷ [] }

abbrev bottom : Nnode
bottom = record {
  num = 17;
  level = 1;
  iip = 1;
  nbranch = record { lnum = 7; offs = 64 } ∷ record { lnum = 0; offs = 0 } ∷ [];
}

validate_pnode_iff_example : (validate_pnode tree leaf bottom 0 ≡ 0) ↔ (
    AllFit tree leaf.lprops
    × ((tree.big_lpt ≡ false) ⊎ (leaf.num ≡ calc_pnode_num_from_parent tree bottom 0)))
validate_pnode_iff_example = validate_pnode_iff tree leaf bottom 0

leaf_valid : validate_pnode tree leaf bottom 0 ≡ 0
unfolding validate_pnode validate_lprops calc_pnode_num_from_parent pnode_num_loop
leaf_valid = refl

validate_nnode_iff_example : (validate_nnode tree bottom none 0 ≡ 0) ↔ (
    (0 < level_under tree none)
    × AllLead tree
        (if level_under tree none == 1 then tree.pnode_sz else tree.nnode_sz)
        bottom.nbranch
    × ((tree.big_lpt ≡ false) ⊎ (bottom.num ≡ calc_nnode_num_from_parent tree none 0)))
validate_nnode_iff_example = validate_nnode_iff tree bottom none 0

small_pnode : (calc_sizes fls tree 1).pnode_sz < 126976
unfolding calc_sizes
small_pnode = omega arith

small_nnode : (calc_sizes fls tree 1).nnode_sz < 126976
unfolding calc_sizes
small_nnode = omega arith

do_calc_lpt_geom-ends_example : (d : Info) × (do_calc_lpt_geom fls tree ≡ some d)
do_calc_lpt_geom-ends_example = do_calc_lpt_geom-ends fls tree small_pnode small_nnode

abbrev result_of : Option (ℕ × Info) → Info
result_of none = tree
result_of (some (e, d)) = d

abbrev laid_out : Info
laid_out = result_of (calc_dflt_lpt_geom fls 90 tree)

laid_out_ok : calc_dflt_lpt_geom fls 90 tree ≡ some (0, laid_out)
unfolding calc_dflt_lpt_geom do_calc_lpt_geom height_loop calc_sizes add_wastage wastage_loop
    enough_lebs
laid_out_ok = refl

calc_dflt_lpt_geom-Roomy_example : Roomy 90 laid_out
calc_dflt_lpt_geom-Roomy_example =
    calc_dflt_lpt_geom-Roomy fls 90 tree laid_out (omega arith) laid_out_ok

-- A sum in place of the CRC.
abbrev sum_of : List ℕ → ℕ
sum_of [] = 0
sum_of (x ∷ xs) = (x + sum_of xs) % 2 ^ 16

abbrev no_space : LptLprops
no_space = record { free = 0; dirty = 0; tgc = 1; cmt = 1 }

abbrev small_tree : Info
small_tree = record tree {
  lsave_cnt = 2;
  lsave_sz = 5;
  lsave = 0 ∷ 0 ∷ [];
  ltab = no_space ∷ no_space ∷ [];
}

abbrev saved_lnums : List ℕ
saved_lnums = ubifs_pack_lsave sum_of small_tree (replicate 5 0) (13 ∷ 77 ∷ [])

saved_lnums_ok : (unpack_lsave sum_of 0 small_tree saved_lnums).0 ≡ 0
unfolding unpack_lsave unpack_lnums check_lpt_type check_lpt_crc ubifs_unpack_bits word
    ubifs_pack_lsave pack_lnums put stamp_crc pack_bits put_byte
saved_lnums_ok = refl

unpack_lsave-main_example :
    (lnum : ℕ) × (get_elem? (unpack_lsave sum_of 0 small_tree saved_lnums).1.lsave 1 ≡ some lnum)
    × (12 ≤ lnum)
    × (lnum < 100)
unpack_lsave-main_example =
    unpack_lsave-main sum_of 0 small_tree saved_lnums 1 saved_lnums_ok (omega arith) (omega arith)

abbrev full_leb : LptLprops
full_leb = record { free = 2048; dirty = 100; tgc = 0; cmt = 0 }

abbrev packed_ltab : List ℕ
packed_ltab = ubifs_pack_ltab sum_of small_tree (replicate 11 0) (full_leb ∷ full_leb ∷ [])

packed_ltab_ok : (unpack_ltab sum_of 0 small_tree packed_ltab).0 ≡ 0
unfolding unpack_ltab unpack_entries check_lpt_type check_lpt_crc ubifs_unpack_bits word
    ubifs_pack_ltab pack_entries put stamp_crc pack_bits put_byte
packed_ltab_ok = refl

unpack_ltab-fits_example :
    (entry : LptLprops) × (get_elem? (unpack_ltab sum_of 0 small_tree packed_ltab).1.ltab 1
      ≡ some entry)
    × (entry.free + entry.dirty ≤ 126976)
unpack_ltab-fits_example =
    unpack_ltab-fits sum_of 0 small_tree packed_ltab 1 packed_ltab_ok (omega arith) (omega arith)

last_nnode : calc_nnode_num 2 14 ≡ 27
unfolding calc_nnode_num nnode_num_loop
last_nnode = refl

calc_nnode_num_inj_example : ◌≡◌ {A = ℕ} 2 2 × ◌≡◌ {A = ℕ} 14 14
calc_nnode_num_inj_example = calc_nnode_num_inj 2 2 14 14 (omega arith) (omega arith) refl
