-- ===== src/Ubifs/Lpt/Check.antt =====
-- lprops.c: ubifs_categorize_lprops; lpt.c: validate_nnode and validate_pnode. The result is the
-- error number, 0 for success.
use Prim.Native.Nat.{bit_and}
use android_infotm_confident.Prelude.{
  ℕ, ◌+◌, ◌-◌, ◌%◌, not, ◌&&◌, ◌==◌, ltb, leb, if◌then◌else◌, List, [], ◌∷◌, Option, none, some, ℤ,
  pos, ltb_ℤ, sub_ℕ,
}
use android_infotm_confident.Ubifs.Lpt.Types.{
  Info, Pnode, Nnode, Nbranch, Lprops, einval, lprops_uncat, lprops_dirty, lprops_dirty_idx,
  lprops_free, lprops_empty, lprops_freeable, lprops_frdi_idx,
}
use android_infotm_confident.Ubifs.Lpt.Dirt.{calc_nnode_num_from_parent, calc_pnode_num_from_parent}

unfoldable pub ubifs_categorize_lprops : Info → Lprops → ℕ
ubifs_categorize_lprops c l =
    if l.taken
    then lprops_uncat
    else if l.free == c.leb_size
    then lprops_empty
    else if l.free + l.dirty == c.leb_size
    then (if l.index then lprops_frdi_idx else lprops_freeable)
    else if l.index
    then (if leb c.min_idx_node_sz (l.dirty + l.free) then lprops_dirty_idx else lprops_uncat)
    else if leb c.dead_wm l.dirty && ltb l.free l.dirty
    then lprops_dirty
    else if ltb 0 l.free
    then lprops_free
    else lprops_uncat

-- The loop of validate_nnode. `max_offs` is negative where a node is larger than an LEB. No offset is
-- negative, since offsets are unpacked from bit fields.
unfoldable pub validate_branches : Info → ℤ → List Nbranch → ℕ
validate_branches c max_offs [] = 0
validate_branches c max_offs (b ∷ rest) =
    let later = validate_branches c max_offs rest in
    if b.lnum == 0
    then (if b.offs == 0 then later else einval)
    else if ltb b.lnum c.lpt_first
    then einval
    else if ltb c.lpt_last b.lnum
    then einval
    else if ltb_ℤ max_offs (pos b.offs)
    then einval
    else later

-- The level below a parent; the root has the height of the tree.
unfoldable pub level_under : Info → Option Nnode → ℕ
level_under c none = c.lpt_hght
level_under c (some parent) = parent.level - 1

unfoldable pub validate_nnode : Info → Nnode → Option Nnode → ℕ → ℕ
unfolding level_under validate_branches
validate_nnode c nnode parent iip =
    let lvl = level_under c parent in
    if c.big_lpt && not (nnode.num == calc_nnode_num_from_parent c parent iip)
    then einval
    else if ltb lvl 1
    then einval
    else if lvl == 1
    then validate_branches c (sub_ℕ c.leb_size c.pnode_sz) nnode.nbranch
    else validate_branches c (sub_ℕ c.leb_size c.nnode_sz) nnode.nbranch

-- The loop of validate_pnode. Free and dirty space are not negative, since they are unpacked from bit
-- fields.
unfoldable pub validate_lprops : Info → List Lprops → ℕ
validate_lprops c [] = 0
validate_lprops c (l ∷ rest) =
    let later = validate_lprops c rest in
    if ltb c.leb_size l.free
    then einval
    else if not (l.free % c.min_io_size == 0)
    then einval
    else if not (bit_and l.free 7 == 0)
    then einval
    else if ltb c.leb_size l.dirty
    then einval
    else if not (bit_and l.dirty 7 == 0)
    then einval
    else if ltb c.leb_size (l.dirty + l.free)
    then einval
    else later

unfoldable pub validate_pnode : Info → Pnode → Nnode → ℕ → ℕ
unfolding validate_lprops
validate_pnode c pnode parent iip =
    if c.big_lpt && not (pnode.num == calc_pnode_num_from_parent c parent iip)
    then einval
    else validate_lprops c pnode.lprops
