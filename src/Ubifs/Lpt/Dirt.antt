-- ===== src/Ubifs/Lpt/Dirt.antt =====
-- lpt.c: the table of the tree's own LEBs, and the numbers of the nodes. An access outside of the
-- table is `none`.
use Prim.Native.Nat.{bit_or, bit_and, bit_xor}
use android_infotm_confident.Prelude.{
  ℕ, zero, suc, ◌+◌, ◌-◌, ◌*◌, ◌/◌, ◌^◌, true, ◌==◌, ltb, if◌then◌else◌, List, [], ◌∷◌, Option,
  none, some, get_elem?, set,
}
use android_infotm_confident.Ubifs.Lpt.Types.{Info, Pnode, Nnode, Lprops, LptLprops, fanout, ◌>>=◌}

unfoldable pub ltab_entry : Info → ℕ → Option LptLprops
ltab_entry c lnum = if ltb lnum c.lpt_first then none else get_elem? c.ltab (lnum - c.lpt_first)

unfoldable pub ubifs_add_lpt_dirt : Info → ℕ → ℕ → Option Info
unfolding ltab_entry
ubifs_add_lpt_dirt c lnum dirty =
    if dirty == 0 then some c else if lnum == 0 then some c else elim (ltab_entry c lnum) [
      | none ↦ none
      | some e ↦ some (record c {
        ltab = set c.ltab (lnum - c.lpt_first) (record e { dirty = e.dirty + dirty });
      })
    ]

unfoldable pub set_ltab : Info → ℕ → ℕ → ℕ → Option Info
unfolding ltab_entry
set_ltab c lnum free dirty = elim (ltab_entry c lnum) [
  | none ↦ none
  | some e ↦ some (record c {
    ltab = set c.ltab (lnum - c.lpt_first) (record e { free = free; dirty = dirty });
  })
]

-- `np` is the parent of the node.
unfoldable pub ubifs_add_nnode_dirt : Info → Option Nnode → Nnode → Option Info
unfolding ubifs_add_lpt_dirt
ubifs_add_nnode_dirt c none nnode = do
  d ← ubifs_add_lpt_dirt c c.lpt_lnum c.nnode_sz
  if d.ltab_dirty
      then some d
      else ubifs_add_lpt_dirt (record d { ltab_dirty = true }) d.ltab_lnum d.ltab_sz
ubifs_add_nnode_dirt c (some np) nnode = do
  b ← get_elem? np.nbranch nnode.iip
  ubifs_add_lpt_dirt c b.lnum c.nnode_sz

-- `iip` is the place of the pnode in its parent.
unfoldable pub add_pnode_dirt : Info → Nnode → ℕ → Option Info
unfolding ubifs_add_lpt_dirt
add_pnode_dirt c parent iip = do
  b ← get_elem? parent.nbranch iip
  ubifs_add_lpt_dirt c b.lnum c.pnode_sz

unfoldable pub nnode_num_loop : ℕ → ℕ → ℕ → ℕ
nnode_num_loop zero col num = num
nnode_num_loop (suc row) col num =
    nnode_num_loop row (col / fanout) (bit_or (bit_and col (fanout - 1)) (num * fanout))

unfoldable pub calc_nnode_num : ℕ → ℕ → ℕ
unfolding nnode_num_loop
calc_nnode_num row col = nnode_num_loop row col 1

unfoldable pub calc_nnode_num_from_parent : Info → Option Nnode → ℕ → ℕ
calc_nnode_num_from_parent c none iip = 1
calc_nnode_num_from_parent c (some parent) iip =
    let shft = (c.lpt_hght - parent.level) * 2 in
    bit_or (bit_xor parent.num (2 ^ shft)) ((fanout + iip) * 2 ^ shft)

unfoldable pub pnode_num_loop : ℕ → ℕ → ℕ → ℕ
pnode_num_loop zero pnum num = num
pnode_num_loop (suc n) pnum num =
    pnode_num_loop n (pnum / fanout) (bit_or (bit_and pnum (fanout - 1)) (num * fanout))

unfoldable pub calc_pnode_num_from_parent : Info → Nnode → ℕ → ℕ
unfolding pnode_num_loop
calc_pnode_num_from_parent c parent iip =
    bit_or iip (pnode_num_loop (c.lpt_hght - 1) parent.num 0 * fanout)

-- The loop stops at the end of the main area, and leaves the other numbers.
unfoldable pub number_from : ℕ → ℕ → List Lprops → List Lprops
number_from leb_cnt lnum [] = []
number_from leb_cnt lnum (l ∷ rest) =
    let later = number_from leb_cnt (lnum + 1) rest in
    if ltb lnum leb_cnt then record l { lnum = lnum } ∷ later else l ∷ rest

unfoldable pub set_pnode_lnum : Info → Pnode → Pnode
unfolding number_from
set_pnode_lnum c pnode = record pnode {
  lprops = number_from c.leb_cnt (pnode.num * fanout + c.main_first) pnode.lprops;
}
