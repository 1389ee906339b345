-- ===== src/Ubifs/Lpt/Unpack.antt =====
-- lpt.c: the functions that check a node in a buffer and unpack it. A result carries the error
-- number, 0 for success, and the node as far as it was filled in.
use android_infotm_confident.Prelude.{
  ℕ, zero, suc, ◌+◌, ◌-◌, ◌*◌, true, false, ◌==◌, ltb, leb, if◌then◌else◌, List, [], ◌∷◌, slice,
  set,
}
use android_infotm_confident.Ubifs.Lpt.BitFields.{BitAddr, ubifs_unpack_bits}
use android_infotm_confident.Ubifs.Lpt.Types.{
  Info, Pnode, Nnode, Nbranch, Lprops, LptLprops, crc_bytes, crc_bits, type_bits, lpt_pnode,
  lpt_nnode, lpt_ltab, lpt_lsave, einval,
}
use android_infotm_confident.Ubifs.Lpt.Pack.{body_addr}
use android_infotm_confident.Ubifs.Lpt.Check.{ubifs_categorize_lprops}

module _ (crc16 : List ℕ → ℕ) (junk : ℕ) where
  unfoldable pub check_lpt_crc : List ℕ → ℕ → ℕ
  check_lpt_crc buf len =
      let (crc, _) = ubifs_unpack_bits junk buf (record { addr = 0; bit = 0 }) crc_bits in
      if crc == crc16 (slice buf crc_bytes (len - crc_bytes)) then 0 else einval

  unfoldable pub check_lpt_type : List ℕ → BitAddr → ℕ → ℕ × BitAddr
  check_lpt_type buf at type =
      let (node_type, next) = ubifs_unpack_bits junk buf at type_bits in
      (if node_type == type then 0 else einval, next)

  -- The number of a node, where the model is big.
  unfoldable pub unpack_num : Info → List ℕ → BitAddr → ℕ → ℕ × BitAddr
  unpack_num c buf at num =
      if c.big_lpt then ubifs_unpack_bits junk buf at c.pcnt_bits else (num, at)

  -- The loop of unpack_pnode over the LEBs; a category is computed with no LEB taken.
  unfoldable pub unpack_lprops : Info → List ℕ → BitAddr → List Lprops → List Lprops
  unfolding ubifs_categorize_lprops
  unpack_lprops c buf at [] = []
  unpack_lprops c buf at (l ∷ rest) =
      let (free, at1) = ubifs_unpack_bits junk buf at c.space_bits in
      let (dirty, at2) = ubifs_unpack_bits junk buf at1 c.space_bits in
      let (index, at3) = ubifs_unpack_bits junk buf at2 1 in
      let m = record l {
        free = free * 8;
        dirty = dirty * 8;
        index = if index == 0 then false else true;
        taken = false;
      } in
      record m { category = ubifs_categorize_lprops c m } ∷ unpack_lprops c buf at3 rest

  unfoldable pub unpack_pnode : Info → List ℕ → Pnode → ℕ × Pnode
  unfolding check_lpt_crc check_lpt_type unpack_num unpack_lprops
  unpack_pnode c buf pnode =
      let (e, at) = check_lpt_type buf body_addr lpt_pnode in
      let (num, next) = unpack_num c buf at pnode.num in
      let lprops = unpack_lprops c buf next pnode.lprops in
      if e == 0
      then (check_lpt_crc buf c.pnode_sz, record { num = num; lprops = lprops })
      else (e, pnode)

  unfoldable pub unpack_branches : Info → List ℕ → BitAddr → List Nbranch → List Nbranch
  unpack_branches c buf at [] = []
  unpack_branches c buf at (b ∷ rest) =
      let (field, at1) = ubifs_unpack_bits junk buf at c.lpt_lnum_bits in
      let lnum = field + c.lpt_first in
      let (offs, at2) = ubifs_unpack_bits junk buf at1 c.lpt_offs_bits in
      record { lnum = if lnum == c.lpt_last + 1 then 0 else lnum; offs = offs }
      ∷ unpack_branches c buf at2 rest

  unfoldable pub ubifs_unpack_nnode : Info → List ℕ → Nnode → ℕ × Nnode
  unfolding check_lpt_crc check_lpt_type unpack_num unpack_branches
  ubifs_unpack_nnode c buf nnode =
      let (e, at) = check_lpt_type buf body_addr lpt_nnode in
      let (num, next) = unpack_num c buf at nnode.num in
      let nbranch = unpack_branches c buf next nnode.nbranch in
      if e == 0
      then (check_lpt_crc buf c.nnode_sz, record nnode { num = num; nbranch = nbranch })
      else (e, nnode)

  -- The loop of unpack_ltab from entry `i` on, over `n` entries: an error number and the table. A
  -- field has fewer than 32 bits, so that none is negative.
  unfoldable pub unpack_entries :
      Info → List ℕ → BitAddr → ℕ → ℕ → List LptLprops → ℕ × List LptLprops
  unpack_entries c buf at i zero ltab = (0, ltab)
  unpack_entries c buf at i (suc n) ltab =
      let (free, at1) = ubifs_unpack_bits junk buf at c.lpt_spc_bits in
      let (dirty, at2) = ubifs_unpack_bits junk buf at1 c.lpt_spc_bits in
      let entry : LptLprops = record { free = free; dirty = dirty; tgc = 0; cmt = 0 } in
      let later = unpack_entries c buf at2 (i + 1) n (set ltab i entry) in
      if ltb c.leb_size free
      then (einval, ltab)
      else if ltb c.leb_size dirty
      then (einval, ltab)
      else if ltb c.leb_size (free + dirty)
      then (einval, ltab)
      else later

  unfoldable pub unpack_ltab : Info → List ℕ → ℕ × Info
  unfolding check_lpt_crc check_lpt_type unpack_entries
  unpack_ltab c buf =
      let (e, at) = check_lpt_type buf body_addr lpt_ltab in
      let (f, ltab) = unpack_entries c buf at 0 c.lpt_lebs c.ltab in
      if e == 0
      then (if f == 0 then check_lpt_crc buf c.ltab_sz else f, record c { ltab = ltab })
      else (e, c)

  -- The loop of unpack_lsave.
  unfoldable pub unpack_lnums : Info → List ℕ → BitAddr → ℕ → ℕ → List ℕ → ℕ × List ℕ
  unpack_lnums c buf at i zero lsave = (0, lsave)
  unpack_lnums c buf at i (suc n) lsave =
      let (lnum, at1) = ubifs_unpack_bits junk buf at c.lnum_bits in
      let later = unpack_lnums c buf at1 (i + 1) n (set lsave i lnum) in
      if ltb lnum c.main_first
      then (einval, lsave)
      else if leb c.leb_cnt lnum
      then (einval, lsave)
      else later

  unfoldable pub unpack_lsave : Info → List ℕ → ℕ × Info
  unfolding check_lpt_crc check_lpt_type unpack_lnums
  unpack_lsave c buf =
      let (e, at) = check_lpt_type buf body_addr lpt_lsave in
      let (f, lsave) = unpack_lnums c buf at 0 c.lsave_cnt c.lsave in
      if e == 0
      then (if f == 0 then check_lpt_crc buf c.lsave_sz else f, record c { lsave = lsave })
      else (e, c)
