-- ===== src/Ubifs/Lpt/Pack.antt =====
-- lpt.c: the functions that pack a node into a buffer. The CRC of kernel's lib/crc16.c, from an
-- initial value of all ones, is the parameter `crc16`.
use android_infotm_confident.Prelude.{ℕ, ◌+◌, ◌-◌, ◌/◌, ◌==◌, if◌then◌else◌, List, [], ◌∷◌, slice}
use android_infotm_confident.Ubifs.Lpt.BitFields.{BitAddr, pack_bits}
use android_infotm_confident.Ubifs.Lpt.Types.{
  Info, Pnode, Nnode, Nbranch, Lprops, LptLprops, crc_bytes, crc_bits, type_bits, lpt_pnode,
  lpt_nnode, lpt_ltab, lpt_lsave,
}

-- Where the fields begin, behind the CRC.
abbrev pub body_addr : BitAddr
body_addr = record { addr = crc_bytes; bit = 0 }

-- The buffer and the place in it, from one pack_bits to the next.
unfoldable pub put : ℕ → ℕ → List ℕ × BitAddr → List ℕ × BitAddr
unfolding pack_bits
put val nrbits (buf, at) = pack_bits at val nrbits buf

-- The body of the loop of ubifs_pack_pnode, for each of the LEBs.
unfoldable pub pack_lprops : Info → List Lprops → List ℕ × BitAddr → List ℕ × BitAddr
unfolding put
pack_lprops c [] w = w
pack_lprops c (l ∷ rest) w = pack_lprops c rest (
    put (if l.index then 1 else 0) 1
      (put (l.dirty / 8) c.space_bits (put (l.free / 8) c.space_bits w)))

-- The body of the loop of ubifs_pack_nnode; the number behind the last LEB stands for no branch.
unfoldable pub pack_branches : Info → List Nbranch → List ℕ × BitAddr → List ℕ × BitAddr
unfolding put
pack_branches c [] w = w
pack_branches c (b ∷ rest) w =
    let lnum = if b.lnum == 0 then c.lpt_last + 1 else b.lnum in
    pack_branches c rest (put b.offs c.lpt_offs_bits (put (lnum - c.lpt_first) c.lpt_lnum_bits w))

unfoldable pub pack_entries : Info → List LptLprops → List ℕ × BitAddr → List ℕ × BitAddr
unfolding put
pack_entries c [] w = w
pack_entries c (e ∷ rest) w =
    pack_entries c rest (put e.dirty c.lpt_spc_bits (put e.free c.lpt_spc_bits w))

unfoldable pub pack_lnums : Info → List ℕ → List ℕ × BitAddr → List ℕ × BitAddr
unfolding put
pack_lnums c [] w = w
pack_lnums c (lnum ∷ rest) w = pack_lnums c rest (put lnum c.lnum_bits w)

-- The type, and in the big model the number of the node.
unfoldable pub pack_head : Info → ℕ → ℕ → List ℕ → List ℕ × BitAddr
unfolding put
pack_head c type num buf =
    let w = put type type_bits (buf, body_addr) in if c.big_lpt then put num c.pcnt_bits w else w

module _ (crc16 : List ℕ → ℕ) where
  -- The CRC over the rest of a node of `len` bytes, in front of it.
  unfoldable pub stamp_crc : ℕ → List ℕ × BitAddr → List ℕ
  unfolding pack_bits
  stamp_crc len (buf, at) =
      (pack_bits (record { addr = 0; bit = 0 }) (crc16 (slice buf crc_bytes (len - crc_bytes)))
        crc_bits buf).0

  unfoldable pub ubifs_pack_pnode : Info → List ℕ → Pnode → List ℕ
  unfolding pack_head pack_lprops stamp_crc
  ubifs_pack_pnode c buf pnode =
      stamp_crc c.pnode_sz (pack_lprops c pnode.lprops (pack_head c lpt_pnode pnode.num buf))

  unfoldable pub ubifs_pack_nnode : Info → List ℕ → Nnode → List ℕ
  unfolding pack_head pack_branches stamp_crc
  ubifs_pack_nnode c buf nnode =
      stamp_crc c.nnode_sz (pack_branches c nnode.nbranch (pack_head c lpt_nnode nnode.num buf))

  unfoldable pub ubifs_pack_ltab : Info → List ℕ → List LptLprops → List ℕ
  unfolding put pack_entries stamp_crc
  ubifs_pack_ltab c buf ltab =
      stamp_crc c.ltab_sz (pack_entries c ltab (put lpt_ltab type_bits (buf, body_addr)))

  unfoldable pub ubifs_pack_lsave : Info → List ℕ → List ℕ → List ℕ
  unfolding put pack_lnums stamp_crc
  ubifs_pack_lsave c buf lsave =
      stamp_crc c.lsave_sz (pack_lnums c lsave (put lpt_lsave type_bits (buf, body_addr)))
