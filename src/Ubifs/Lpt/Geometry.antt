-- ===== src/Ubifs/Lpt/Geometry.antt =====
-- lpt.c: do_calc_lpt_geom, ubifs_calc_lpt_geom, calc_dflt_lpt_geom. `fls`, the kernel's number of
-- the last bit set, is a parameter. `none` stands for a loop that does not end.
use android_infotm_confident.Prelude.{
  ℕ, zero, suc, ◌+◌, ◌-◌, ◌*◌, ◌/◌, true, false, ltb, leb, if◌then◌else◌, Option, none, some,
}
use android_infotm_confident.Ubifs.Lpt.Types.{
  Info, fanout, crc_bits, type_bits, div_round_up, einval, ◌>>=◌,
}

-- `while (n < max_pnode_cnt) { lpt_hght += 1; n <<= 2; }`.
unfoldable pub height_loop : ℕ → ℕ → ℕ → ℕ → Option ℕ
height_loop zero n max_pnode_cnt hght = none
height_loop (suc fuel) n max_pnode_cnt hght = elim (ltb n max_pnode_cnt) [
  | true ↦ height_loop fuel (n * fanout) max_pnode_cnt (hght + 1)
  | false ↦ some hght
]

-- The `for` loop over the levels, `levels` times: the number of nnodes.
unfoldable pub nnode_loop : ℕ → ℕ → ℕ → ℕ
nnode_loop zero n cnt = cnt
nnode_loop (suc levels) n cnt = let m = div_round_up n fanout in nnode_loop levels m (cnt + m)

-- `while (sz > leb_size)`: the last `sz` and `tot_wastage`.
unfoldable pub wastage_loop : ℕ → ℕ → ℕ → ℕ → ℕ → Option (ℕ × ℕ)
wastage_loop zero leb_size waste sz tot = none
wastage_loop (suc fuel) leb_size waste sz tot = elim (ltb leb_size sz) [
  | true ↦ wastage_loop fuel leb_size waste (sz + waste - leb_size) (tot + waste)
  | false ↦ some (sz, tot)
]

-- `ALIGN(sz, a) - sz`.
abbrev pub align_gap : ℕ → ℕ → ℕ
align_gap sz a = div_round_up sz a * a - sz

abbrev pub bytes_of_bits : ℕ → ℕ
bytes_of_bits bits = (bits + 7) / 8

module _ (fls : ℕ → ℕ) where
  -- The counts and the bit widths, and the sizes of the nodes from them.
  unfoldable pub calc_sizes : Info → ℕ → Info
  unfolding nnode_loop
  calc_sizes c hght =
      let pnode_cnt = div_round_up c.main_lebs fanout in
      let n = div_round_up pnode_cnt fanout in
      let nnode_cnt = nnode_loop (hght - 1) n n in
      let space_bits = fls c.leb_size - 3 in
      let lpt_lnum_bits = fls c.lpt_lebs in
      let lpt_offs_bits = fls (c.leb_size - 1) in
      let lpt_spc_bits = fls c.leb_size in
      let pcnt_bits = fls (div_round_up c.max_leb_cnt fanout - 1) in
      let lnum_bits = fls (c.max_leb_cnt - 1) in
      let head = crc_bits + type_bits in
      let num_bits = if c.big_lpt then pcnt_bits else 0 in
      let pnode_sz = bytes_of_bits (head + num_bits + (space_bits * 2 + 1) * fanout) in
      let nnode_sz = bytes_of_bits (head + num_bits + (lpt_lnum_bits + lpt_offs_bits) * fanout) in
      let ltab_sz = bytes_of_bits (head + c.lpt_lebs * lpt_spc_bits * 2) in
      let lsave_sz = bytes_of_bits (head + lnum_bits * c.lsave_cnt) in
      let nodes = pnode_cnt * pnode_sz + nnode_cnt * nnode_sz + ltab_sz in
      record c {
        lpt_hght = hght;
        pnode_cnt = pnode_cnt;
        nnode_cnt = nnode_cnt;
        space_bits = space_bits;
        lpt_lnum_bits = lpt_lnum_bits;
        lpt_offs_bits = lpt_offs_bits;
        lpt_spc_bits = lpt_spc_bits;
        pcnt_bits = pcnt_bits;
        lnum_bits = lnum_bits;
        pnode_sz = pnode_sz;
        nnode_sz = nnode_sz;
        ltab_sz = ltab_sz;
        lsave_sz = lsave_sz;
        lpt_sz = if c.big_lpt then nodes + lsave_sz else nodes;
      }

  -- The wastage at the end of each LEB, and the one up to a whole write.
  unfoldable pub add_wastage : Info → Option Info
  unfolding wastage_loop
  add_wastage c =
      let waste = if ltb c.pnode_sz c.nnode_sz then c.nnode_sz else c.pnode_sz in
      do
        (sz, tot) ← wastage_loop (c.lpt_sz + waste + 1) c.leb_size waste (c.lpt_sz + waste) waste
        some (record c { lpt_sz = c.lpt_sz + (tot + align_gap sz c.min_io_size) })

  unfoldable pub do_calc_lpt_geom : Info → Option Info
  unfolding height_loop calc_sizes add_wastage
  do_calc_lpt_geom c =
      let n = c.main_lebs + c.max_leb_cnt - c.leb_cnt in
      let max_pnode_cnt = div_round_up n fanout in
      do
        hght ← height_loop (max_pnode_cnt + 1) fanout max_pnode_cnt 1
        add_wastage (calc_sizes c hght)

  -- The errors are left as numbers: 0 is success.
  unfoldable pub ubifs_calc_lpt_geom : Info → Option (ℕ × Info)
  unfolding do_calc_lpt_geom
  ubifs_calc_lpt_geom c = do
    d ← do_calc_lpt_geom c
    some (
        if ltb d.lpt_lebs ((d.lpt_sz * 2 + d.leb_size - 1) / d.leb_size)
        then (einval, d)
        else if ltb d.leb_size d.ltab_sz
        then (einval, d)
        else (0, record d { check_lpt_free = d.big_lpt }))

  -- `main_lebs` of a result that is an error is 0 where the code has it negative.
  -- The `for` loop of calc_dflt_lpt_geom, `tries` times at most; `total` is `*main_lebs`.
  unfoldable pub enough_lebs : ℕ → ℕ → Info → Option (ℕ × Info)
  unfolding do_calc_lpt_geom
  enough_lebs zero total c = some (einval, c)
  enough_lebs (suc tries) total c =
      let needed = (c.lpt_sz * 4 + c.leb_size - 1) / c.leb_size in
      elim (ltb c.lpt_lebs needed) [
        | true ↦ elim (leb total needed) [
          | true ↦ some (einval, record c { lpt_lebs = needed; main_lebs = 0 })
          | false ↦ do
            d ← do_calc_lpt_geom (record c { lpt_lebs = needed; main_lebs = total - needed })
            enough_lebs tries total d
        ]
        | false ↦ some (if ltb c.leb_size c.ltab_sz then (einval, c) else (0, c))
      ]

  abbrev min_lpt_lebs : ℕ
  min_lpt_lebs = 2

  -- What the caller gets in `*main_lebs` and `*big_lpt` are the fields of the result.
  unfoldable pub calc_dflt_lpt_geom : ℕ → Info → Option (ℕ × Info)
  unfolding do_calc_lpt_geom enough_lebs
  calc_dflt_lpt_geom total c = elim (leb total min_lpt_lebs) [
    | true ↦ some (einval, record c { lpt_lebs = min_lpt_lebs; main_lebs = 0 })
    | false ↦ do
      d ←
          do_calc_lpt_geom (record c {
            lpt_lebs = min_lpt_lebs;
            main_lebs = total - min_lpt_lebs;
            big_lpt = false;
          })
      e ← (elim (ltb d.leb_size d.lpt_sz) [
        | true ↦ do_calc_lpt_geom (record d { big_lpt = true })
        | false ↦ some d
      ])
      enough_lebs 64 total e
  ]
