-- ===== src/Uftl/Index.antt =====
-- uftl_core.c: create_index, which rebuilds the sector index from the log pages of the blocks.
use android_infotm_confident.Prelude.{
  ℕ, zero, suc, ◌+◌, ◌-◌, ◌*◌, Bool, true, false, not, ◌==◌, ltb, if◌then◌else◌, ℤ, pos, ltb_ℤ,
  eq_ℤ, quot, rem, load_int, load_short,
}
use android_infotm_confident.Outcome.{
  ok, ◌>>=◌, ◌>>◌, get_state, skip, when, pure, recover, for_range,
}
use android_infotm_confident.Uftl.Types.{
  Ubi, Act, page_using, page_discard, sector_size, ftl_nomap, no_id, magic_num,
}
use android_infotm_confident.Uftl.Arrays.{
  set_page_state, get_sector_index, set_sector_index, get_sector_id, set_sector_id,
}
use android_infotm_confident.Uftl.Flash.{ftl_erase, read_tmp, note_sector}

module _ (U : Ubi) where
  set_cur_offset : ℤ → ℤ → Act U (Unit {0})
  set_cur_offset block page s =
      ok tt (record s { cur_offset = record { block = block; page = page } })

  raise_block_id : ℤ → Act U (Unit {0})
  raise_block_id id s =
      ok tt (record s { block_id = if ltb_ℤ s.block_id id then id else s.block_id })

  set_need_rewrite : ℕ → Act U (Unit {0})
  set_need_rewrite page s = ok tt (record s { need_rewrite = true; rewrite_page = pos page })

  -- A page is found that holds `sector` under `id`. It is discarded if a page with a greater id is
  -- known, and takes the place of the known page otherwise; the result tells which.
  unfoldable pub claim_page : ℕ → ℕ → ℤ → ℤ → Act U Bool
  unfolding raise_block_id
  claim_page block page sector id = do
    known ← get_sector_id U sector
    if ltb_ℤ id known
        then (do set_page_state U (pos block) (pos page) page_discard; pure false)
        else (do
          raise_block_id id
          old_index ← get_sector_index U sector
          s ← get_state
          let per_block = s.fip.ftl_page_num
          when (not (eq_ℤ old_index ftl_nomap))
              (set_page_state U (quot old_index per_block) (rem old_index per_block) page_discard)
          set_sector_id U sector id
          set_sector_index U sector (pos (page + per_block * block))
          set_page_state U (pos block) (pos page) page_using
          pure true)

  -- A block with a log page: its entries in order.
  unfoldable pub index_full_block : ℕ → Act U (Unit {0})
  index_full_block block = do
    s ← get_state
    let id = load_int s.tmp_page_buf 4
    let log = s.tmp_page_buf
    let claim = λ (page : ℕ). do _ ← claim_page block page (load_int log (8 + 4 * page)) id; skip
    for_range 0 s.fip.ftl_page_num claim

  -- A page log that is found, and then the page behind it.
  unfoldable pub take_log : ℕ → ℕ → ℤ → ℤ → Act U ℕ → Act U ℕ
  take_log block page sector id next = do
    claimed ← claim_page block page sector id
    when claimed (note_sector U (pos page) sector)
    next

  -- The page log of one page of a block that is not full. `next` looks at the page behind it; the
  -- result is where the loop stops.
  unfoldable pub scan_page : ℕ → ℕ → Act U ℕ → Act U ℕ
  unfolding set_need_rewrite take_log
  scan_page block page next = do
    readable ← recover (read_tmp U (pos block) (pos page) >> pure true) (λ e. pure false)
    t ← get_state
    let log = t.fip.page_sector_num * sector_size
    let buf = t.tmp_page_buf
    if not readable
        then set_need_rewrite page >> pure page
        else if load_short buf log == magic_num
        then take_log block page (load_int buf (log + 4)) (load_int buf (log + 8)) next
        else pure page

  -- `left` more pages of the block, from `page` on.
  unfoldable pub scan_open_block : ℕ → ℕ → ℕ → Act U ℕ
  unfolding scan_page
  scan_open_block block zero page = pure page
  scan_open_block block (suc left) page =
      let next = scan_open_block block left (page + 1) in scan_page block page next

  unfoldable pub index_open_block : ℕ → Act U (Unit {0})
  unfolding set_cur_offset
  index_open_block block = do
    s ← get_state
    page ← scan_open_block block s.fip.ftl_page_num 0
    when (ltb 0 page) (set_cur_offset (pos block) (pos (page - 1)))

  -- Only the first block that is not full is looked into.
  unfoldable pub index_block : ℕ → Act U (Unit {0})
  index_block block = do
    s ← get_state
    readable ←
        recover (read_tmp U (pos block) (pos s.fip.ftl_page_num) >> pure true) (λ e. pure false)
    t ← get_state
    if not readable
        then ftl_erase U (pos block) false
        else if load_short t.tmp_page_buf 0 == magic_num
        then index_full_block block
        else when (eq_ℤ t.cur_offset.block ftl_nomap) (index_open_block block)

  clear_sector : ℕ → Act U (Unit {0})
  clear_sector i = set_sector_index U (pos i) ftl_nomap >> set_sector_id U (pos i) no_id

  unset_cur_block : Act U (Unit {0})
  unset_cur_block s = ok tt (record s { cur_offset = record (s.cur_offset) { block = ftl_nomap } })

  unfoldable pub create_index : Act U (Unit {0})
  unfolding clear_sector unset_cur_block
  create_index = do
    s ← get_state
    unset_cur_block
    for_range 0 s.fip.virtual_sector_num clear_sector
    for_range 0 s.fip.leb_num index_block
