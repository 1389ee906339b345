-- ===== src/Uftl/Gc.antt =====
-- uftl_core.c: scrub_block moves the pages in use out of a block and empties it, garbage_checking
-- scrubs the emptiest block until enough blocks are free.
use android_infotm_confident.Prelude.{
  ℕ, zero, suc, ◌+◌, ◌*◌, Bool, true, false, ◌==◌, if◌then◌else◌, ℤ, pos, negsuc, ◌+ℤ◌, eq_ℤ, ltb_ℤ,
  ltb, quot, rem, load_int, overwrite, int_bytes,
}
use android_infotm_confident.Outcome.{
  ok, ◌>>=◌, ◌>>◌, get_state, when, fail, crash, pure, recover, for_range,
}
use android_infotm_confident.Uftl.Types.{Ubi, Act, page_empty, page_using, sector_size, eio}
use android_infotm_confident.Uftl.Arrays.{get_page_state, set_page_state, set_sector_index}
use android_infotm_confident.Uftl.Flash.{ftl_erase, ftl_write, read_tmp, note_sector, note_head}
use android_infotm_confident.Uftl.Pages.{
  put_empty_block, get_empty_block_num, get_new_page, using_page_of, add_block_using_page,
  clear_block_using_page, get_block_using_page_num,
}

module _ (U : Ubi) where
  -- The log page of a block goes out once its last data page is written.
  unfoldable pub finish_block : ℤ → ℤ → Act U (Unit {0})
  finish_block block page = do
    s ← get_state
    when (eq_ℤ page (pos s.fip.ftl_page_num +ℤ negsuc 0))
        (do note_head U; t ← get_state; ftl_write U block (pos t.fip.ftl_page_num) t.block_log_page)

  -- The id in the page log of the temporary buffer becomes the current one.
  unfoldable pub restamp_tmp : Act U (Unit {0})
  restamp_tmp s = ok tt (record s {
    tmp_page_buf =
        overwrite s.tmp_page_buf (s.fip.page_sector_num * sector_size + 8) (int_bytes s.block_id);
  })

  -- The page in the temporary buffer is written to a new place.
  unfoldable pub move_tmp : Act U (Unit {0})
  unfolding restamp_tmp
  move_tmp = do
    s ← get_state
    let sector = load_int s.tmp_page_buf (s.fip.page_sector_num * sector_size + 4)
    new_index ← get_new_page U
    when (ltb_ℤ new_index (pos 0)) (fail eio)
    set_sector_index U sector new_index
    t ← get_state
    let new_block = quot new_index t.fip.ftl_page_num
    let new_page = rem new_index t.fip.ftl_page_num
    set_page_state U new_block new_page page_using
    add_block_using_page U new_block
    restamp_tmp
    u ← get_state
    ftl_write U new_block new_page u.tmp_page_buf
    note_sector U new_page sector
    finish_block new_block new_page

  -- A page that cannot be read is skipped.
  unfoldable pub scrub_page : ℤ → ℕ → Act U (Unit {0})
  scrub_page block page = do
    state ← get_page_state U block (pos page)
    when (state == page_using) (do
      readable ← recover (read_tmp U block (pos page) >> pure true) (λ e. pure false)
      when readable move_tmp)

  -- Unmap the block, queue it as empty, reset its pages.
  unfoldable pub reset_block : ℤ → Act U (Unit {0})
  reset_block block = do
    ftl_erase U block true
    put_empty_block U block
    s ← get_state
    for_range 0 s.fip.ftl_page_num (λ page. set_page_state U block (pos page) page_empty)
    clear_block_using_page U block

  unfoldable pub scrub_block : ℤ → Act U (Unit {0})
  scrub_block block = do
    s ← get_state
    using ← using_page_of U block
    when (not_zero using) (for_range 0 s.fip.ftl_page_num (scrub_page block))
    reset_block block
    where
      not_zero : ℤ → Bool
      not_zero n = if eq_ℤ n (pos 0) then false else true

  -- The block with the fewest pages in use, -1 if none has fewer than `min_using_page`. The first
  -- of several is taken.
  unfoldable pub pick_victim : ℕ → ℕ → ℤ → ℤ → Act U ℤ
  pick_victim zero block min_using_page block_gc = pure block_gc
  pick_victim (suc left) block min_using_page block_gc = do
    n ← get_block_using_page_num U (pos block)
    let better = ltb_ℤ n min_using_page
    pick_victim left (block + 1) (if better then n else min_using_page)
        (if better then pos block else block_gc)

  -- The `while` loop on fuel.
  unfoldable pub gc_loop : ℕ → ℕ → Act U (Unit {0})
  gc_loop zero low = crash
  gc_loop (suc fuel) low = do
    empty ← get_empty_block_num U
    when (ltb empty low) (do
      s ← get_state
      victim ← pick_victim s.fip.leb_num 0 (pos s.fip.ftl_page_num) (negsuc 0)
      when (eq_ℤ victim (negsuc 0)) crash
      scrub_block victim
      gc_loop fuel low)

  -- The fuel is one more than the number of pages.
  unfoldable pub garbage_checking : ℕ → Act U (Unit {0})
  garbage_checking low = do s ← get_state; gc_loop (s.fip.leb_num * s.fip.ftl_page_num + 1) low
