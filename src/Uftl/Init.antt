-- ===== src/Uftl/Init.antt =====
-- uftl_core.c: init_status and ftl_core_io_init, which bring the layer up.
use android_infotm_confident.Prelude.{
  ℕ, zero, suc, ◌+◌, ◌-◌, ◌/◌, true, not, ◌&&◌, ◌==◌, ltb, if◌then◌else◌, [], replicate, pos,
  negsuc, pos_part, eq_ℤ, ◌+ℤ◌,
}
use android_infotm_confident.Outcome.{
  ok, fault, bind, ◌>>=◌, ◌>>◌, get_state, when, fail, recover, for_range,
}
use android_infotm_confident.Uftl.Types.{
  Ubi, Act, UftlInfo, page_empty, page_using, sector_size, ftl_nomap, enomem, ebusy,
  ftl_log_block_num, log_page_num_per_block, page_log_sector,
}
use android_infotm_confident.Uftl.Arrays.{
  kmalloc, get_page_state, set_page_state, alloc_block_state_index, free_block_state_index,
  alloc_sector_index, alloc_sector_id, free_sector_index, free_sector_id, alloc_page_buf_pool,
}
use android_infotm_confident.Uftl.Flash.{ftl_erase, ftl_rescure}
use android_infotm_confident.Uftl.Pages.{
  get_first_empty_block, put_empty_block, using_page_of, add_block_using_page,
  clear_block_using_page,
}
use android_infotm_confident.Uftl.Sync.{set_bit}
use android_infotm_confident.Uftl.Index.{create_index}

-- `full |= 1 << i` for the `n` bits from `i` on.
unfoldable pub full_mask : ℕ → ℕ → ℕ → ℕ
full_mask zero i full = full
full_mask (suc n) i full = full_mask n (i + 1) (set_bit full i)

-- `kfifo_entries n` is how many ints the kernel's `kfifo_alloc` makes room for when asked for `n`.
module _ (U : Ubi) (kfifo_entries : ℕ → ℕ) where
  kfifo_alloc : ℕ → Act U (Unit {0})
  kfifo_alloc n = do
    got ← kmalloc U
    if got
        then (λ s. ok tt (record s { empty_block_fifo = []; fifo_cap = kfifo_entries n }))
        else fail enomem

  -- The pages in use of a block are counted. A block with none is emptied and queued.
  unfoldable pub status_of_block : ℕ → Act U (Unit {0})
  status_of_block block = do
    clear_block_using_page U (pos block)
    s ← get_state
    for_range 0 s.fip.ftl_page_num count_page
    using ← using_page_of U (pos block)
    when (eq_ℤ using (pos 0)) (do
      ftl_erase U (pos block) true
      for_range 0 s.fip.ftl_page_num (λ page. set_page_state U (pos block) (pos page) page_empty)
      put_empty_block U (pos block))
    where
      count_page : ℕ → Act U (Unit {0})
      count_page page = do
        state ← get_page_state U (pos block) (pos page)
        when (state == page_using) (add_block_using_page U (pos block))

  -- The first empty block, under a new block id.
  start_block : Act U (Unit {0})
  start_block s = bind (get_first_empty_block U s) λ block t. ok tt (record t {
    cur_offset = record { block = block; page = negsuc 0 };
    block_id = t.block_id +ℤ pos 1;
  })

  set_masks : Act U (Unit {0})
  set_masks s =
      ok tt (record s { full_state = full_mask s.fip.page_sector_num 0 0; check_count = 0 })

  unfoldable pub init_status : Act U (Unit {0})
  unfolding kfifo_alloc start_block set_masks
  init_status = do
    s ← get_state
    kfifo_alloc s.fip.leb_num
    for_range 0 s.fip.leb_num status_of_block
    t ← get_state
    if eq_ℤ t.cur_offset.block ftl_nomap
        then start_block
        else when t.need_rewrite (ftl_rescure U t.cur_offset.block (pos_part t.rewrite_page))
    set_masks

  set_fip : UftlInfo → Act U (Unit {0})
  set_fip fip s = ok tt (record s { fip = fip; block_id = pos 0 })

  set_scratch : Act U (Unit {0})
  set_scratch s = ok tt (record s {
    block_log_page = replicate s.fip.leb_page_size s.junk;
    tmp_page_buf = replicate s.fip.leb_page_size s.junk;
  })

  -- On an error the clean-up runs, and the error is returned.
  abbrev on_err : Act U (Unit {0}) → Act U (Unit {0}) → Act U (Unit {0})
  on_err m clean = recover m (λ e. clean >> fail e)

  -- The labels ERR4 to ERR2 of ftl_core_io_init.
  err2 : Act U (Unit {0})
  err2 = free_sector_index U

  err3 : Act U (Unit {0})
  unfolding err2
  err3 = free_sector_id U >> err2

  err4 : Act U (Unit {0})
  unfolding err3
  err4 = free_block_state_index U >> err3

  -- A page must have room for two sectors: the code divides by one less. With fewer than ten
  -- blocks the size asked of kmalloc for the blocks is negative, and it fails.
  unfoldable pub ftl_core_io_init : ℕ → ℕ → ℕ → ℕ → Act U (Unit {0})
  unfolding set_fip set_scratch err4
  ftl_core_io_init leb_num leb_page_num leb_page_size sector_num = do
    s ← get_state
    when s.indexed (fail ebusy)
    got ← kmalloc U
    when (not got) (fail enomem)
    let page_sector_num = leb_page_size / sector_size - page_log_sector
    when (page_sector_num == 0) (λ t. fault)
    set_fip (record {
      leb_num = leb_num - ftl_log_block_num;
      leb_page_num = leb_page_num;
      leb_page_size = leb_page_size;
      ftl_page_num = leb_page_num - log_page_num_per_block;
      page_sector_num = page_sector_num;
      virtual_sector_num = sector_num / page_sector_num + 1;
    })
    fip ← (λ t. ok t.fip t)
    alloc_sector_index U fip.virtual_sector_num
    on_err (alloc_sector_id U fip.virtual_sector_num) err2
    on_err (when (ltb leb_num ftl_log_block_num) (fail enomem)) err3
    on_err (alloc_block_state_index U fip.leb_num fip.ftl_page_num) err3
    alloc_page_buf_pool U
    log_got ← kmalloc U
    tmp_got ← kmalloc U
    if log_got && tmp_got
        then (do set_scratch; on_err (create_index U >> init_status) err4; free_sector_id U)
        else err4
