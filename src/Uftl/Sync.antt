-- ===== src/Uftl/Sync.antt =====
-- uftl_core.c: the page buffers, and sync_one_buf, which writes one of them to the volume.
use android_infotm_confident.Prelude.{
  ℕ, zero, suc, ◌+◌, ◌*◌, ◌/◌, ◌%◌, ◌^◌, Bool, false, not, ◌&&◌, ◌==◌, ltb, if◌then◌else◌, List, [],
  ◌∷◌, Option, none, some, get_elem?, set, ℤ, pos, negsuc, eq_ℤ, quot, rem, overwrite, slice,
}
use android_infotm_confident.Outcome.{ok, fault, ◌>>=◌, ◌>>◌, get_state, when, fail}
use android_infotm_confident.Uftl.Types.{
  Ubi, Ftl, Act, PageBuf, page_using, page_discard, sector_size, ftl_nomap, eio, low_block_num,
  gc_block_num,
}
use android_infotm_confident.Uftl.Arrays.{set_page_state, get_sector_index, set_sector_index}
use android_infotm_confident.Uftl.Flash.{ftl_write, read_tmp, note_sector, page_log_bytes}
use android_infotm_confident.Uftl.Pages.{
  get_empty_block_num, get_new_page, add_block_using_page, del_block_using_page,
  get_block_using_page_num,
}
use android_infotm_confident.Uftl.Gc.{finish_block, scrub_block, garbage_checking}

-- `x & (1 << k)` as a test, and `x | (1 << k)`, on the binary digits.
unfoldable pub test_bit : ℕ → ℕ → Bool
test_bit x k = (x / 2 ^ k) % 2 == 1

unfoldable pub set_bit : ℕ → ℕ → ℕ
unfolding test_bit
set_bit x k = if test_bit x k then x else x + 2 ^ k

-- The first buffer that holds a sector. Free buffers hold -1.
unfoldable pub find_buf : ℤ → ℕ → List PageBuf → Option ℕ
find_buf sector i [] = none
find_buf sector i (b ∷ bs) = if eq_ℤ sector b.sector then some i else find_buf sector (i + 1) bs

-- `memcpy` of the sectors whose bit is not set, from one page to the other.
unfoldable pub merge_sectors : ℕ → ℕ → ℕ → List ℕ → List ℕ → List ℕ
unfolding test_bit
merge_sectors zero i state page dst = dst
merge_sectors (suc n) i state page dst = merge_sectors n (i + 1) state page (
    if test_bit state i
    then dst
    else overwrite dst (sector_size * i) (slice page (sector_size * i) sector_size))

module _ (U : Ubi) where
  unfoldable pub is_sector_in_buf : ℕ → Ftl U.Vol → Option ℕ
  is_sector_in_buf sector s = find_buf (pos (sector / s.fip.page_sector_num)) 0 s.page_buf_pool

  unfoldable pub get_new_buf : Ftl U.Vol → Option ℕ
  get_new_buf s = find_buf ftl_nomap 0 s.page_buf_pool

  unfoldable pub get_buf : ℕ → Act U PageBuf
  get_buf buf_pos s = elim (get_elem? s.page_buf_pool buf_pos) [ none ↦ fault | some b ↦ ok b s ]

  unfoldable pub modify_buf : ℕ → (PageBuf → PageBuf) → Act U (Unit {0})
  modify_buf buf_pos f s = elim (get_elem? s.page_buf_pool buf_pos) [
    | none ↦ fault
    | some b ↦ ok tt (record s { page_buf_pool = set s.page_buf_pool buf_pos (f b) })
  ]

  -- The sectors of `page` that were not written go into the buffer.
  unfoldable pub merge_page : ℕ → List ℕ → PageBuf → PageBuf
  unfolding merge_sectors
  merge_page sectors page b = record b {
    data_buf = merge_sectors sectors 0 b.sector_state page b.data_buf;
  }

  -- The page at `index` is read, and completes the buffer.
  unfoldable pub merge_from : ℕ → ℤ → Act U (Unit {0})
  merge_from buf_pos index = do
    s ← get_state
    read_tmp U (quot index s.fip.ftl_page_num) (rem index s.fip.ftl_page_num)
    t ← get_state
    modify_buf buf_pos (merge_page t.fip.page_sector_num t.tmp_page_buf)

  -- The old data of the sectors that were not written.
  unfoldable pub merge_buf : ℕ → Act U (Unit {0})
  merge_buf buf_pos = do
    s ← get_state
    b ← get_buf buf_pos
    when (not (b.sector_state == s.full_state) && not b.read) (do
      index ← get_sector_index U b.sector
      when (not (eq_ℤ index ftl_nomap)) (merge_from buf_pos index))

  -- The page log in the last sector of the buffer.
  unfoldable pub stamp_page : ℕ → ℕ → ℤ → PageBuf → PageBuf
  stamp_page off pad id b = record b {
    data_buf = overwrite b.data_buf off (page_log_bytes pad b.sector id);
  }

  unfoldable pub stamp_buf : ℕ → Act U (Unit {0})
  stamp_buf buf_pos = do
    s ← get_state
    modify_buf buf_pos (stamp_page (s.fip.page_sector_num * sector_size) s.junk s.block_id)

  -- The page that held the sector before is given up, and its block scrubbed if that was the last.
  unfoldable pub retire : ℤ → Act U (Unit {0})
  retire old_index = do
    s ← get_state
    let block = quot old_index s.fip.ftl_page_num
    set_page_state U block (rem old_index s.fip.ftl_page_num) page_discard
    del_block_using_page U block
    n ← get_block_using_page_num U block
    when (eq_ℤ n (pos 0)) (scrub_block U block)

  unfoldable pub set_check_count : ℕ → Act U (Unit {0})
  set_check_count n s = ok tt (record s { check_count = n })

  unfoldable pub count_check : Act U (Unit {0})
  unfolding set_check_count
  count_check = do
    s ← get_state
    set_check_count (s.check_count + 1)
    empty ← get_empty_block_num U
    when (ltb s.fip.ftl_page_num (s.check_count + 1) && ltb empty low_block_num)
        (garbage_checking U gc_block_num >> set_check_count 0)

  -- The buffer is free again.
  unfoldable pub free_page : ℕ → PageBuf → PageBuf
  free_page now b = record b { sector = ftl_nomap; read = false; sector_state = 0; jiffies = now }

  unfoldable pub release_buf : ℕ → Act U (Unit {0})
  release_buf buf_pos = do s ← get_state; modify_buf buf_pos (free_page s.now)

  -- The buffer goes to the page at `new_index`, with the log page if that was the last of its
  -- block, and the index names the page from then on.
  unfoldable pub publish : ℕ → ℤ → Act U (Unit {0})
  publish buf_pos new_index = do
    s ← get_state
    b ← get_buf buf_pos
    let block = quot new_index s.fip.ftl_page_num
    let page = rem new_index s.fip.ftl_page_num
    ftl_write U block page b.data_buf
    note_sector U page b.sector
    finish_block U block page
    old_index ← get_sector_index U b.sector
    set_page_state U block page page_using
    add_block_using_page U block
    set_sector_index U b.sector new_index
    when (not (eq_ℤ old_index ftl_nomap)) (retire old_index)

  -- The part of sync_one_buf for a buffer that was written to.
  unfoldable pub write_out : ℕ → Act U (Unit {0})
  write_out buf_pos = do
    merge_buf buf_pos
    new_index ← get_new_page U
    when (eq_ℤ new_index (negsuc 0)) (fail eio)
    stamp_buf buf_pos
    publish buf_pos new_index
    count_check

  unfoldable pub sync_one_buf : ℕ → Act U (Unit {0})
  sync_one_buf buf_pos = do
    b ← get_buf buf_pos
    when (not (b.sector_state == 0)) (write_out buf_pos)
    release_buf buf_pos

-- The loop of flush_one_buf: the buffer found, and the time compared with. The test reads the
-- buffer found so far, not the buffer that the loop is at.
unfoldable pub oldest_loop : List PageBuf → List PageBuf → ℕ → ℕ → ℕ → Option ℕ
oldest_loop pool [] i buf_pos jiffies_tmp = some buf_pos
oldest_loop pool (b ∷ bs) i buf_pos jiffies_tmp = elim (get_elem? pool buf_pos) [
  | none ↦ none
  | some found ↦
      let older = ltb found.jiffies jiffies_tmp in
      oldest_loop pool bs (i + 1) (if older then i else buf_pos)
        (if older then b.jiffies else jiffies_tmp)
]

module _ (U : Ubi) where
  unfoldable pub flush_one_buf : Act U (Unit {0})
  flush_one_buf s = elim (oldest_loop s.page_buf_pool s.page_buf_pool 0 0 s.now) [
    | none ↦ fault
    | some buf_pos ↦ sync_one_buf U buf_pos s
  ]
