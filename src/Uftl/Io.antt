-- ===== src/Uftl/Io.antt =====
-- uftl_core.c: reading, writing and flushing by sectors.
use android_infotm_confident.Prelude.{
  ℕ, zero, suc, ◌+◌, ◌*◌, ◌/◌, ◌%◌, ◌^◌, Bool, true, false, not, ◌&&◌, ◌||◌, ◌==◌, ltb,
  if◌then◌else◌, List, Option, none, some, ℤ, pos, eq_ℤ, quot, rem, overwrite, slice,
}
use android_infotm_confident.Outcome.{
  ok, err, fault, bind, ◌>>=◌, ◌>>◌, get_state, when, pure, check, recover,
}
use android_infotm_confident.Uftl.Types.{
  Ubi, Act, PageBuf, sector_size, ftl_nomap, eio, need_flush_time, buf_num,
}
use android_infotm_confident.Uftl.Arrays.{get_sector_index}
use android_infotm_confident.Uftl.Flash.{ftl_read, add_read_sector, add_write_sector}
use android_infotm_confident.Uftl.Sync.{
  test_bit, set_bit, is_sector_in_buf, get_new_buf, get_buf, modify_buf, merge_from, sync_one_buf,
  flush_one_buf,
}

module _ (U : Ubi) where
  -- A free buffer, one being flushed if there is none.
  unfoldable pub claim_buf : Act U ℕ
  claim_buf s = elim (get_new_buf U s) [
    | some buf_pos ↦ ok buf_pos s
    | none ↦
        bind (flush_one_buf U s)
          λ _ t. elim (get_new_buf U t) [ some buf_pos ↦ ok buf_pos t | none ↦ err eio t ]
  ]

  unfoldable pub write_page : ℕ → List ℕ → ℕ → PageBuf → PageBuf
  write_page i buf now b = record b {
    data_buf = overwrite b.data_buf (i * sector_size) buf;
    sector_state = set_bit b.sector_state i;
    jiffies = now;
  }

  -- `memcpy` of the caller's sector into the buffer, with its bit and the time.
  unfoldable pub fill_buf : ℕ → ℕ → List ℕ → Act U (Unit {0})
  fill_buf buf_pos sector buf = do
    s ← get_state
    modify_buf U buf_pos (write_page (sector % s.fip.page_sector_num) buf s.now)

  -- The buffer now stands for another virtual sector, of which nothing is written.
  unfoldable pub assign_buf : ℕ → ℤ → Act U (Unit {0})
  assign_buf buf_pos virtual_sector =
      modify_buf U buf_pos (λ b. record b { sector = virtual_sector; sector_state = 0 })

  -- The branches of the write: on the buffer that holds the sector, or on a new one.
  unfoldable pub write_found : Option ℕ → ℕ → List ℕ → Act U (Unit {0})
  write_found (some buf_pos) sector buf = fill_buf buf_pos sector buf
  write_found none sector buf = do
    s ← get_state
    buf_pos ← claim_buf
    assign_buf buf_pos (pos (sector / s.fip.page_sector_num))
    fill_buf buf_pos sector buf

  unfoldable pub ftl_core_io_write : ℕ → List ℕ → Act U (Unit {0})
  ftl_core_io_write sector buf = do
    add_write_sector U
    s ← get_state
    write_found (is_sector_in_buf U sector s) sector buf

  -- `memcpy` of a sector of the buffer to the caller, with the time.
  unfoldable pub take_sector : ℕ → ℕ → Act U (Option (List ℕ))
  take_sector buf_pos sector = do
    s ← get_state
    b ← get_buf U buf_pos
    modify_buf U buf_pos (λ c. record c { jiffies = s.now })
    pure (some (slice b.data_buf (sector % s.fip.page_sector_num * sector_size) sector_size))

  -- The whole page is read into the buffer; what the read leaves there stays on an error.
  unfoldable pub load_buf : ℕ → ℤ → Act U (Unit {0})
  load_buf buf_pos virtual_sector = do
    modify_buf U buf_pos (λ b. record b { sector = virtual_sector; read = true; sector_state = 0 })
    index ← get_sector_index U virtual_sector
    s ← get_state
    got ← ftl_read U (quot index s.fip.ftl_page_num) (rem index s.fip.ftl_page_num)
    modify_buf U buf_pos (λ b. record b { data_buf = overwrite b.data_buf 0 got.1 })
    check got.0

  -- The sectors that were not written are fetched from the volume.
  unfoldable pub complete_buf : ℕ → ℤ → Act U (Unit {0})
  complete_buf buf_pos index = do
    merge_from U buf_pos index
    modify_buf U buf_pos (λ b. record b { read = true })

  read_hit : ℕ → ℕ → ℤ → Act U (Option (List ℕ))
  read_hit buf_pos sector virtual_sector = do
    s ← get_state
    b ← get_buf U buf_pos
    when (not (test_bit b.sector_state (sector % s.fip.page_sector_num)) && not b.read) (do
      index ← get_sector_index U virtual_sector
      when (not (eq_ℤ index ftl_nomap)) (complete_buf buf_pos index))
    take_sector buf_pos sector

  read_miss : ℕ → ℤ → Act U (Option (List ℕ))
  read_miss sector virtual_sector = do
    index ← get_sector_index U virtual_sector
    if eq_ℤ index ftl_nomap
        then pure none
        else (do buf_pos ← claim_buf; load_buf buf_pos virtual_sector; take_sector buf_pos sector)

  -- The bytes put into the caller's buffer. `none`: the sector was never written, the call succeeds
  -- and leaves the caller's buffer alone.
  unfoldable pub ftl_core_io_read : ℕ → Act U (Option (List ℕ))
  unfolding read_hit read_miss
  ftl_core_io_read sector = do
    add_read_sector U
    s ← get_state
    let virtual_sector = pos (sector / s.fip.page_sector_num)
    elim (is_sector_in_buf U sector s) [
      | some buf_pos ↦ read_hit buf_pos sector virtual_sector
      | none ↦ read_miss sector virtual_sector
    ]

  -- Buffers that were written to and have been left alone for long are synced; the result of each
  -- sync is not looked at. `unsigned long` has 32 bits.
  unfoldable pub queue_flush_loop : ℕ → ℕ → Bool → Act U Bool
  queue_flush_loop zero buf_pos need_sync_nand s = ok need_sync_nand s
  queue_flush_loop (suc n) buf_pos need_sync_nand s = bind (get_buf U buf_pos s) λ b t.
      let unused = eq_ℤ b.sector ftl_nomap || b.sector_state == 0 in
      let due = ltb ((b.jiffies + need_flush_time) % 2 ^ 32) t.now in
      elim (not unused && due) [
        | false ↦ queue_flush_loop n (buf_pos + 1) need_sync_nand t
        | true ↦
            bind (recover (sync_one_buf U buf_pos) (λ e u. ok tt u) t)
              (λ _ u. queue_flush_loop n (buf_pos + 1) true u)
      ]

  unfoldable pub ftl_core_io_queue_flush : Act U Bool
  unfolding queue_flush_loop
  ftl_core_io_queue_flush = queue_flush_loop buf_num 0 false

  -- Every buffer is synced. The result is that of the last.
  all_flush_loop : ℕ → ℕ → ℕ → Act U (Unit {0})
  all_flush_loop zero buf_pos ret s = check ret s
  all_flush_loop (suc n) buf_pos ret s = elim (sync_one_buf U buf_pos s) [
    | ok _ t ↦ all_flush_loop n (buf_pos + 1) 0 t
    | err e t ↦ all_flush_loop n (buf_pos + 1) e t
    | fault ↦ fault
  ]

  unfoldable pub ftl_core_io_all_flush : Act U (Unit {0})
  unfolding all_flush_loop
  ftl_core_io_all_flush = all_flush_loop buf_num 0 0
