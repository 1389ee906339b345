-- ===== src/Uftl/Faults.antt =====
-- What uftl_core.c does where buffers or pages run out, and after a read that failed.
use native.Mathlib.Nat.{div_self, mod_self}
use android_infotm_confident.Prelude.{
  ℕ, suc, ◌+◌, ◌*◌, ◌/◌, ◌%◌, ◌≤◌, ◌<◌, ◌≡◌, refl, ap, ◌∙◌, true, false, ◌==◌, slice, overwrite,
  ◌-◌, List, [], ◌∷◌, none, some, get_elem?, get_elem?-set_self, lt-length_of_get_elem?, set,
  length, ℤ, pos, negsuc, ◌+ℤ◌, ◌*ℤ◌, eq_ℤ, eq_ℤ_iff, quot, rem, arith,
}
use android_infotm_confident.Outcome.{ok, err, bind, check, fail, skip, when, get_state, ◌>>=◌}
use android_infotm_confident.Uftl.Types.{Ubi, Ftl, PageBuf, ftl_nomap, sector_size}
use android_infotm_confident.Uftl.Arrays.{array_get, get_sector_index}
use android_infotm_confident.Uftl.Pages.{get_first_empty_block, get_new_page}
use android_infotm_confident.Uftl.Buffers.{set-set}
use android_infotm_confident.Uftl.WriteRead.{Holds, read_of_Holds}
use android_infotm_confident.Uftl.PageLog.{stamped, stamp_buf-stamped}
use android_infotm_confident.Uftl.FindBuf.{find_buf-set}
use android_infotm_confident.Uftl.Flash.{add_read_sector, add_write_leb, ftl_read, ftl_write}
use android_infotm_confident.Uftl.Io.{claim_buf, load_buf, ftl_core_io_read}
use android_infotm_confident.Uftl.Sync.{
  merge_buf, publish, write_out, is_sector_in_buf, get_new_buf, get_buf, modify_buf, oldest_loop,
  sync_one_buf, flush_one_buf,
}

-- After the first buffer the test of the loop always fails.
oldest_loop-stuck :
    (pool bs : List PageBuf) (first : PageBuf) (i oldest : ℕ)
    → get_elem? pool 0 ≡ some first
    → oldest ≤ first.jiffies
    → oldest_loop pool bs i 0 oldest ≡ some 0
unfolding oldest_loop
oldest_loop-stuck pool [] first i oldest h le = refl
oldest_loop-stuck pool (b ∷ bs) first i oldest h le =
    ground (arith, oldest_loop-stuck pool bs first (i + 1) oldest h le)

oldest_loop-first :
    (b : PageBuf) (bs : List PageBuf) (now : ℕ) → oldest_loop (b ∷ bs) (b ∷ bs) 0 0 now ≡ some 0
unfolding oldest_loop
oldest_loop-first b bs now = ground (
  arith,
  oldest_loop-stuck (b ∷ bs) bs b 1 b.jiffies refl,
  oldest_loop-stuck (b ∷ bs) bs b 1 now refl,
)

minus-mul : (n : ℕ) → 0 < n → negsuc 0 *ℤ pos n +ℤ pos 0 ≡ negsuc (n - 1)
minus-mul n h = ground arith

not_minus_one : (n : ℕ) → 1 < n → eq_ℤ (negsuc (n - 1)) (negsuc 0) ≡ false
not_minus_one n h = ground arith

not_zero : (e : ℕ) → (suc e == 0) ≡ false
not_zero e = ground arith

-- The block and the page of an index of minus one block.
minus_block :
    (n : ℕ) → 0 < n → (quot (negsuc (n - 1)) n ≡ negsuc 0) × (rem (negsuc (n - 1)) n ≡ pos 0)
minus_block n h =
    let e : suc (n - 1) ≡ n = omega (arith, h) in (rw (e, div_self h) refl, rw (e, mod_self n) refl)

module _ (U : Ubi) where
  -- If there is a page buffer at all, flush_one_buf is sync_one_buf on the first one, whenever
  -- the others were touched.
  pub flush_one_buf-first :
      (s : Ftl U.Vol) (b : PageBuf) (bs : List PageBuf)
      → s.page_buf_pool ≡ b ∷ bs
      → flush_one_buf U s ≡ sync_one_buf U 0 s
  unfolding flush_one_buf
  flush_one_buf-first s b bs h = ground (arith, oldest_loop-first b bs s.now)

  -- The state after get_new_page has found no empty block.
  abbrev exhausted : Ftl U.Vol → Ftl U.Vol
  exhausted s = record s {
    cur_offset = record { block = negsuc 0; page = pos 0 };
    block_id = s.block_id +ℤ pos 1;
  }

  get_new_page-exhausted :
      (s : Ftl U.Vol)
      → s.empty_block_fifo ≡ []
      → s.cur_offset.page +ℤ pos 1 ≡ pos s.fip.ftl_page_num
      → 0 < s.fip.ftl_page_num
      → get_new_page U s ≡ ok (negsuc (s.fip.ftl_page_num - 1)) (exhausted s)
  unfolding get_new_page get_first_empty_block bind
  get_new_page-exhausted s empty full some_page = ground (
    arith,
    (eq_ℤ_iff (s.cur_offset.page +ℤ pos 1) (pos s.fip.ftl_page_num)).1 full,
    minus-mul s.fip.ftl_page_num,
  )

  -- A buffer whose sectors have all been written to is not completed from its old page.
  merge_buf-full :
      (p : ℕ) (s : Ftl U.Vol) (b : PageBuf)
      → get_elem? s.page_buf_pool p ≡ some b
      → (b.sector_state == s.full_state) ≡ true
      → merge_buf U p s ≡ ok tt s
  unfolding merge_buf get_buf get_state when skip ◌>>=◌ bind
  merge_buf-full p s b h e = rw (h, e, merge_buf, get_buf, ◌>>=◌, bind) refl

  -- The write to block -1 fails.
  publish-fails :
      (p e : ℕ) (s : Ftl U.Vol) (b : PageBuf) (v : U.Vol)
      → get_elem? s.page_buf_pool p ≡ some b
      → 0 < s.fip.ftl_page_num
      → U.leb_write s.vol (negsuc 0) (pos s.fip.leb_page_size *ℤ pos 0) b.data_buf ≡ (v, suc e)
      → publish U p (negsuc (s.fip.ftl_page_num - 1)) s
        ≡ err (suc e) (add_write_leb U (record s { vol = v }))
  unfolding publish get_buf ftl_write get_state check ◌>>=◌ bind
  publish-fails p e s b v h n w =
      let (q, r) = minus_block s.fip.ftl_page_num n in
      rw (h, q, r, w, not_zero e, publish, get_buf, ftl_write, ◌>>=◌, bind) refl

  -- If a buffer has been written to in all its sectors, the current page is the last of its block and
  -- no block is empty, sync_one_buf on the buffer, with its page log stamped, writes to block -1, page
  -- 0: the error that the volume gives for this write is the one it returns, and the volume is left as
  -- by this write. It does not stop at its test for -1, which would return -EIO without a write.
  pub sync_one_buf-exhausted :
      (p e : ℕ) (s : Ftl U.Vol) (b : PageBuf) (v : U.Vol)
      → get_elem? s.page_buf_pool p ≡ some b
      → (b.sector_state == 0) ≡ false
      → (b.sector_state == s.full_state) ≡ true
      → s.empty_block_fifo ≡ []
      → s.cur_offset.page +ℤ pos 1 ≡ pos s.fip.ftl_page_num
      → 1 < s.fip.ftl_page_num
      → U.leb_write s.vol
          (negsuc 0)
          (pos s.fip.leb_page_size *ℤ pos 0)
          (stamped U (exhausted s) b).data_buf
        ≡ (v, suc e)
      → (t : Ftl U.Vol) × (sync_one_buf U p s ≡ err (suc e) t) × (t.vol ≡ v)
  unfolding sync_one_buf write_out get_buf when fail add_write_leb ◌>>=◌ bind
  sync_one_buf-exhausted p e s b v h some_state full empty last many w =
      let u = record (exhausted s) {
        page_buf_pool = set s.page_buf_pool p (stamped U (exhausted s) b);
      } in
      let there =
        get_elem?-set_self s.page_buf_pool p (stamped U (exhausted s) b)
          (lt-length_of_get_elem? s.page_buf_pool p h) in
      (
        add_write_leb U (record u { vol = v }),
        rw
            (
              h,
              some_state,
              merge_buf-full p s b h full,
              get_new_page-exhausted s empty last (omega (arith, many)),
              not_minus_one s.fip.ftl_page_num many,
              stamp_buf-stamped U p (exhausted s) b h,
              publish-fails p e u (stamped U (exhausted s) b) v there (omega (arith, many)) w,
              sync_one_buf,
              write_out,
              get_buf,
              ◌>>=◌,
              bind,
            )
            refl,
        refl,
      )

  -- If no buffer holds a sector, the buffer at p is the first free one, the sector is mapped to
  -- a page, and the volume answers the read of the page with an error, then ftl_core_io_read
  -- returns this error, and a second ftl_core_io_read of the sector succeeds with the bytes that
  -- the failed read has left in that buffer.
  pub read-failed_read :
      (sector p e : ℕ) (index : ℤ) (v : U.Vol) (bytes : List ℕ) (s : Ftl U.Vol) (b : PageBuf)
      → is_sector_in_buf U sector s ≡ none
      → get_new_buf U s ≡ some p
      → get_elem? s.page_buf_pool p ≡ some b
      → array_get s.sector_index (pos (sector / s.fip.page_sector_num)) ≡ some index
      → eq_ℤ index ftl_nomap ≡ false
      → U.leb_read s.vol
          (quot index s.fip.ftl_page_num)
          (pos s.fip.leb_page_size *ℤ rem index s.fip.ftl_page_num)
          s.fip.leb_page_size
        ≡ (v, suc e, bytes)
      → (t u : Ftl U.Vol) × (ftl_core_io_read U sector s ≡ err (suc e) t)
        × (ftl_core_io_read U sector t
            ≡ ok
                (some (
                  slice
                    (overwrite b.data_buf 0 bytes)
                    (sector % s.fip.page_sector_num * sector_size)
                    sector_size))
                u)
  unfolding ftl_core_io_read add_read_sector claim_buf load_buf modify_buf get_buf get_sector_index
      ftl_read is_sector_in_buf get_new_buf ◌>>=◌
  read-failed_read sector p e index v bytes s b miss free there mapped real fails =
      let (u, reads) = read_of_Holds U sector _ t held in
      (t, u, ground (arith, get_elem?-set_self s.page_buf_pool p claimed inside), reads)
    where
      virtual : ℤ
      virtual = pos (sector / s.fip.page_sector_num)

      claimed : PageBuf
      claimed = record b { sector = virtual; read = true; sector_state = 0 }

      left : PageBuf
      left = record claimed { data_buf = overwrite b.data_buf 0 bytes }

      t : Ftl U.Vol
      t = record s {
        stat = record (s.stat) {
          read_sector = s.stat.read_sector + 1;
          read_leb_page = s.stat.read_leb_page + 1;
        };
        page_buf_pool = set (set s.page_buf_pool p claimed) p left;
        vol = v;
      }

      inside : p < length s.page_buf_pool
      inside = lt-length_of_get_elem? s.page_buf_pool p there

      held :
          Holds U sector
            (slice
              (overwrite b.data_buf 0 bytes)
              (sector % s.fip.page_sector_num * sector_size)
              sector_size)
            t
      held = record {
        at = p;
        page = left;
        here = rw (set-set s.page_buf_pool p claimed left) (
            find_buf-set virtual 0 p s.page_buf_pool left miss inside refl ∙ ap some (omega arith));
        there =
            rw (set-set s.page_buf_pool p claimed left)
              (get_elem?-set_self s.page_buf_pool p left inside);
        cached = ground arith;
        bytes = refl;
      }
