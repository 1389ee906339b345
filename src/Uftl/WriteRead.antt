-- ===== src/Uftl/WriteRead.antt =====
-- A sector that was written is read back, whatever buffers the write had to flush.
use android_infotm_confident.Prelude.{
  ℕ, ◌+◌, ◌*◌, ◌%◌, ◌≤◌, ◌<◌, ◌≡◌, false, not, ◌&&◌, List, map, some, get_elem?, set, slice, arith,
}
use android_infotm_confident.Outcome.{ok, ◌>>=◌}
use android_infotm_confident.Uftl.Types.{Ubi, Ftl, PageBuf, sector_size}
use android_infotm_confident.Uftl.Flash.{add_read_sector}
use android_infotm_confident.Uftl.Sync.{test_bit, is_sector_in_buf, get_buf, modify_buf}
use android_infotm_confident.Uftl.Buffers.{size_of}
use android_infotm_confident.Uftl.Io.{take_sector, ftl_core_io_read}
use android_infotm_confident.Uftl.FindBuf.{AllEq}

module _ (U : Ubi) where
  -- The buffers have the size of a page, and a page has room for its sectors.
  pub record IsSized (s : Ftl U.Vol) : Type 0 where
    pub some_sector : 0 < s.fip.page_sector_num
    pub fits : s.fip.page_sector_num * sector_size ≤ s.fip.leb_page_size
    pub buffers : AllEq s.fip.leb_page_size (map size_of s.page_buf_pool)

  abbrev pub index_in_page : ℕ → Ftl U.Vol → ℕ
  index_in_page sector s = sector % s.fip.page_sector_num

  -- A buffer serves the sector: it was written there, or the whole page was read.
  pub record Holds (sector : ℕ) (buf : List ℕ) (s : Ftl U.Vol) : Type 0 where
    pub at : ℕ
    pub page : PageBuf
    pub here : is_sector_in_buf U sector s ≡ some at
    pub there : get_elem? s.page_buf_pool at ≡ some page
    pub cached :
        (not (test_bit page.sector_state (index_in_page sector s)) && not page.read) ≡ false
    pub bytes : slice page.data_buf (index_in_page sector s * sector_size) sector_size ≡ buf

  pub read_of_Holds :
      (sector : ℕ) (buf : List ℕ) (s : Ftl U.Vol)
      → Holds sector buf s
      → (t : Ftl U.Vol) × (ftl_core_io_read U sector s ≡ ok (some buf) t)
  unfolding ftl_core_io_read add_read_sector take_sector get_buf modify_buf ◌>>=◌ is_sector_in_buf
  read_of_Holds sector buf s h = (
    record s {
      stat = record (s.stat) { read_sector = s.stat.read_sector + 1 };
      page_buf_pool = set s.page_buf_pool h.at (record (h.page) { jiffies = s.now });
    },
    ground arith,
  )
