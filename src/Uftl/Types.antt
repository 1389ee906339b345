-- ===== src/Uftl/Types.antt =====
-- The data of modules/uftl/uftl.h, the static variables of uftl_core.c and uftl_cache_stat.c as
-- one record, and what the layer asks of UBI.
use android_infotm_confident.Prelude.{ℕ, Bool, List, ℤ, negsuc}
use android_infotm_confident.Outcome.{M}

-- The calls of the UBI kernel API that the layer makes, over the states of a volume. The numbers
-- are the logical block, the byte offset and the length; a result 0 is success, any other the
-- positive error number. A read hands over the bytes that it has put into the buffer.
pub record Ubi : Type 1 where
  pub Vol : Type 0
  pub leb_read : Vol → ℤ → ℤ → ℕ → Vol × ℕ × List ℕ
  pub leb_write : Vol → ℤ → ℤ → List ℕ → Vol × ℕ
  pub leb_unmap : Vol → ℤ → Vol × ℕ
  pub leb_erase : Vol → ℤ → Vol × ℕ
  pub leb_change : Vol → ℤ → List ℕ → Vol × ℕ

abbrev pub sector_size : ℕ
sector_size = 512

abbrev pub buf_num : ℕ
buf_num = 64

abbrev pub log_page_num_per_block : ℕ
log_page_num_per_block = 1

abbrev pub page_log_sector : ℕ
page_log_sector = 1

abbrev pub page_empty : ℕ
page_empty = 1

abbrev pub page_using : ℕ
page_using = 2

abbrev pub page_discard : ℕ
page_discard = 3

abbrev pub ftl_nomap : ℤ
ftl_nomap = negsuc 0

abbrev pub no_id : ℤ
no_id = negsuc 0

abbrev pub low_block_num : ℕ
low_block_num = 5

abbrev pub gc_block_num : ℕ
gc_block_num = 10

abbrev pub ftl_log_block_num : ℕ
ftl_log_block_num = 10

abbrev pub need_flush_time : ℕ
need_flush_time = 200

abbrev pub per_index_len : ℕ
per_index_len = 8192

abbrev pub magic_num : ℕ
magic_num = 722

abbrev pub eio : ℕ
eio = 5

abbrev pub enomem : ℕ
enomem = 12

abbrev pub ebusy : ℕ
ebusy = 16

-- `struct block_state`
pub record BlockState : Type 0 where
  pub page_state : List ℕ
  pub using_page : ℤ

-- `struct page_buf`
pub record PageBuf : Type 0 where
  pub sector : ℤ
  pub read : Bool
  pub data_buf : List ℕ
  pub sector_state : ℕ
  pub jiffies : ℕ

-- `struct uftl_info`
pub record UftlInfo : Type 0 where
  pub leb_num : ℕ
  pub leb_page_size : ℕ
  pub leb_page_num : ℕ
  pub ftl_page_num : ℕ
  pub page_sector_num : ℕ
  pub virtual_sector_num : ℕ

-- `struct line_offset`
pub record LineOffset : Type 0 where
  pub block : ℤ
  pub page : ℤ

-- `struct cache_stat`
pub record CacheStat : Type 0 where
  pub read_sector : ℕ
  pub read_leb_page : ℕ
  pub write_sector : ℕ
  pub write_leb_page : ℕ

-- `struct fake_int_array`; the number of lines is the length of `rows`.
pub record FakeIntArray : Type 0 where
  pub rows : List (List ℤ)
  pub num : ℕ

-- `indexed` tells whether the pointer `block_state_index` is set. The last fields are the
-- environment: the kernel's clock, the outcomes of the coming kmalloc calls (success when the list
-- is empty), the byte that fresh memory holds, the volume.
pub record Ftl (V : Type 0) : Type 0 where
  pub indexed : Bool
  pub block_state_index : List BlockState
  pub fip : UftlInfo
  pub page_buf_pool : List PageBuf
  pub sector_index : FakeIntArray
  pub sector_id : FakeIntArray
  pub tmp_page_buf : List ℕ
  pub block_log_page : List ℕ
  pub cur_offset : LineOffset
  pub full_state : ℕ
  pub block_id : ℤ
  pub check_count : ℕ
  pub empty_block_fifo : List ℤ
  pub fifo_cap : ℕ
  pub need_rewrite : Bool
  pub rewrite_page : ℤ
  pub stat : CacheStat
  pub now : ℕ
  pub allocs : List Bool
  pub junk : ℕ
  pub vol : V

-- A step of the layer over the volumes of `U`.
abbrev pub Act {ℓ} : Ubi → Type ℓ → Type ℓ
Act U A = M (Ftl U.Vol) A
