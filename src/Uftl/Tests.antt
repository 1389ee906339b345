-- ===== src/Uftl/Tests.antt =====
-- Runs of the translation layer over small volumes.
use android_infotm_confident.Prelude.{
  ℕ, ◌≡◌, refl, true, false, ◌&&◌, if◌then◌else◌, List, [], ◌∷◌, replicate, none, some, ℤ, pos,
  negsuc, eq_ℤ, ltb_ℤ, arith, overwrite, slice,
}
use android_infotm_confident.Outcome.{Outcome, ok, err, fault}
use android_infotm_confident.Outcome.Keeps.{Keeps}
use android_infotm_confident.Uftl.Types.{Ubi, Ftl, PageBuf, FakeIntArray, ftl_nomap}
use android_infotm_confident.Uftl.Arrays.{array_get, array_set}
use android_infotm_confident.Uftl.Sync.{
  find_buf, is_sector_in_buf, get_new_buf, stamp_buf, sync_one_buf, flush_one_buf,
}
use android_infotm_confident.Uftl.Io.{ftl_core_io_write, ftl_core_io_read}
use android_infotm_confident.Uftl.Buffers.{sync_one_buf-Keeps, others}
use android_infotm_confident.Uftl.Faults.{
  flush_one_buf-first, sync_one_buf-exhausted, read-failed_read,
}
use android_infotm_confident.Uftl.PageLog.{stamped, after_read, scan_open_block-stamped}
use android_infotm_confident.Uftl.Index.{take_log, scan_open_block}

abbrev Ram : Type 0
Ram = ℤ → ℤ → List ℕ

abbrev put_at : Ram → ℤ → ℤ → List ℕ → Ram
put_at v lnum off bytes l o = if eq_ℤ l lnum && eq_ℤ o off then bytes else v l o

abbrev drop_leb : Ram → ℤ → Ram
drop_leb v lnum l o = if eq_ℤ l lnum then [] else v l o

-- A volume that keeps what is written.
abbrev ram : Ubi
ram = record {
  Vol = Ram;
  leb_read = λ v lnum off len. (v, 0, v lnum off);
  leb_write = λ v lnum off bytes. (put_at v lnum off bytes, 0);
  leb_unmap = λ v lnum. (drop_leb v lnum, 0);
  leb_erase = λ v lnum. (drop_leb v lnum, 0);
  leb_change = λ v lnum bytes. (put_at (drop_leb v lnum) lnum (pos 0) bytes, 0);
}

-- A volume whose reads fail.
abbrev broken : Ubi
broken = record ram { leb_read = λ v lnum off len. (v, 5, []) }

abbrev free_buf : PageBuf
free_buf = record {
  sector = ftl_nomap;
  read = false;
  data_buf = replicate 1024 0;
  sector_state = 0;
  jiffies = 0;
}

abbrev ints : FakeIntArray
ints = record { rows = (pos 4 ∷ ftl_nomap ∷ []) ∷ (ftl_nomap ∷ ftl_nomap ∷ []) ∷ []; num = 2 }

-- Blocks of two pages and a log page; a page has one sector, and its log.
abbrev start : Ftl Ram
start = record {
  indexed = true;
  block_state_index = [];
  fip = record {
    leb_num = 12;
    leb_page_size = 1024;
    leb_page_num = 3;
    ftl_page_num = 2;
    page_sector_num = 1;
    virtual_sector_num = 4;
  };
  page_buf_pool = free_buf ∷ free_buf ∷ [];
  sector_index = ints;
  sector_id = ints;
  tmp_page_buf = replicate 1024 0;
  block_log_page = replicate 1024 0;
  cur_offset = record { block = pos 2; page = pos 1 };
  full_state = 1;
  block_id = pos 9;
  check_count = 0;
  empty_block_fifo = [];
  fifo_cap = 16;
  need_rewrite = false;
  rewrite_page = negsuc 0;
  stat = record { read_sector = 0; read_leb_page = 0; write_sector = 0; write_leb_page = 0 };
  now = 50;
  allocs = [];
  junk = 0;
  vol = λ l o. [];
}

abbrev sector_bytes : List ℕ
sector_bytes = replicate 512 7

abbrev state_after {ℓ} : {A : Type ℓ} → Outcome (Ftl Ram) A → Ftl Ram
state_after (ok a t) = t
state_after (err e t) = t
state_after fault = start

abbrev written : Ftl Ram
written = state_after (ftl_core_io_write ram 3 sector_bytes start)

flush_one_buf-first_example : flush_one_buf ram start ≡ sync_one_buf ram 0 start
flush_one_buf-first_example = flush_one_buf-first ram start free_buf (free_buf ∷ []) refl

-- A volume that refuses a write to a block below 0, as UBI does.
abbrev strict : Ubi
strict = record ram {
  leb_write =
      λ v lnum off bytes. if ltb_ℤ lnum (pos 0) then (v, 22) else (put_at v lnum off bytes, 0);
}

abbrev full_buf : PageBuf
full_buf = record free_buf { sector = pos 3; sector_state = 1 }

-- The first buffer has all of sector 3.
abbrev filled : Ftl Ram
filled = record start { page_buf_pool = full_buf ∷ free_buf ∷ [] }

sync_one_buf-exhausted_example :
    (t : Ftl Ram) × (sync_one_buf strict 0 filled ≡ err 22 t) × (t.vol ≡ filled.vol)
sync_one_buf-exhausted_example =
    sync_one_buf-exhausted strict 0 21 filled full_buf filled.vol refl refl refl refl refl
      (omega arith) refl

no_buffer : is_sector_in_buf broken 0 start ≡ none
unfolding is_sector_in_buf find_buf
no_buffer = refl

first_free : get_new_buf broken start ≡ some 0
unfolding get_new_buf find_buf
first_free = refl

first_mapped : array_get ints (pos 0) ≡ some (pos 4)
unfolding array_get
first_mapped = refl

read-failed_read_example :
    (t u : Ftl Ram) × (ftl_core_io_read broken 0 start ≡ err 5 t)
    × (ftl_core_io_read broken 0 t ≡ ok (some (slice (overwrite free_buf.data_buf 0 []) 0 512)) u)
read-failed_read_example =
    read-failed_read broken 0 0 4 (pos 4) start.vol [] start free_buf no_buffer first_free refl
      first_mapped refl refl

sync_one_buf-Keeps_example : Keeps (others ram 1) (sync_one_buf ram 1)
sync_one_buf-Keeps_example = sync_one_buf-Keeps ram 1

abbrev changed : FakeIntArray
changed = record { rows = (pos 4 ∷ ftl_nomap ∷ []) ∷ (ftl_nomap ∷ pos 6 ∷ []) ∷ []; num = 2 }

changed_lem : array_set ints (pos 3) (pos 6) ≡ some changed
unfolding array_set
changed_lem = refl

-- The page of the stamped buffer stands in block 4.
abbrev stored : Ftl Ram
stored = record start {
  vol = put_at start.vol (pos 4) (pos 0) (stamped ram filled full_buf).data_buf;
}

scan_open_block-stamped_example :
    (stamp_buf ram 0 filled
      ≡ ok tt (record filled { page_buf_pool = stamped ram filled full_buf ∷ free_buf ∷ [] }))
    × (scan_open_block ram 4 2 0 stored
        ≡ take_log ram 4 0
            (pos 3)
            (pos 9)
            (scan_open_block ram 4 1 1)
            (after_read ram stored stored.vol (stamped ram filled full_buf).data_buf))
scan_open_block-stamped_example =
    scan_open_block-stamped ram 0 4 1 0 filled stored full_buf stored.vol refl (omega arith)
      (omega arith) (omega arith) (omega arith) refl refl
