-- ===== src/Uftl/Flash.antt =====
-- uftl_io.c and the counters of uftl_cache_stat.c: the layer's calls of UBI, and the copies between
-- a page of the volume and the layer's buffers.
use android_infotm_confident.Prelude.{
  ℕ, ◌+◌, ◌*◌, ◌/◌, ◌%◌, Bool, ◌==◌, ltb, length, if◌then◌else◌, List, ◌∷◌, ◌++◌, replicate, ℤ, pos,
  negsuc, ◌+ℤ◌, ◌*ℤ◌, overwrite, int_bytes,
}
use android_infotm_confident.Outcome.{ok, err, fault, bind, check}
use android_infotm_confident.Uftl.Types.{Ubi, Ftl, Act, magic_num, enomem}
use android_infotm_confident.Uftl.Arrays.{kmalloc}

-- `struct page_log_info`: magic, two bytes of padding that hold whatever was there, sector, id.
abbrev pub page_log_bytes : ℕ → ℤ → ℤ → List ℕ
page_log_bytes pad sector id =
    magic_num % 256 ∷ magic_num / 256 ∷ pad ∷ pad ∷ (int_bytes sector ++ int_bytes id)

-- `struct log_info`: magic, padding, id.
abbrev pub log_bytes : ℕ → ℤ → List ℕ
log_bytes pad id = magic_num % 256 ∷ magic_num / 256 ∷ pad ∷ pad ∷ int_bytes id

module _ (U : Ubi) where
  unfoldable pub clear_cache_stat : Act U (Unit {0})
  clear_cache_stat s = ok tt (record s {
    stat = record { read_sector = 0; read_leb_page = 0; write_sector = 0; write_leb_page = 0 };
  })

  unfoldable pub add_read_sector : Act U (Unit {0})
  add_read_sector s =
      ok tt (record s { stat = record (s.stat) { read_sector = s.stat.read_sector + 1 } })

  unfoldable pub add_read_leb : Ftl U.Vol → Ftl U.Vol
  add_read_leb s = record s { stat = record (s.stat) { read_leb_page = s.stat.read_leb_page + 1 } }

  unfoldable pub add_write_sector : Act U (Unit {0})
  add_write_sector s =
      ok tt (record s { stat = record (s.stat) { write_sector = s.stat.write_sector + 1 } })

  unfoldable pub add_write_leb : Ftl U.Vol → Ftl U.Vol
  add_write_leb s = record s {
    stat = record (s.stat) { write_leb_page = s.stat.write_leb_page + 1 };
  }

  unfoldable pub ftl_erase : ℤ → Bool → Act U (Unit {0})
  ftl_erase lnum unmap s =
      let (v, ret) = if unmap then U.leb_unmap s.vol lnum else U.leb_erase s.vol lnum in
      check ret (record s { vol = v })

  -- The error number and the bytes that the read has left in the caller's buffer.
  unfoldable pub ftl_read : ℤ → ℤ → Act U (ℕ × List ℕ)
  unfolding add_read_leb
  ftl_read lnum page s =
      let size = s.fip.leb_page_size in
      let (v, ret, bytes) = U.leb_read s.vol lnum (pos size *ℤ page) size in
      ok (ret, bytes) (add_read_leb (record s { vol = v }))

  unfoldable pub ftl_write : ℤ → ℤ → List ℕ → Act U (Unit {0})
  unfolding add_write_leb
  ftl_write lnum page buf s =
      let (v, ret) = U.leb_write s.vol lnum (pos s.fip.leb_page_size *ℤ page) buf in
      check ret (add_write_leb (record s { vol = v }))

  -- The pages below `till_page` are read and put back by an atomic change of the block.
  unfoldable pub ftl_rescure : ℤ → ℕ → Act U (Unit {0})
  ftl_rescure block till_page s =
      let size = s.fip.leb_page_size * till_page in
      bind (kmalloc U s) λ got t.
        if got
        then (let (v, ret, bytes) = U.leb_read t.vol block (pos 0) size in
            let (w, ret') = U.leb_change v block (overwrite (replicate size t.junk) 0 bytes) in
            if ret == 0 then check ret' (record t { vol = w }) else err ret (record t { vol = v }))
        else err enomem t

  -- `ftl_read(…, tmp_page_buf)` with the test of its result.
  unfoldable pub read_tmp : ℤ → ℤ → Act U (Unit {0})
  unfolding ftl_read
  read_tmp lnum page s =
      bind (ftl_read lnum page s)
        λ (ret, bytes) t. check ret (record t { tmp_page_buf = overwrite t.tmp_page_buf 0 bytes })

  -- A write past the end is a fault.
  -- `memcpy(block_log_page + sizeof(struct log_info) + sizeof(int) * page, &sector, sizeof(int))`
  unfoldable pub note_sector : ℤ → ℤ → Act U (Unit {0})
  note_sector page sector s = elim (pos 8 +ℤ pos 4 *ℤ page) [
    | pos off ↦
        if ltb (length s.block_log_page) (off + 4)
        then fault
        else ok tt (record s { block_log_page = overwrite s.block_log_page off (int_bytes sector) })
    | negsuc _ ↦ fault
  ]

  -- The head of the log page: magic number and block id.
  unfoldable pub note_head : Act U (Unit {0})
  note_head s =
      if ltb (length s.block_log_page) 8
      then fault
      else ok tt
          (record s { block_log_page = overwrite s.block_log_page 0 (log_bytes s.junk s.block_id) })
