-- ===== src/Ubi/Eba/Write/Change.antt =====
-- modules/ubi/eba.c: recover_peb, ubi_eba_write_leb, ubi_eba_write_leb_st and
-- ubi_eba_atomic_leb_change.
use android_infotm_confident.Prelude.{
  ℕ, zero, suc, ◌+◌, true, not, ◌&&◌, ◌||◌, ◌==◌, if◌then◌else◌, none, some, List, [], ◌∷◌, ◌++◌,
  length, take, ℤ, pos, negsuc, eq_ℤ,
}
use android_infotm_confident.Outcome.{ok, ◌>>=◌, ◌>>◌, get_state, skip, fail, pure, check, recover}
use android_infotm_confident.Ubi.Misc.{align}
use android_infotm_confident.Ubi.Scan.Types.{VidHdr, vid_dynamic, vid_static, eio, io_bitflips}
use android_infotm_confident.Ubi.Eba.Write.{
  EbaState, WriteAct, wrote_vid, wrote_data, put, io_retries, erofs, take_alloc, next_sqnum,
  ubi_ro_mode, ubi_get_compat, get_peb, act, map_new, replace_old, next_hdr, write_loop, set_entry,
  ubi_eba_unmap_leb,
}

-- ubi_io_read_vid_hdr and ubi_io_read_data. A positive result is no error number.
unfoldable pub read_hdr : VidHdr → WriteAct (ℤ × VidHdr)
read_hdr h s = elim s.vids [ [] ↦ ok (pos 0, h) s | r ∷ rest ↦ ok r (record s { vids = rest }) ]

unfoldable pub read_data : WriteAct (ℤ × List ℕ)
read_data s = elim s.reads [ [] ↦ ok (pos 0, []) s | r ∷ rest ↦ ok r (record s { reads = rest }) ]

-- A result that stops the recovery, as an error number: what is neither success nor bit-flips.
unfoldable pub code_of : ℤ → ℕ
code_of (negsuc e) = e + 1
code_of (pos n) = if n == 0 || eq_ℤ (pos n) io_bitflips then 0 else eio

-- ubi_zalloc_vid_hdr.
abbrev pub zero_hdr : VidHdr
zero_hdr = record {
  vol_type = 0;
  copy_flag = 0;
  compat = 0;
  vol_id = 0;
  lnum = 0;
  data_size = 0;
  used_ebs = 0;
  data_pad = 0;
  data_crc = 0;
  sqnum = 0;
}

-- ubi_wl_put_peb with a torture test, whatever it gives.
unfoldable pub hand_back : ℕ → WriteAct (Unit {0})
unfolding act
hand_back pnum = do e ← act (put pnum true); skip

-- out_put: the new eraseblock is put.
unfoldable pub put_and_fail : ℕ → ℕ → WriteAct (Unit {0})
unfolding hand_back
put_and_fail new_pnum e = do hand_back new_pnum; fail e

-- One try of recover_peb. `again` is what follows its write_error, from the error on.
unfoldable pub recover_try :
    ℕ → ℕ → List ℕ → ℕ → (ℕ → ℕ → WriteAct (Unit {0})) → WriteAct (Unit {0})
unfolding get_peb read_hdr read_data code_of put_and_fail hand_back act next_sqnum set_entry
recover_try pnum lnum buf offset again = do
  new_pnum ← get_peb
  h ← read_hdr zero_hdr
  if not (code_of (h.0) == 0) then put_and_fail new_pnum (code_of (h.0)) else (do
    n ← next_sqnum
    e ← act (wrote_vid new_pnum (next_hdr (h.1) n))
    if not (e == 0) then again new_pnum e else (do
      r ← if offset == 0 then pure (pos 0, []) else read_data
      if not (code_of (r.0) == 0) then put_and_fail new_pnum (code_of (r.0)) else (do
        w ← act (wrote_data new_pnum (take offset (r.1) ++ buf) 0)
        if not (w == 0)
            then again new_pnum w
            else (do set_entry lnum (pos new_pnum); hand_back pnum))))

unfoldable pub recover_loop : ℕ → ℕ → ℕ → List ℕ → ℕ → WriteAct (Unit {0})
unfolding recover_try put_and_fail hand_back
recover_loop zero pnum lnum buf offset = recover_try pnum lnum buf offset put_and_fail
recover_loop (suc left) pnum lnum buf offset =
    let rest = recover_loop left pnum lnum buf offset in
    recover_try pnum lnum buf offset (λ new_pnum e. do hand_back new_pnum; rest)

unfoldable pub recover_peb : ℕ → ℕ → List ℕ → ℕ → WriteAct (Unit {0})
unfolding take_alloc recover_loop
recover_peb pnum lnum buf offset = do take_alloc; recover_loop io_retries pnum lnum buf offset

-- A LEB that is mapped is written in place.
unfoldable pub write_mapped : ℕ → ℕ → List ℕ → ℕ → WriteAct (Unit {0})
unfolding act recover_peb ubi_ro_mode
write_mapped pnum lnum buf offset =
    recover
      (do
        e ← act (wrote_data pnum buf offset)
        s ← get_state
        if e == eio && s.bad_allowed then recover_peb pnum lnum buf offset else check e)
      λ e. do ubi_ro_mode; fail e

unfoldable pub leb_hdr : EbaState → ℕ → ℕ → ℕ → VidHdr
unfolding ubi_get_compat
leb_hdr s lnum vol_type n = record zero_hdr {
  vol_type = vol_type;
  sqnum = n;
  vol_id = s.vol_id;
  lnum = lnum;
  compat = ubi_get_compat s.vol_id;
  data_pad = s.data_pad;
}

unfoldable pub write_unmapped : ℕ → List ℕ → ℕ → WriteAct (Unit {0})
unfolding take_alloc next_sqnum leb_hdr write_loop map_new
write_unmapped lnum buf offset = do
  take_alloc
  n ← next_sqnum
  s ← get_state
  write_loop io_retries (leb_hdr s lnum vid_dynamic n) (if length buf == 0 then none else some buf)
      offset (map_new lnum)

unfoldable pub ubi_eba_write_leb : ℕ → List ℕ → ℕ → WriteAct (Unit {0})
unfolding take_alloc write_mapped write_unmapped
ubi_eba_write_leb lnum buf offset = do
  s ← get_state
  if s.ro_mode then fail erofs else (do
    take_alloc
    elim (s.eba_tbl lnum) [
      | negsuc n ↦ write_unmapped lnum buf offset
      | pos pnum ↦ write_mapped pnum lnum buf offset
    ])

-- Only the last LEB of a static volume may have a length that is not aligned.
unfoldable pub static_len : EbaState → ℕ → ℕ → ℕ → ℕ
static_len s lnum data_size used_ebs =
    if lnum + 1 == used_ebs then align data_size s.min_io_size else data_size

module _ (crc32 : List ℕ → ℕ) where
  unfoldable pub static_hdr : EbaState → ℕ → List ℕ → ℕ → ℕ → ℕ → VidHdr
  unfolding leb_hdr
  static_hdr s lnum buf data_size used_ebs n = record (leb_hdr s lnum vid_static n) {
    data_size = data_size;
    used_ebs = used_ebs;
    data_crc = crc32 (take data_size buf);
  }

  unfoldable pub ubi_eba_write_leb_st : ℕ → List ℕ → ℕ → ℕ → WriteAct (Unit {0})
  unfolding take_alloc next_sqnum static_hdr static_len write_loop map_new
  ubi_eba_write_leb_st lnum buf data_size used_ebs = do
    s ← get_state
    if s.ro_mode then fail erofs else (do
      take_alloc
      take_alloc
      n ← next_sqnum
      write_loop io_retries (static_hdr s lnum buf data_size used_ebs n)
          (some (take (static_len s lnum data_size used_ebs) buf)) 0 (map_new lnum))

  -- The header of the copy: with its flag, and the checksum over all data.
  unfoldable pub change_hdr : EbaState → ℕ → List ℕ → ℕ → VidHdr
  unfolding leb_hdr
  change_hdr s lnum buf n = record (leb_hdr s lnum vid_dynamic n) {
    data_size = length buf;
    copy_flag = 1;
    data_crc = crc32 buf;
  }

  unfoldable pub write_changed : ℕ → List ℕ → WriteAct (Unit {0})
  unfolding take_alloc next_sqnum change_hdr write_loop replace_old
  write_changed lnum buf = do
    take_alloc
    take_alloc
    n ← next_sqnum
    s ← get_state
    write_loop io_retries (change_hdr s lnum buf n) (some buf) 0 (replace_old lnum)

  unfoldable pub ubi_eba_atomic_leb_change : ℕ → List ℕ → WriteAct (Unit {0})
  unfolding write_changed ubi_eba_unmap_leb ubi_eba_write_leb
  ubi_eba_atomic_leb_change lnum buf = do
    s ← get_state
    if s.ro_mode
        then fail erofs
        else if length buf == 0
        then (do ubi_eba_unmap_leb lnum; ubi_eba_write_leb lnum [] 0)
        else write_changed lnum buf
