-- ===== src/Ubi/Change/Overrun.antt =====
-- modules/ubi/upd.c: the room that ubi_start_leb_change gives to the padding.
use android_infotm_confident.Prelude.{
  ℕ, ◌<◌, ◌≡◌, ◌≢◌, false, List, [], length, replicate, arith, length-overwrite, length-replicate,
}
use android_infotm_confident.Outcome.{fault, bind, ◌>>=◌, ◌>>◌, get_state, when, skip, crash}
use android_infotm_confident.Ubi.Misc.{align}
use android_infotm_confident.Ubi.Upd.{Eba, UpdVolume, UpdAct, alloc_buf, copy_in, receive, accepted}
use android_infotm_confident.Ubi.Change.{
  ubi_start_leb_change, ubi_more_leb_change_data, more_change, commit_change, set_change,
}

module _ (E : Eba) where
  -- The change of an eraseblock to `bytes`, which come in one call.
  abbrev pub change_leb : ℕ → List ℕ → UpdAct E ℕ
  change_leb lnum bytes =
      ubi_start_leb_change E lnum (length bytes) >> ubi_more_leb_change_data E bytes

  -- The change of an eraseblock to some bytes, which all come in one call, writes past the end of
  -- the buffer that vmalloc gave where the padding to a whole write reaches beyond the whole pages
  -- that hold the bytes, on a device that can be written, with memory and a copy from the user
  -- that do not fail.
  pub change_leb-fault :
      (lnum : ℕ) (bytes : List ℕ) (s : UpdVolume E.Dev)
      → length bytes ≢ 0
      → s.ro_mode ≡ false
      → s.allocs ≡ []
      → s.copies ≡ []
      → align (length bytes) s.page_size < align (length bytes) s.min_io_size
      → change_leb lnum bytes s ≡ fault
  unfolding ubi_start_leb_change set_change alloc_buf ubi_more_leb_change_data accepted more_change
      copy_in receive commit_change when crash skip get_state ◌>>=◌ bind
  change_leb-fault lnum bytes s nz ro al co over = ground (
    arith,
    length-overwrite (replicate (align (length bytes) s.page_size) s.junk) 0 bytes,
    length-replicate (align (length bytes) s.page_size) s.junk,
  )
