-- ===== src/Ubi/Eba/Write/Silent.antt =====
-- modules/ubi/eba.c: what the last try gives back in ubi_eba_write_leb_st and
-- ubi_eba_atomic_leb_change.
use android_infotm_confident.Prelude.{
  ℕ, ◌+◌, ◌≡◌, refl, true, false, ◌==◌, some, List, [], ◌∷◌, length, map, take, pos,
}
use android_infotm_confident.Outcome.{bind, ◌>>=◌, get_state, check}
use android_infotm_confident.Outcome.Post.{Returns}
use android_infotm_confident.Ubi.Scan.Types.{VidHdr, eio}
use android_infotm_confident.Ubi.Eba.Write.{
  EbaState, WriteAct, wrote_vid, put, take_alloc, next_sqnum, ubi_ro_mode, get_peb, act, write_peb,
  give_up, next_hdr, write_try, write_loop, map_new, replace_old,
}
use android_infotm_confident.Ubi.Eba.Write.Change.{
  static_hdr, static_len, ubi_eba_write_leb_st, change_hdr, write_changed,
  ubi_eba_atomic_leb_change,
}

-- Every header fails with -EIO, and every eraseblock is taken back.
abbrev failures : List ℕ → List ℕ
failures [] = []
failures (p ∷ pebs) = eio ∷ 0 ∷ failures pebs

-- A flash that may have bad eraseblocks, with these ones free.
abbrev pub failing : List ℕ → EbaState → EbaState
failing pebs s = record s { bad_allowed = true; gets = map pos pebs; answers = failures pebs }

-- Success, while the table is as it was, and the device is read-only now.
abbrev pub Silent : EbaState → WriteAct (Unit {0}) → Type 0
Silent s m = Returns (λ t. (t.eba_tbl ≡ s.eba_tbl) × (t.ro_mode ≡ true)) (m s)

write_loop-Silent :
    (pebs : List ℕ) (p : ℕ) (h : VidHdr) (buf : List ℕ) (offset : ℕ)
    (finish : ℕ → WriteAct (Unit {0})) (t : EbaState)
    → Silent (failing (p ∷ pebs) t) (write_loop (length pebs) h (some buf) offset finish)
unfolding write_loop write_try write_peb give_up ubi_ro_mode next_sqnum get_peb act get_state check
    bind ◌>>=◌
write_loop-Silent [] p h buf offset finish t = (refl, refl)
write_loop-Silent (q ∷ pebs) p h buf offset finish t =
    write_loop-Silent pebs q (next_hdr h t.global_sqnum) buf offset finish (record t {
      trace = put p true 0 ∷ wrote_vid p h eio ∷ t.trace;
      global_sqnum = t.global_sqnum + 1;
    })

module _ (crc32 : List ℕ → ℕ) (lnum : ℕ) (buf : List ℕ) (p q r o : ℕ) (s : EbaState) where
  abbrev no_hope : EbaState
  no_hope = failing (p ∷ q ∷ r ∷ o ∷ []) (record s { ro_mode = false; allocs = [] })

  abbrev numbered : EbaState
  numbered = record s { ro_mode = false; allocs = []; global_sqnum = s.global_sqnum + 1 }

  static-Silent :
      (data_size used_ebs : ℕ)
      → Silent no_hope (ubi_eba_write_leb_st crc32 lnum buf data_size used_ebs)
  unfolding ubi_eba_write_leb_st take_alloc next_sqnum get_state bind ◌>>=◌
  static-Silent data_size used_ebs =
      write_loop-Silent (q ∷ r ∷ o ∷ []) p
        (static_hdr crc32 no_hope lnum buf data_size used_ebs s.global_sqnum)
        (take (static_len no_hope lnum data_size used_ebs) buf) 0 (map_new lnum) numbered

  change-Silent : Silent no_hope (write_changed crc32 lnum buf)
  unfolding write_changed take_alloc next_sqnum get_state bind ◌>>=◌
  change-Silent =
      write_loop-Silent (q ∷ r ∷ o ∷ []) p
        (change_hdr crc32 (failing (p ∷ q ∷ r ∷ o ∷ []) numbered) lnum buf s.global_sqnum) buf 0
        (replace_old lnum) numbered

  -- Where each of the four tries fails with -EIO at the header, and each of the eraseblocks is put
  -- with success, on a flash that may have bad eraseblocks, a write to a static volume reports
  -- success, and so does an atomic change to data that is not empty: the table of LEBs is as it was,
  -- and the device has become read-only.
  pub write_retries-Silent :
      (data_size used_ebs : ℕ)
      → (length buf == 0) ≡ false
      → Silent no_hope (ubi_eba_write_leb_st crc32 lnum buf data_size used_ebs)
        × Silent no_hope (ubi_eba_atomic_leb_change crc32 lnum buf)
  unfolding ubi_eba_atomic_leb_change get_state bind ◌>>=◌
  write_retries-Silent data_size used_ebs e = (static-Silent data_size used_ebs, rw e change-Silent)
