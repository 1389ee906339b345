-- ===== src/Ubi/Eba/Write/Atomic.antt =====
-- modules/ubi/eba.c, ubi_eba_atomic_leb_change as a whole.
use android_infotm_confident.Prelude.{
  ℕ, ◌+◌, ◌≡◌, refl, ◌∙◌, Bool, true, false, ◌==◌, List, [], ◌∷◌, length,
}
use android_infotm_confident.Outcome.{ok, err, bind, ◌>>=◌, get_state, fail}
use android_infotm_confident.Outcome.Post.{Post, bind-Post, Post-if}
use android_infotm_confident.Ubi.Scan.Types.{VidHdr, enomem}
use android_infotm_confident.Ubi.Eba.Write.{EbaState, io_retries, erofs, take_alloc, next_sqnum}
use android_infotm_confident.Ubi.Eba.Write.Change.{
  change_hdr, write_changed, ubi_eba_atomic_leb_change, leb_hdr,
}
use android_infotm_confident.Ubi.Eba.Write.Guard.{
  between, begun, Stage, Done, Ended, write_loop-Ended,
}

-- The header of a whole copy.
pub record Describes (crc32 : List ℕ → ℕ) (vol_id lnum : ℕ) (buf : List ℕ) (h : VidHdr)
    : Type 0 where
  pub volume : h.vol_id ≡ vol_id
  pub block : h.lnum ≡ lnum
  pub copied : h.copy_flag ≡ 1
  pub size : h.data_size ≡ length buf
  pub checked : h.data_crc ≡ crc32 buf

take_alloc-Stage :
    (Good : VidHdr → Type 0) (buf : List ℕ) (lnum : ℕ) (s t : EbaState)
    → Stage Good buf lnum s between t
    → Post
        (λ (a : Unit {0}) u. Stage Good buf lnum s between u × (u.vol_id ≡ t.vol_id))
        (Ended Good buf lnum s)
        (take_alloc t)
unfolding take_alloc
take_alloc-Stage Good buf lnum s t h = go t.allocs
  where
    go :
        (l : List Bool)
        → Post {A = Unit {0}}
            (λ a u. Stage Good buf lnum s between u × (u.vol_id ≡ t.vol_id))
            (Ended Good buf lnum s)
            (elim l [
              | [] ↦ ok tt t
              | true ∷ rest ↦ ok tt (record t { allocs = rest })
              | false ∷ rest ↦ err enomem (record t { allocs = rest })
            ])
    go [] = (h, refl)
    go (true ∷ rest) = (h, refl)
    go (false ∷ rest) = (between, h)

-- An atomic change of a LEB to data that is not empty ends without a fault, whatever fails on the
-- way. The eraseblock that the LEB is on is put only after a header and then the data have been
-- written with success to one and the same eraseblock, and but for it only the eraseblock of a failed
-- try is put, and is to be tested. Each header that is written has the volume, the number of the LEB,
-- the copy flag, and the length and checksum of the data. After an error the table is as it was.
-- After success the table has the LEB on the eraseblock with the whole copy and each other LEB where
-- it was, or the table is as it was and the device is read-only.
pub ubi_eba_atomic_leb_change-Done :
    (crc32 : List ℕ → ℕ) (lnum : ℕ) (buf : List ℕ) (s : EbaState)
    → (length buf == 0) ≡ false
    → Post
        (Done (Describes crc32 s.vol_id lnum buf) buf lnum s)
        (Ended (Describes crc32 s.vol_id lnum buf) buf lnum s)
        (ubi_eba_atomic_leb_change crc32 lnum buf s)
unfolding ubi_eba_atomic_leb_change write_changed change_hdr leb_hdr next_sqnum get_state fail ◌>>=◌
    bind
ubi_eba_atomic_leb_change-Done crc32 lnum buf s q =
    let Good = Describes crc32 s.vol_id lnum buf in
    Post-if (Ended Good buf lnum s) (Done Good buf lnum s) s.ro_mode (fail erofs) _ s
      (λ r. (between, (begun, refl)))
      λ r. rw q (
        bind-Post (Ended Good buf lnum s)
          (λ a u. Stage Good buf lnum s between u × (u.vol_id ≡ s.vol_id)) (Done Good buf lnum s)
          (take_alloc s) _ (take_alloc-Stage Good buf lnum s s (begun, refl))
          λ a t h.
            bind-Post (Ended Good buf lnum s)
              (λ a u. Stage Good buf lnum s between u × (u.vol_id ≡ t.vol_id))
              (Done Good buf lnum s) (take_alloc t) _ (take_alloc-Stage Good buf lnum s t (h.0))
              λ b u k.
                let v = record u { global_sqnum = u.global_sqnum + 1 } in
                write_loop-Ended Good buf lnum s
                  (λ h n g. record {
                    volume = g.volume;
                    block = g.block;
                    copied = g.copied;
                    size = g.size;
                    checked = g.checked;
                  })
                  io_retries (change_hdr crc32 v lnum buf u.global_sqnum) v
                  (record {
                    volume = (k.1) ∙ (h.1);
                    block = refl;
                    copied = refl;
                    size = refl;
                    checked = refl;
                  })
                  (k.0))
