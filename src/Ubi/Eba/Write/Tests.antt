-- ===== src/Ubi/Eba/Write/Tests.antt =====
-- A device with LEB 7 of volume 3 on eraseblock 4, and the theorems at it.
use android_infotm_confident.Prelude.{
  ℕ, ◌≡◌, refl, true, false, ◌==◌, if◌then◌else◌, List, [], ◌∷◌, length, ℤ, pos, negsuc,
}
use android_infotm_confident.Outcome.{Outcome, ok, err, fault, ◌>>=◌, bind}
use android_infotm_confident.Outcome.Post.{Post}
use android_infotm_confident.Ubi.Scan.Types.{VidHdr, eio}
use android_infotm_confident.Ubi.Eba.Write.{
  EbaState, FlashOp, put, scrubbed, wrote_data, wrote_vid, take_alloc, next_sqnum, get_peb, act,
  set_entry, write_peb, release, replace_old, write_try, write_loop,
}
use android_infotm_confident.Ubi.Eba.Write.Change.{
  read_hdr, read_data, ubi_eba_atomic_leb_change, write_changed, ubi_eba_write_leb_st,
}
use android_infotm_confident.Ubi.Eba.Read.{
  judge_hdr, with_crc, scrub_if, end_read, judge_read, data_part, checked_read, ubi_eba_read_leb,
}
use android_infotm_confident.Ubi.Eba.Read.Checked.{Any, Checked, ubi_eba_read_leb-Checked}
use android_infotm_confident.Ubi.Eba.Write.Guard.{Done, Ended}
use android_infotm_confident.Ubi.Eba.Write.Atomic.{Describes, ubi_eba_atomic_leb_change-Done}
use android_infotm_confident.Ubi.Eba.Write.Silent.{Silent, failing, write_retries-Silent}

-- The data does not go to eraseblock 5.
abbrev start : EbaState
start = record {
  vol_id = 3;
  data_pad = 0;
  min_io_size = 4;
  ro_mode = false;
  bad_allowed = true;
  global_sqnum = 20;
  eba_tbl = λ l. if l == 7 then pos 4 else negsuc 0;
  gets = pos 5 ∷ pos 6 ∷ [];
  answers = 0 ∷ eio ∷ [];
  vids = [];
  reads = [];
  allocs = [];
  trace = [];
}

abbrev bytes : List ℕ
bytes = 10 ∷ 20 ∷ 30 ∷ 40 ∷ []

-- What was done at the end, and the eraseblock of LEB 7.
abbrev summary : Outcome EbaState (Unit {0}) → List ℕ × ℤ
summary (ok a t) = (pebs t.trace, t.eba_tbl 7)
  where
    pebs : List FlashOp → List ℕ
    pebs [] = []
    pebs (wrote_vid p h e ∷ ops) = p ∷ pebs ops
    pebs (wrote_data p b n e ∷ ops) = p ∷ pebs ops
    pebs (put p t e ∷ ops) = p ∷ pebs ops
    pebs (scrubbed p e ∷ ops) = p ∷ pebs ops
summary (err e t) = (e ∷ [], t.eba_tbl 7)
summary fault = ([], negsuc 0)

change_run :
    summary (ubi_eba_atomic_leb_change length 7 bytes start) ≡ (4 ∷ 6 ∷ 6 ∷ 5 ∷ 5 ∷ 5 ∷ [], pos 6)
unfolding ubi_eba_atomic_leb_change write_changed take_alloc next_sqnum get_peb act write_loop
    write_try write_peb release replace_old set_entry ◌>>=◌ bind
change_run = refl

ubi_eba_atomic_leb_change-Done_example :
    Post
      (Done (Describes length 3 7 bytes) bytes 7 start)
      (Ended (Describes length 3 7 bytes) bytes 7 start)
      (ubi_eba_atomic_leb_change length 7 bytes start)
ubi_eba_atomic_leb_change-Done_example = ubi_eba_atomic_leb_change-Done length 7 bytes start refl

write_retries-Silent_example :
    Silent
      (failing (5 ∷ 6 ∷ 8 ∷ 9 ∷ []) (record start { ro_mode = false; allocs = [] }))
      (ubi_eba_write_leb_st length 7 bytes 4 9)
    × Silent
        (failing (5 ∷ 6 ∷ 8 ∷ 9 ∷ []) (record start { ro_mode = false; allocs = [] }))
        (ubi_eba_atomic_leb_change length 7 bytes)
write_retries-Silent_example = write_retries-Silent length 7 bytes 5 6 8 9 start 4 9 refl

abbrev sealed : VidHdr
sealed = record {
  vol_type = 2;
  copy_flag = 0;
  compat = 0;
  vol_id = 3;
  lnum = 7;
  data_size = 4;
  used_ebs = 9;
  data_pad = 0;
  data_crc = 4;
  sqnum = 1;
}

abbrev after_read : Outcome EbaState (ℕ × List ℕ) → ℕ × List ℕ
after_read (ok r t) = r
after_read (err e t) = (e, [])
after_read fault = (0, [])

-- The first read has an ECC error, the second one none.
read_run :
    after_read (
      ubi_eba_read_leb length true 7 4 false (record start {
        answers = [];
        vids = (pos 0, sealed) ∷ [];
        reads = (negsuc 73, []) ∷ (pos 0, bytes) ∷ [];
      }))
    ≡ (0, bytes)
unfolding ubi_eba_read_leb take_alloc data_part read_data judge_read checked_read with_crc read_hdr
    judge_hdr end_read scrub_if act ◌>>=◌ bind
read_run = refl

ubi_eba_read_leb-Checked_example :
    Post
      (Checked length 4)
      Any
      (ubi_eba_read_leb length true 7 4 true (record start { vids = (pos 0, sealed) ∷ [] }))
    × Post (Checked length 4) Any (
        ubi_eba_read_leb length true 7 4 false (record start {
          vids = (pos 0, sealed) ∷ [];
          reads = (negsuc 73, []) ∷ (pos 0, bytes) ∷ [];
        }))
ubi_eba_read_leb-Checked_example =
    ubi_eba_read_leb-Checked length 7 4 4 (pos 0) sealed [] [] ((pos 0, bytes) ∷ []) start refl
