-- ===== src/Ubi/Eba/Read.antt =====
-- modules/ubi/eba.c: ubi_eba_read_leb. An action that succeeds gives the value returned, which is not
-- negative, and the buffer; what an error leaves in the buffer is not kept.
pub mod Checked
use android_infotm_confident.Prelude.{
  ℕ, zero, suc, ◌+◌, ◌≡◌, refl, Bool, true, false, not, ◌&&◌, ◌||◌, ◌==◌, if◌then◌else◌, Option,
  none, some, List, [], ◌∷◌, ℤ, pos, negsuc, eq_ℤ, replicate, Bool-cases, inl, inr, arith,
}
use android_infotm_confident.Outcome.{ok, err, bind, ◌>>=◌, ◌>>◌, get_state, fail, pure, check}
use android_infotm_confident.Outcome.Post.{Post, bind-Post, Post-if, check-Post}
use android_infotm_confident.Ubi.Misc.{ebadmsg}
use android_infotm_confident.Ubi.Scan.Types.{
  VidHdr, io_bitflips, io_bad_hdr, io_bad_hdr_ebadmsg, enomem,
}
use android_infotm_confident.Ubi.Eba.Write.{
  EbaState, WriteAct, scrubbed, take_alloc, act, ubi_ro_mode,
}
use android_infotm_confident.Ubi.Eba.Write.Change.{read_hdr, read_data, zero_hdr}

abbrev pub ReadAct : Type 0
ReadAct = WriteAct (ℕ × List ℕ)

-- What is made of the header. `after` gets the checksum, and whether there were bit-flips.
unfoldable pub judge_hdr : (ℕ → Bool → ReadAct) → ℤ → VidHdr → ReadAct
unfolding ubi_ro_mode
judge_hdr after (negsuc e) h = fail (e + 1)
judge_hdr after (pos n) h =
    if n == 0 || eq_ℤ (pos n) io_bitflips
    then after h.data_crc (eq_ℤ (pos n) io_bitflips)
    else if eq_ℤ (pos n) io_bad_hdr_ebadmsg || eq_ℤ (pos n) io_bad_hdr
    then fail ebadmsg
    else (do ubi_ro_mode; pure (n, []))

-- The part under `if (check)`.
unfoldable pub with_crc : (ℕ → Bool → ReadAct) → ReadAct
unfolding take_alloc read_hdr judge_hdr
with_crc after = do take_alloc; r ← read_hdr zero_hdr; judge_hdr after (r.0) (r.1)

unfoldable pub scrub_if : ℕ → Bool → List ℕ → ReadAct
unfolding act
scrub_if pnum false buf = pure (0, buf)
scrub_if pnum true buf = do e ← act (scrubbed pnum); check e; pure (0, buf)

module _ (crc32 : List ℕ → ℕ) (is_static : Bool) where
  -- Behind the read: the checksum, where it is known, and the scrubbing.
  unfoldable pub end_read : ℕ → Option ℕ → Bool → List ℕ → ReadAct
  unfolding scrub_if
  end_read pnum none scrub buf = scrub_if pnum scrub buf
  end_read pnum (some crc) scrub buf =
      if crc32 buf == crc then scrub_if pnum scrub buf else fail ebadmsg

  -- What is made of the data, with its checksum where it is to be checked. `forced` is the retry.
  unfoldable pub judge_read : ℕ → Option ℕ → Bool → ReadAct → ℤ → List ℕ → ReadAct
  unfolding end_read
  judge_read pnum crc scrub forced (pos n) buf =
      if n == 0
      then end_read pnum crc scrub buf
      else if eq_ℤ (pos n) io_bitflips
      then end_read pnum crc true buf
      else pure (n, buf)
  judge_read pnum crc scrub forced (negsuc e) buf =
      if e + 1 == ebadmsg && is_static
      then elim crc [ some c ↦ end_read pnum (some c) true buf | none ↦ forced ]
      else fail (e + 1)

  unfoldable pub data_part : ℕ → Option ℕ → Bool → ReadAct → ReadAct
  unfolding read_data judge_read
  data_part pnum crc scrub forced = do r ← read_data; judge_read pnum crc scrub forced (r.0) (r.1)

  -- From retry on with `check` set.
  unfoldable pub checked_read : ℕ → Bool → ReadAct
  unfolding with_crc data_part
  checked_read pnum scrub =
      with_crc λ crc flips. data_part pnum (some crc) (scrub || flips) (fail ebadmsg)

  unfoldable pub ubi_eba_read_leb : ℕ → ℕ → Bool → ReadAct
  unfolding take_alloc data_part checked_read
  ubi_eba_read_leb lnum len check_crc = do
    take_alloc
    s ← get_state
    elim (s.eba_tbl lnum) [
      | negsuc n ↦ pure (0, replicate len 255)
      | pos pnum ↦
          if check_crc && is_static
          then checked_read pnum false
          else data_part pnum none false (checked_read pnum true)
    ]
