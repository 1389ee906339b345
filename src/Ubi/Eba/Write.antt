-- ===== src/Ubi/Eba/Write.antt =====
-- modules/ubi/eba.c: unmapping, writing and the atomic change of a logical eraseblock, with their
-- retries on other physical eraseblocks.
pub mod Atomic
pub mod Change
pub mod Guard
pub mod Silent
mod Tests
use android_infotm_confident.Prelude.{
  ℕ, zero, suc, ◌+◌, ◌-◌, ◌*◌, ◌/◌, ◌≡◌, Bool, true, false, not, ◌&&◌, ◌||◌, ◌==◌, ltb,
  if◌then◌else◌, Option, none, some, List, [], ◌∷◌, ◌++◌, length, take, ℤ, pos, negsuc, ltb_ℤ, eq_ℤ,
}
use android_infotm_confident.Outcome.{
  M, ok, err, ◌>>=◌, ◌>>◌, get_state, skip, when, fail, pure, check,
}
use android_infotm_confident.Ubi.Misc.{align}
use android_infotm_confident.Ubi.Scan.Types.{
  VidHdr, layout_volume_id, compat_reject, vid_dynamic, vid_static, enomem, eio, io_bitflips,
}
use android_infotm_confident.Ubi.Eba.{leb_unmapped, enospc}

abbrev pub io_retries : ℕ
io_retries = 3

abbrev pub erofs : ℕ
erofs = 30

-- What is done to the flash, with the error number that it gives, 0 for success. `put` hands an
-- eraseblock over to be erased, `torture` if it is to be tested.
pub data FlashOp : Type 0 where
  wrote_vid : ℕ → VidHdr → ℕ → FlashOp
  wrote_data : ℕ → List ℕ → ℕ → ℕ → FlashOp
  put : ℕ → Bool → ℕ → FlashOp
  scrubbed : ℕ → ℕ → FlashOp

-- The fields of the device and of the volume that are used; the table as a function, since callers
-- keep `lnum` below its size. `gets` are the coming answers of ubi_wl_get_peb (-ENOSPC when empty),
-- `answers` the coming error numbers of writes and puts (0 when empty), `vids` and `reads` what the
-- coming reads of headers and data give, `allocs` the outcomes of allocations, those of a lock too.
-- `trace` lists what has been done, the latest first.
pub record EbaState : Type 0 where
  pub vol_id : ℕ
  pub data_pad : ℕ
  pub min_io_size : ℕ
  pub ro_mode : Bool
  pub bad_allowed : Bool
  pub global_sqnum : ℕ
  pub eba_tbl : ℕ → ℤ
  pub gets : List ℤ
  pub answers : List ℕ
  pub vids : List (ℤ × VidHdr)
  pub reads : List (ℤ × List ℕ)
  pub allocs : List Bool
  pub trace : List FlashOp

abbrev pub WriteAct : Type 0 → Type 0
WriteAct A = M EbaState A

-- An allocation, or a lock, whose entry is allocated.
unfoldable pub take_alloc : WriteAct (Unit {0})
take_alloc s = elim s.allocs [
  | [] ↦ ok tt s
  | true ∷ rest ↦ ok tt (record s { allocs = rest })
  | false ∷ rest ↦ err enomem (record s { allocs = rest })
]

unfoldable pub next_sqnum : WriteAct ℕ
next_sqnum s = ok s.global_sqnum (record s { global_sqnum = s.global_sqnum + 1 })

unfoldable pub ubi_ro_mode : WriteAct (Unit {0})
ubi_ro_mode s = ok tt (record s { ro_mode = true })

unfoldable pub ubi_get_compat : ℕ → ℕ
ubi_get_compat vol_id = if vol_id == layout_volume_id then compat_reject else 0

unfoldable pub get_peb : WriteAct ℕ
get_peb s = elim s.gets [
  | [] ↦ err enospc s
  | pos p ∷ rest ↦ ok p (record s { gets = rest })
  | negsuc e ∷ rest ↦ err (e + 1) (record s { gets = rest })
]

-- Something is done to the flash; its error number is the result.
unfoldable pub act : (ℕ → FlashOp) → WriteAct ℕ
act op s = elim s.answers [
  | [] ↦ ok 0 (record s { trace = op 0 ∷ s.trace })
  | e ∷ rest ↦ ok e (record s { trace = op e ∷ s.trace; answers = rest })
]

unfoldable pub set_entry : ℕ → ℤ → WriteAct (Unit {0})
set_entry lnum p s = ok tt (record s { eba_tbl = λ l. if l == lnum then p else s.eba_tbl l })

-- The header, and then the data at an offset, where there is any.
unfoldable pub write_peb : ℕ → VidHdr → Option (List ℕ) → ℕ → WriteAct ℕ
unfolding act
write_peb pnum h none offset = act (wrote_vid pnum h)
write_peb pnum h (some buf) offset = do
  e ← act (wrote_vid pnum h)
  if e == 0 then act (wrote_data pnum buf offset) else pure e

-- The end of a write to a LEB that was not mapped.
unfoldable pub map_new : ℕ → ℕ → WriteAct (Unit {0})
unfolding set_entry
map_new lnum pnum = set_entry lnum (pos pnum)

-- The eraseblock that a LEB is on is put, if it is on one.
unfoldable pub release : ℤ → WriteAct (Unit {0})
unfolding act
release (negsuc n) = skip
release (pos old) = do e ← act (put old false); check e

-- The end of an atomic change: the old eraseblock is put, and the new one takes its place.
unfoldable pub replace_old : ℕ → ℕ → WriteAct (Unit {0})
unfolding release set_entry
replace_old lnum pnum = do s ← get_state; release (s.eba_tbl lnum); set_entry lnum (pos pnum)

-- write_error: a failure goes back as it is, or the eraseblock is put and another one is tried.
-- After the last try the result of putting it is returned.
unfoldable pub give_up : ℕ → WriteAct (Unit {0})
unfolding ubi_ro_mode
give_up e = do ubi_ro_mode; check e

abbrev pub next_hdr : VidHdr → ℕ → VidHdr
next_hdr h sqnum = record h { sqnum = sqnum }

-- One try. `finish` is what follows a write that succeeds, and `after` what follows the call of
-- ubi_wl_put_peb after a failed one, from its result on.
unfoldable pub write_try :
    VidHdr
    → Option (List ℕ)
    → ℕ
    → (ℕ → WriteAct (Unit {0}))
    → (ℕ → WriteAct (Unit {0}))
    → WriteAct (Unit {0})
unfolding get_peb write_peb give_up act
write_try h buf offset finish after = do
  pnum ← get_peb
  e ← write_peb pnum h buf offset
  s ← get_state
  if e == 0
      then finish pnum
      else if not (e == eio) || not s.bad_allowed
      then give_up e
      else (do f ← act (put pnum true); after f)

-- retry: with `left` more tries.
unfoldable pub write_loop :
    ℕ → VidHdr → Option (List ℕ) → ℕ → (ℕ → WriteAct (Unit {0})) → WriteAct (Unit {0})
unfolding write_try give_up next_sqnum
write_loop zero h buf offset finish = write_try h buf offset finish give_up
write_loop (suc left) h buf offset finish =
    let again = λ (n : ℕ). write_loop left (next_hdr h n) buf offset finish in
    write_try h buf offset finish
      (λ f. if not (f == 0) then give_up f else (do n ← next_sqnum; again n))

unfoldable pub ubi_eba_unmap_leb : ℕ → WriteAct (Unit {0})
unfolding take_alloc act set_entry
ubi_eba_unmap_leb lnum = do
  s ← get_state
  if s.ro_mode then fail erofs else (do
    take_alloc
    elim (s.eba_tbl lnum) [
      | negsuc n ↦ skip
      | pos pnum ↦ (do set_entry lnum leb_unmapped; e ← act (put pnum false); check e)
    ])
