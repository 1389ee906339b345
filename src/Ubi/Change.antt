-- ===== src/Ubi/Change.antt =====
-- modules/ubi/upd.c: the atomic change of one eraseblock.
pub mod Overrun
use android_infotm_confident.Prelude.{
  ℕ, ◌+◌, ◌-◌, Bool, true, false, ltb, ◌==◌, if◌then◌else◌, List, [], length, take,
}
use android_infotm_confident.Outcome.{M, ok, ◌>>=◌, ◌>>◌, get_state, fail, when, crash}
use android_infotm_confident.Ubi.Misc.{align, ubi_calc_data_len}
use android_infotm_confident.Ubi.Upd.{
  Eba, UpdVolume, UpdAct, erofs, call, alloc_buf, fill_buf, copy_in, receive, accepted,
}

module _ (E : Eba) where
  unfoldable pub set_change : ℕ → ℕ → UpdAct E (Unit {0})
  set_change lnum bytes s =
      ok tt (record s { upd_bytes = bytes; upd_received = 0; changing_leb = true; ch_lnum = lnum })

  -- The change of one eraseblock to no bytes is made at once.
  unfoldable pub ubi_start_leb_change : ℕ → ℕ → UpdAct E (Unit {0})
  unfolding set_change alloc_buf call
  ubi_start_leb_change lnum bytes =
      if bytes == 0
      then call E (λ d. E.atomic_leb_change d lnum [])
      else set_change lnum bytes >> alloc_buf E bytes

  unfoldable pub end_change : ℕ → UpdAct E ℕ
  end_change n s = ok n (record s { changing_leb = false; upd_buf = [] })

  -- All bytes are there: they are padded to a whole write, and change the eraseblock. A write of
  -- the padding past the end of the buffer is a fault.
  unfoldable pub commit_change : ℕ → UpdAct E ℕ
  unfolding fill_buf call end_change
  commit_change count = do
    s ← get_state
    let len = align s.upd_bytes s.min_io_size
    when (ltb (length s.upd_buf) len) crash
    fill_buf E s.upd_bytes (len - s.upd_bytes) 255
    t ← get_state
    let data_len = ubi_calc_data_len t.min_io_size t.upd_buf len
    call E (λ d. E.atomic_leb_change d t.ch_lnum (take data_len t.upd_buf))
    end_change count

  unfoldable pub more_change : List ℕ → UpdAct E ℕ
  unfolding copy_in receive commit_change
  more_change bytes = do
    s ← get_state
    copy_in E s.upd_received bytes
    receive E (length bytes)
    t ← get_state
    if t.upd_received == t.upd_bytes then commit_change (length bytes) else (λ u. ok 0 u)

  unfoldable pub ubi_more_leb_change_data : List ℕ → UpdAct E ℕ
  unfolding accepted more_change fail
  ubi_more_leb_change_data bytes s =
      if s.ro_mode then fail erofs s else more_change (accepted E bytes s) s
