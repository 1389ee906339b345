-- ===== src/Ubi/Upd.antt =====
-- modules/ubi/upd.c: the update of a whole volume.
pub mod Marker
pub mod Start
pub mod Feed
pub mod Received
pub mod Chunks
pub mod Whole
pub mod Live
use android_infotm_confident.Prelude.{
  ℕ, zero, suc, ◌+◌, ◌-◌, ◌*◌, ◌/◌, ◌%◌, Bool, true, false, not, ◌||◌, ◌==◌, ltb, if◌then◌else◌,
  List, [], ◌∷◌, length, take, drop, replicate, overwrite, slice,
}
use android_infotm_confident.Outcome.{
  M, ok, err, ◌>>=◌, ◌>>◌, get_state, skip, when, fail, check, for_range,
}
use android_infotm_confident.Ubi.Misc.{align, ubi_calc_data_len}

-- What the update asks of eba.c, wl.c and vtbl.c, over the states of the device: an error number,
-- 0 for success. `set_vtbl_marker` is ubi_change_vtbl_record with the record's marker changed.
pub record Eba : Type 1 where
  pub Dev : Type 0
  pub unmap_leb : Dev → ℕ → Dev × ℕ
  pub eba_write_leb : Dev → ℕ → List ℕ → Dev × ℕ
  pub eba_write_leb_st : Dev → ℕ → List ℕ → ℕ → Dev × ℕ
  pub atomic_leb_change : Dev → ℕ → List ℕ → Dev × ℕ
  pub wl_flush : Dev → Dev × ℕ
  pub set_vtbl_marker : Dev → Bool → Dev × ℕ

-- The fields of `struct ubi_volume` and `struct ubi_device` that an update uses. `copies` are the
-- outcomes of the coming copies from the user, and `allocs` those of vmalloc: success when empty.
pub record UpdVolume (D : Type 0) : Type 0 where
  pub is_static : Bool
  pub usable_leb_size : ℕ
  pub leb_size : ℕ
  pub min_io_size : ℕ
  pub reserved_pebs : ℕ
  pub ro_mode : Bool
  pub upd_marker : Bool
  pub updating : Bool
  pub changing_leb : Bool
  pub corrupted : Bool
  pub used_bytes : ℕ
  pub used_ebs : ℕ
  pub last_eb_bytes : ℕ
  pub upd_ebs : ℕ
  pub upd_bytes : ℕ
  pub upd_received : ℕ
  pub ch_lnum : ℕ
  pub upd_buf : List ℕ
  pub allocs : List Bool
  pub copies : List Bool
  pub page_size : ℕ
  pub junk : ℕ
  pub dev : D

abbrev pub efault : ℕ
efault = 14

abbrev pub enomem : ℕ
enomem = 12

abbrev pub erofs : ℕ
erofs = 30

module _ (E : Eba) where
  abbrev pub UpdAct : Type 0 → Type 0
  UpdAct A = M (UpdVolume E.Dev) A

  -- A call of the device.
  unfoldable pub call : (E.Dev → E.Dev × ℕ) → UpdAct (Unit {0})
  unfolding check
  call f s = let (d, e) = f s.dev in check e (record s { dev = d })

  -- The marker of the volume is set also where the change of the table fails.
  unfoldable pub mark_volume : Bool → (E.Dev → E.Dev × ℕ) → UpdAct (Unit {0})
  unfolding check
  mark_volume b f s = let (d, e) = f s.dev in check e (record s { dev = d; upd_marker = b })

  unfoldable pub set_update_marker : UpdAct (Unit {0})
  unfolding mark_volume skip
  set_update_marker s =
      if s.upd_marker then skip s else mark_volume true (λ d. E.set_vtbl_marker d true) s

  -- The sizes of a static volume of `bytes` bytes.
  unfoldable pub static_sizes : ℕ → UpdVolume E.Dev → UpdVolume E.Dev
  static_sizes bytes s =
      let ebs = bytes / s.usable_leb_size in
      let last = bytes % s.usable_leb_size in
      record s {
        corrupted = false;
        used_bytes = bytes;
        used_ebs = if last == 0 then ebs else ebs + 1;
        last_eb_bytes = if last == 0 then s.usable_leb_size else last;
      }

  unfoldable pub clear_update_marker : ℕ → UpdAct (Unit {0})
  unfolding static_sizes mark_volume
  clear_update_marker bytes s =
      mark_volume false (λ d. E.set_vtbl_marker d false)
        (if s.is_static then static_sizes bytes s else s)

  -- One vmalloc of `n` bytes for the update's buffer, which gives whole pages.
  unfoldable pub alloc_buf : ℕ → UpdAct (Unit {0})
  alloc_buf n s = elim s.allocs [
    | [] ↦ ok tt (record s { upd_buf = replicate (align n s.page_size) s.junk })
    | true ∷ rest ↦
        ok tt (record s { upd_buf = replicate (align n s.page_size) s.junk; allocs = rest })
    | false ∷ rest ↦ err enomem (record s { allocs = rest })
  ]

  unfoldable pub set_updating : Bool → UpdAct (Unit {0})
  set_updating b s = ok tt (record s { updating = b })

  unfoldable pub set_target : ℕ → UpdAct (Unit {0})
  set_target bytes s = ok tt (record s {
    upd_ebs = (bytes + s.usable_leb_size - 1) / s.usable_leb_size;
    upd_bytes = bytes;
    upd_received = 0;
  })

  -- The volume is marked before it is wiped; an update to no bytes is finished at once.
  unfoldable pub ubi_start_update : ℕ → UpdAct (Unit {0})
  ubi_start_update bytes = do
    set_updating true
    set_update_marker
    s ← get_state
    for_range 0 s.reserved_pebs (λ i. call (λ d. E.unmap_leb d i))
    if bytes == 0
        then (do call E.wl_flush; clear_update_marker 0; set_updating false)
        else (do alloc_buf s.leb_size; set_target bytes)

  -- memset of `n` bytes at an offset of the buffer.
  unfoldable pub fill_buf : ℕ → ℕ → ℕ → UpdAct (Unit {0})
  fill_buf off n byte s = ok tt (record s { upd_buf = overwrite s.upd_buf off (replicate n byte) })

  -- A dynamic volume: 0xFF up to a whole write, and none of the 0xFF at the end are written.
  unfoldable pub write_dynamic : ℕ → ℕ → UpdAct (Unit {0})
  unfolding fill_buf call
  write_dynamic lnum len = do
    s ← get_state
    let l = align len s.min_io_size
    fill_buf len (l - len) 255
    t ← get_state
    let data_len = ubi_calc_data_len t.min_io_size t.upd_buf l
    when (not (data_len == 0)) (call (λ d. E.eba_write_leb d lnum (take data_len t.upd_buf)))

  -- A static volume: zeros to the end of the eraseblock, and the exact length.
  unfoldable pub write_static : ℕ → ℕ → UpdAct (Unit {0})
  unfolding fill_buf call
  write_static lnum len = do
    s ← get_state
    fill_buf len (s.usable_leb_size - len) 0
    t ← get_state
    call (λ d. E.eba_write_leb_st d lnum (take len t.upd_buf) t.upd_ebs)

  unfoldable pub write_leb : ℕ → ℕ → UpdAct (Unit {0})
  unfolding write_dynamic write_static
  write_leb lnum len s = if s.is_static then write_static lnum len s else write_dynamic lnum len s

  -- copy_from_user to an offset of the buffer.
  unfoldable pub copy_in : ℕ → List ℕ → UpdAct (Unit {0})
  copy_in offs bytes s = elim s.copies [
    | [] ↦ ok tt (record s { upd_buf = overwrite s.upd_buf offs bytes })
    | true ∷ rest ↦ ok tt (record s { upd_buf = overwrite s.upd_buf offs bytes; copies = rest })
    | false ∷ rest ↦ err efault (record s { copies = rest })
  ]

  unfoldable pub receive : ℕ → UpdAct (Unit {0})
  receive n s = ok tt (record s { upd_received = s.upd_received + n })

  -- Bytes for one eraseblock go to the buffer, which is written once it holds the whole of the
  -- eraseblock or the last byte of the update.
  unfoldable pub take_piece : ℕ → ℕ → List ℕ → UpdAct (Unit {0})
  unfolding copy_in write_leb receive
  take_piece lnum offs piece = do
    copy_in offs piece
    s ← get_state
    let len = length piece
    when (offs + len == s.usable_leb_size || s.upd_received + len == s.upd_bytes)
        (write_leb lnum (offs + len))
    receive len

  -- The `while` loop, on fuel. A `break` on an error ends the call: a piece that has failed is not
  -- counted, so that less than all bytes have been received.
  unfoldable pub pieces_loop : ℕ → ℕ → List ℕ → UpdAct (Unit {0})
  unfolding skip
  pieces_loop zero lnum bytes s = skip s
  pieces_loop (suc fuel) lnum bytes s = elim (length bytes == 0) [
    | true ↦ skip s
    | false ↦
        (take_piece lnum 0 (take s.usable_leb_size bytes)
            >> pieces_loop fuel (lnum + 1) (drop s.usable_leb_size bytes))
          s
  ]

  -- The piece that completes an eraseblock begun before.
  unfoldable pub first_piece : ℕ → ℕ → List ℕ → UpdAct (Unit {0})
  first_piece lnum offs bytes = do
    s ← get_state
    take_piece lnum offs (take (s.usable_leb_size - offs) bytes)
    pieces_loop (length bytes) (lnum + 1) (drop (s.usable_leb_size - offs) bytes)

  -- The end of an update, once all bytes have been received; the result is the bytes taken.
  unfoldable pub finish : ℕ → UpdAct ℕ
  unfolding call clear_update_marker
  finish to_write = do
    s ← get_state
    if s.upd_received == s.upd_bytes
        then (do
          call E.wl_flush
          clear_update_marker s.upd_bytes
          (λ t. ok to_write (record t { updating = false; upd_buf = [] })))
        else (λ t. ok 0 t)

  -- The bytes of a call that the update still takes.
  unfoldable pub accepted : List ℕ → UpdVolume E.Dev → List ℕ
  accepted bytes s =
      if ltb s.upd_bytes (s.upd_received + length bytes)
      then take (s.upd_bytes - s.upd_received) bytes
      else bytes

  unfoldable pub take_bytes : List ℕ → UpdAct (Unit {0})
  unfolding first_piece pieces_loop
  take_bytes bytes s =
      let lnum = s.upd_received / s.usable_leb_size in
      let offs = s.upd_received % s.usable_leb_size in
      if offs == 0 then pieces_loop (length bytes) lnum bytes s else first_piece lnum offs bytes s

  unfoldable pub ubi_more_update_data : List ℕ → UpdAct ℕ
  unfolding accepted take_bytes finish fail
  ubi_more_update_data bytes s =
      let taken = accepted bytes s in
      if s.ro_mode then fail erofs s else (take_bytes taken >> finish (length taken)) s
