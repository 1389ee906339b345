-- ===== src/Uftl/Frame.antt =====
-- The writing of pages and the garbage collection of uftl_core.c leave the page buffers and the
-- geometry alone.
use android_infotm_confident.Prelude.{ℕ, zero, suc, ◌+◌, refl, Bool, List, ℤ, arith}
use android_infotm_confident.Outcome.{bind, pure, or_fault, check}
use android_infotm_confident.Outcome.Keeps.{
  Stays, Keeps, bind-Stays, Keeps-from, Keeps-bind, Keeps-skip, Keeps-when, Keeps-or_fault,
  keeps_rules,
}
use android_infotm_confident.Uftl.Types.{Ubi, Ftl, PageBuf, UftlInfo}
use android_infotm_confident.Uftl.Arrays.{
  get_page_state, set_page_state, get_sector_index, set_sector_index,
}
use android_infotm_confident.Uftl.Flash.{ftl_erase, ftl_write, read_tmp, note_sector, note_head}
use android_infotm_confident.Uftl.Pages.{
  put_empty_block, get_empty_block_num, get_new_page, using_page_of, add_block_using_page,
  del_block_using_page, clear_block_using_page, get_block_using_page_num,
}
use android_infotm_confident.Uftl.Gc.{
  finish_block, restamp_tmp, move_tmp, scrub_page, reset_block, scrub_block, pick_victim, gc_loop,
  garbage_checking,
}

module _ (U : Ubi) where
  abbrev pub core : Ftl U.Vol → UftlInfo × List PageBuf
  core s = (s.fip, s.page_buf_pool)

  pub get_page_state-Keeps : (b p : ℤ) → Keeps core (get_page_state U b p)
  unfolding get_page_state or_fault
  get_page_state-Keeps b p = record { at = λ s. ground arith }

  pub set_page_state-Keeps : (b p : ℤ) (v : ℕ) → Keeps core (set_page_state U b p v)
  unfolding set_page_state
  set_page_state-Keeps b p v = record { at = λ s. ground arith }

  pub get_sector_index-Keeps : (i : ℤ) → Keeps core (get_sector_index U i)
  unfolding get_sector_index or_fault
  get_sector_index-Keeps i = record { at = λ s. ground arith }

  pub set_sector_index-Keeps : (i v : ℤ) → Keeps core (set_sector_index U i v)
  unfolding set_sector_index
  set_sector_index-Keeps i v = record { at = λ s. ground arith }

  pub ftl_erase-Keeps : (b : ℤ) (unmap : Bool) → Keeps core (ftl_erase U b unmap)
  unfolding ftl_erase check
  ftl_erase-Keeps b unmap = record { at = λ s. ground arith }

  pub ftl_write-Keeps : (b p : ℤ) (buf : List ℕ) → Keeps core (ftl_write U b p buf)
  unfolding ftl_write check
  ftl_write-Keeps b p buf = record { at = λ s. ground arith }

  pub read_tmp-Keeps : (b p : ℤ) → Keeps core (read_tmp U b p)
  unfolding read_tmp bind check
  read_tmp-Keeps b p = record { at = λ s. ground arith }

  pub note_sector-Keeps : (p sector : ℤ) → Keeps core (note_sector U p sector)
  unfolding note_sector
  note_sector-Keeps p sector = record { at = λ s. ground arith }

  pub note_head-Keeps : Keeps core (note_head U)
  unfolding note_head
  note_head-Keeps = record { at = λ s. ground arith }

  pub put_empty_block-Keeps : (b : ℤ) → Keeps core (put_empty_block U b)
  unfolding put_empty_block
  put_empty_block-Keeps b = record { at = λ s. ground arith }

  pub get_empty_block_num-Keeps : Keeps core (get_empty_block_num U)
  unfolding get_empty_block_num
  get_empty_block_num-Keeps = record { at = λ s. refl }

  pub get_new_page-Keeps : Keeps core (get_new_page U)
  unfolding get_new_page bind
  get_new_page-Keeps = record { at = λ s. ground arith }

  pub using_page_of-Keeps : (b : ℤ) → Keeps core (using_page_of U b)
  unfolding using_page_of
  using_page_of-Keeps b = record { at = λ s. ground arith }

  pub add_block_using_page-Keeps : (b : ℤ) → Keeps core (add_block_using_page U b)
  unfolding add_block_using_page
  add_block_using_page-Keeps b = record { at = λ s. ground arith }

  pub del_block_using_page-Keeps : (b : ℤ) → Keeps core (del_block_using_page U b)
  unfolding del_block_using_page
  del_block_using_page-Keeps b = record { at = λ s. ground arith }

  pub clear_block_using_page-Keeps : (b : ℤ) → Keeps core (clear_block_using_page U b)
  unfolding clear_block_using_page
  clear_block_using_page-Keeps b = record { at = λ s. ground arith }

  pub get_block_using_page_num-Keeps : (b : ℤ) → Keeps core (get_block_using_page_num U b)
  unfolding get_block_using_page_num get_page_state bind or_fault pure
  get_block_using_page_num-Keeps b = record { at = λ s. ground arith }

  pub restamp_tmp-Keeps : Keeps core (restamp_tmp U)
  unfolding restamp_tmp
  restamp_tmp-Keeps = record { at = λ s. refl }

module _ {U : Ubi} where
  pub ruleset page_keeps = (
    keeps_rules, get_page_state-Keeps, set_page_state-Keeps, get_sector_index-Keeps,
    set_sector_index-Keeps, ftl_erase-Keeps, ftl_write-Keeps, read_tmp-Keeps, note_sector-Keeps,
    note_head-Keeps, put_empty_block-Keeps, get_empty_block_num-Keeps, get_new_page-Keeps,
    using_page_of-Keeps, add_block_using_page-Keeps, del_block_using_page-Keeps,
    clear_block_using_page-Keeps, get_block_using_page_num-Keeps, restamp_tmp-Keeps,
  )

module _ (U : Ubi) where
  pub finish_block-Keeps : (b p : ℤ) → Keeps (core U) (finish_block U b p)
  unfolding finish_block
  finish_block-Keeps b p = search page_keeps depth 20

  pub move_tmp-Keeps : Keeps (core U) (move_tmp U)
  unfolding move_tmp
  move_tmp-Keeps = search (page_keeps, finish_block-Keeps) depth 20

  pub scrub_page-Keeps : (b : ℤ) (p : ℕ) → Keeps (core U) (scrub_page U b p)
  unfolding scrub_page
  scrub_page-Keeps b p = search (page_keeps, move_tmp-Keeps) depth 20

  pub reset_block-Keeps : (b : ℤ) → Keeps (core U) (reset_block U b)
  unfolding reset_block
  reset_block-Keeps b = search page_keeps depth 20

  pub scrub_block-Keeps : (b : ℤ) → Keeps (core U) (scrub_block U b)
  unfolding scrub_block
  scrub_block-Keeps b = search (page_keeps, scrub_page-Keeps, reset_block-Keeps) depth 20

  pub pick_victim-Keeps : (n b : ℕ) (least gc : ℤ) → Keeps (core U) (pick_victim U n b least gc)
  unfolding pick_victim
  pick_victim-Keeps zero b least gc = search page_keeps
  pick_victim-Keeps (suc n) b least gc = search (page_keeps, pick_victim-Keeps n (b + 1)) depth 20

  pub gc_loop-Keeps : (fuel low : ℕ) → Keeps (core U) (gc_loop U fuel low)
  unfolding gc_loop
  gc_loop-Keeps zero low = search page_keeps
  gc_loop-Keeps (suc fuel) low = Keeps-bind _ _ (search page_keeps) λ n. Keeps-when _ _ (
      Keeps-bind _ _ (search page_keeps) λ s. Keeps-bind _ _ (search (pick_victim-Keeps)) λ v.
        Keeps-bind _ _ (search page_keeps)
          λ _. Keeps-bind _ _ (scrub_block-Keeps v) λ _. gc_loop-Keeps fuel low)

  pub garbage_checking-Keeps : (low : ℕ) → Keeps (core U) (garbage_checking U low)
  unfolding garbage_checking
  garbage_checking-Keeps low = search (page_keeps, gc_loop-Keeps) depth 20
