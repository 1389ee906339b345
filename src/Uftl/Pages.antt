-- ===== src/Uftl/Pages.antt =====
-- uftl_core.c: which page is written next, which blocks are empty, how many pages of a block are
-- in use.
use android_infotm_confident.Prelude.{
  ℕ, ◌==◌, if◌then◌else◌, [], ◌∷◌, ◌++◌, none, some, ℤ, pos, negsuc, ◌+ℤ◌, ◌*ℤ◌, eq_ℤ, length, ltb,
}
use android_infotm_confident.Outcome.{Outcome, ok, fault, bind, pure}
use android_infotm_confident.Uftl.Types.{Ubi, Ftl, Act, page_empty}
use android_infotm_confident.Uftl.Arrays.{elem_at, set_at, get_page_state}

module _ (U : Ubi) where
  -- The block, or -1 if there is none.
  unfoldable pub get_first_empty_block : Act U ℤ
  get_first_empty_block s = elim s.empty_block_fifo [
    | [] ↦ ok (negsuc 0) s
    | block ∷ rest ↦ ok block (record s { empty_block_fifo = rest })
  ]

  -- `kfifo_in`: what does not fit is dropped.
  unfoldable pub put_empty_block : ℤ → Act U (Unit {0})
  put_empty_block block s = ok tt (
      if ltb (length s.empty_block_fifo) s.fifo_cap
      then record s { empty_block_fifo = s.empty_block_fifo ++ block ∷ [] }
      else s)

  unfoldable pub get_empty_block_num : Act U ℕ
  get_empty_block_num s = ok (length s.empty_block_fifo) s

  -- The index of the next page to write.
  unfoldable pub get_new_page : Act U ℤ
  unfolding get_first_empty_block
  get_new_page s =
      let page = s.cur_offset.page +ℤ pos 1 in
      if eq_ℤ page (pos s.fip.ftl_page_num)
      then bind (get_first_empty_block s) (λ block t.
        ok (block *ℤ pos t.fip.ftl_page_num +ℤ pos 0) (record t {
          cur_offset = record { block = block; page = pos 0 };
          block_id = t.block_id +ℤ pos 1;
        }))
      else ok (s.cur_offset.block *ℤ pos s.fip.ftl_page_num +ℤ page)
          (record s { cur_offset = record (s.cur_offset) { page = page } })

  -- `block_state_index[block].using_page`, read and changed.
  unfoldable pub using_page_of : ℤ → Act U ℤ
  using_page_of block s = elim (elem_at s.block_state_index block) [
    | none ↦ fault
    | some b ↦ ok b.using_page s
  ]

  change_block_using_page : ℤ → (ℤ → ℤ) → Act U (Unit {0})
  change_block_using_page block f s = elim (elem_at s.block_state_index block) [
    | none ↦ fault
    | some b ↦ ok tt (record s {
      block_state_index =
          set_at s.block_state_index block (record b { using_page = f b.using_page });
    })
  ]

  unfoldable pub add_block_using_page : ℤ → Act U (Unit {0})
  unfolding change_block_using_page
  add_block_using_page block = change_block_using_page block (λ n. n +ℤ pos 1)

  unfoldable pub del_block_using_page : ℤ → Act U (Unit {0})
  unfolding change_block_using_page
  del_block_using_page block = change_block_using_page block (λ n. n +ℤ negsuc 0)

  unfoldable pub clear_block_using_page : ℤ → Act U (Unit {0})
  unfolding change_block_using_page
  clear_block_using_page block = change_block_using_page block (λ n. pos 0)

  -- The pages in use, or the most there can be if the block still has an empty page.
  unfoldable pub get_block_using_page_num : ℤ → Act U ℤ
  unfolding using_page_of
  get_block_using_page_num block s =
      let full = pos s.fip.ftl_page_num in
      let rest : Outcome (Ftl U.Vol) ℤ =
        bind (get_page_state U block (pos 0) s)
          λ first. if first == page_empty then pure full else using_page_of block in
      if eq_ℤ block s.cur_offset.block
      then bind (get_page_state U block (pos s.fip.ftl_page_num +ℤ negsuc 0) s)
          (λ last t. if last == page_empty then ok full t else rest)
      else rest
