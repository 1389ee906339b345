-- ===== src/Uftl/Buffers.antt =====
-- sync_one_buf and flush_one_buf touch no page buffer but the one they write out, which they
-- leave free, and change the size of none.
use android_infotm_confident.Prelude.{
  ℕ, zero, suc, ◌+◌, ◌≡◌, refl, ap, ◌∙◌, false, List, [], ◌∷◌, map, some, get_elem?, set, length,
  length-overwrite, ℤ, arith, Option-cases, Bool-cases, inl, inr,
}
use android_infotm_confident.Outcome.{Outcome}
use android_infotm_confident.Outcome.Keeps.{
  Stays, Keeps, Keeps-ap, Keeps-bind, Keeps-get_state, keeps_rules,
}
use android_infotm_confident.Uftl.Types.{Ubi, Ftl, PageBuf, UftlInfo, ftl_nomap}
use android_infotm_confident.Uftl.Flash.{read_tmp}
use android_infotm_confident.Uftl.Arrays.{get_sector_index}
use android_infotm_confident.Uftl.Pages.{get_new_page}
use android_infotm_confident.Uftl.Sync.{
  test_bit, merge_sectors, get_buf, modify_buf, merge_page, merge_from, merge_buf, stamp_page,
  stamp_buf, retire, set_check_count, count_check, free_page, release_buf, write_out, sync_one_buf,
  publish,
}
use android_infotm_confident.Uftl.Frame.{
  core, page_keeps, read_tmp-Keeps, get_sector_index-Keeps, get_new_page-Keeps, finish_block-Keeps,
  scrub_block-Keeps, garbage_checking-Keeps,
}

length-merge_sectors :
    (n i state : ℕ) (page dst : List ℕ) → length (merge_sectors n i state page dst) ≡ length dst
unfolding merge_sectors
length-merge_sectors zero i state page dst = refl
length-merge_sectors (suc n) i state page dst = elim (Bool-cases (test_bit state i)) [
  | inl h ↦ rw h (length-merge_sectors n (i + 1) state page dst)
  | inr h ↦ rw h (length-merge_sectors n (i + 1) state page _ ∙ length-overwrite dst _ _)
]

-- What shows of a buffer but for its contents: its size.
abbrev pub size_of : PageBuf → ℕ
size_of b = length b.data_buf

abbrev pub blank : PageBuf
blank = record { sector = ftl_nomap; read = false; data_buf = []; sector_state = 0; jiffies = 0 }

pub set-set {ℓ} : {A : Type ℓ} (xs : List A) (i : ℕ) (a b : A) → set (set xs i a) i b ≡ set xs i b
set-set [] i a b = refl
set-set (x ∷ xs) zero a b = refl
set-set (x ∷ xs) (suc i) a b = ap (◌∷◌ x) (set-set xs i a b)

pub map-set_same {ℓ κ} :
    {A : Type ℓ} {B : Type κ} (g : A → B) (xs : List A) (i : ℕ) (a b : A)
    → get_elem? xs i ≡ some a
    → g b ≡ g a
    → map g (set xs i b) ≡ map g xs
map-set_same g [] i a b h e = refl
map-set_same g (x ∷ xs) zero a b h e = ground arith
map-set_same g (x ∷ xs) (suc i) a b h e = ap (◌∷◌ (g x)) (map-set_same g xs i a b h e)

module _ (U : Ubi) (buf_pos : ℕ) where
  abbrev hide : UftlInfo × List PageBuf → UftlInfo × List ℕ × List PageBuf
  hide (fip, pool) = (fip, map size_of pool, set pool buf_pos blank)

  -- The geometry, the sizes of the buffers, and all of them but the one at `buf_pos`.
  abbrev pub others : Ftl U.Vol → UftlInfo × List ℕ × List PageBuf
  others s = hide (core U s)

  modify_buf-Stays :
      (f : PageBuf → PageBuf)
      → ((b : PageBuf) → size_of (f b) ≡ size_of b)
      → (s : Ftl U.Vol) → Stays others (others s) (modify_buf U buf_pos f s)
  unfolding modify_buf
  modify_buf-Stays f h s = elim (Option-cases (get_elem? s.page_buf_pool buf_pos)) [
    | inl e ↦ rw (e, modify_buf, Stays) tt
    | inr (b, e) ↦
        rw (e, modify_buf, Stays)
          λ i. (
            s.fip,
            map-set_same size_of s.page_buf_pool buf_pos b (f b) e (h b) i,
            set-set s.page_buf_pool buf_pos (f b) blank i,
          )
  ]

  pub modify_buf-Keeps :
      (f : PageBuf → PageBuf)
      → ((b : PageBuf) → size_of (f b) ≡ size_of b)
      → Keeps others (modify_buf U buf_pos f)
  modify_buf-Keeps f h = record { at = modify_buf-Stays f h }

  -- Whatever keeps all buffers keeps the others.
  Keeps-others {ℓ} :
      {A : Type ℓ} (m : Ftl U.Vol → Outcome (Ftl U.Vol) A) → Keeps (core U) m → Keeps others m
  Keeps-others m k = Keeps-ap hide m k

  pub get_buf-Keeps : Keeps (core U) (get_buf U buf_pos)
  unfolding get_buf
  get_buf-Keeps = record { at = λ s. ground arith }

  merge_page-size :
      (n : ℕ) (page : List ℕ) (b : PageBuf) → size_of (merge_page U n page b) ≡ size_of b
  unfolding merge_page
  merge_page-size n page b = length-merge_sectors n 0 b.sector_state page b.data_buf

  stamp_page-size :
      (off pad : ℕ) (id : ℤ) (b : PageBuf) → size_of (stamp_page U off pad id b) ≡ size_of b
  unfolding stamp_page
  stamp_page-size off pad id b = length-overwrite b.data_buf off _

  free_page-size : (now : ℕ) (b : PageBuf) → size_of (free_page U now b) ≡ size_of b
  unfolding free_page
  free_page-size now b = refl

  merge_from-Keeps : (index : ℤ) → Keeps others (merge_from U buf_pos index)
  unfolding merge_from
  merge_from-Keeps index =
      search
        (
          keeps_rules,
          Keeps-others (read_tmp U _ _) (read_tmp-Keeps U _ _),
          modify_buf-Keeps,
          merge_page-size,
        )
        depth 20

  pub get_buf-others : Keeps others (get_buf U buf_pos)
  get_buf-others = Keeps-others _ get_buf-Keeps

  get_sector_index-others : (i : ℤ) → Keeps others (get_sector_index U i)
  get_sector_index-others i = Keeps-others _ (get_sector_index-Keeps U i)

  merge_buf-Keeps : Keeps others (merge_buf U buf_pos)
  unfolding merge_buf
  merge_buf-Keeps = Keeps-bind _ _ Keeps-get_state λ s.
      Keeps-bind _ _ get_buf-others
        λ b. search (keeps_rules, merge_from-Keeps, get_sector_index-others) depth 20

  stamp_buf-Keeps : Keeps others (stamp_buf U buf_pos)
  unfolding stamp_buf
  stamp_buf-Keeps = search (keeps_rules, modify_buf-Keeps, stamp_page-size) depth 20

  pub release_buf-Keeps : Keeps others (release_buf U buf_pos)
  unfolding release_buf
  release_buf-Keeps = search (keeps_rules, modify_buf-Keeps, free_page-size) depth 20

  set_check_count-Keeps : (n : ℕ) → Keeps (core U) (set_check_count U n)
  unfolding set_check_count
  set_check_count-Keeps n = record { at = λ s. refl }

  count_check-Keeps : Keeps (core U) (count_check U)
  unfolding count_check
  count_check-Keeps = search (page_keeps, set_check_count-Keeps, garbage_checking-Keeps) depth 20

  retire-Keeps : (index : ℤ) → Keeps (core U) (retire U index)
  unfolding retire
  retire-Keeps index = search (page_keeps, scrub_block-Keeps) depth 20

  publish-Keeps : (new_index : ℤ) → Keeps (core U) (publish U buf_pos new_index)
  unfolding publish
  publish-Keeps new_index = Keeps-bind _ _ Keeps-get_state λ s.
      Keeps-bind _ _ get_buf-Keeps
        λ b. search (page_keeps, finish_block-Keeps, retire-Keeps) depth 30

  new_page-others : Keeps others (get_new_page U)
  new_page-others = Keeps-others _ (get_new_page-Keeps U)

  publish-others : (i : ℤ) → Keeps others (publish U buf_pos i)
  publish-others i = Keeps-others _ (publish-Keeps i)

  count_check-others : Keeps others (count_check U)
  count_check-others = Keeps-others _ count_check-Keeps

  pub write_out-Keeps : Keeps others (write_out U buf_pos)
  unfolding write_out
  write_out-Keeps =
      search
        (
          keeps_rules, merge_buf-Keeps, stamp_buf-Keeps, new_page-others, publish-others,
          count_check-others,
        )
        depth 20

  -- Whether it succeeds or returns an error, sync_one_buf leaves the geometry, the size of every
  -- page buffer, and every page buffer but the one it is called for as they were.
  pub sync_one_buf-Keeps : Keeps others (sync_one_buf U buf_pos)
  unfolding sync_one_buf
  sync_one_buf-Keeps =
      Keeps-bind _ _ get_buf-others
        λ b. search (keeps_rules, write_out-Keeps, release_buf-Keeps) depth 20
