-- ===== src/Uftl/Arrays.antt =====
-- The tables of uftl_core.c: page states, sector index, sector ids, page buffers.
use android_infotm_confident.Prelude.{
  ℕ, zero, suc, ◌+◌, ◌/◌, Bool, true, false, if◌then◌else◌, List, [], ◌∷◌, ◌++◌, Option, none, some,
  get_elem?, set, replicate, ℤ, pos, negsuc, quot, rem,
}
use android_infotm_confident.Outcome.{ok, err, fault, bind, ◌>>=◌, ◌>>◌, fail, or_fault, for_range}
use android_infotm_confident.Uftl.Types.{
  Ubi, Act, FakeIntArray, page_empty, ftl_nomap, per_index_len, buf_num, enomem,
}

-- An access `a[i]` by a C `int`.
abbrev pub elem_at {ℓ} : {A : Type ℓ} → List A → ℤ → Option A
elem_at xs (pos i) = get_elem? xs i
elem_at xs (negsuc i) = none

abbrev pub set_at {ℓ} : {A : Type ℓ} → List A → ℤ → A → List A
set_at xs (pos i) v = set xs i v
set_at xs (negsuc i) v = xs

-- get_sector_index and get_sector_id, set_sector_index and set_sector_id.
unfoldable pub array_get : FakeIntArray → ℤ → Option ℤ
array_get a i = elim (elem_at a.rows (quot i a.num)) [
  | none ↦ none
  | some row ↦ elem_at row (rem i a.num)
]

unfoldable pub array_set : FakeIntArray → ℤ → ℤ → Option FakeIntArray
array_set a i v = elim (elem_at a.rows (quot i a.num)) [
  | none ↦ none
  | some row ↦ elim (elem_at row (rem i a.num)) [
    | none ↦ none
    | some _ ↦ some (record a { rows = set_at a.rows (quot i a.num) (set_at row (rem i a.num) v) })
  ]
]

module _ (U : Ubi) where
  unfoldable pub get_page_state : ℤ → ℤ → Act U ℕ
  get_page_state block page s = elim (elem_at s.block_state_index block) [
    | none ↦ fault
    | some b ↦ or_fault (elem_at b.page_state page) s
  ]

  unfoldable pub set_page_state : ℤ → ℤ → ℕ → Act U (Unit {0})
  set_page_state block page state s = elim (elem_at s.block_state_index block) [
    | none ↦ fault
    | some b ↦ elim (elem_at b.page_state page) [
      | none ↦ fault
      | some _ ↦ ok tt (record s {
        block_state_index =
            set_at s.block_state_index block
              (record b { page_state = set_at b.page_state page state });
      })
    ]
  ]

  unfoldable pub get_sector_index : ℤ → Act U ℤ
  get_sector_index sector s = or_fault (array_get s.sector_index sector) s

  unfoldable pub set_sector_index : ℤ → ℤ → Act U (Unit {0})
  set_sector_index sector index s = elim (array_set s.sector_index sector index) [
    | none ↦ fault
    | some a ↦ ok tt (record s { sector_index = a })
  ]

  unfoldable pub get_sector_id : ℤ → Act U ℤ
  get_sector_id sector s = or_fault (array_get s.sector_id sector) s

  unfoldable pub set_sector_id : ℤ → ℤ → Act U (Unit {0})
  set_sector_id sector id s = elim (array_set s.sector_id sector id) [
    | none ↦ fault
    | some a ↦ ok tt (record s { sector_id = a })
  ]

  -- One kmalloc: whether it gives memory.
  unfoldable pub kmalloc : Act U Bool
  kmalloc s = elim s.allocs [ [] ↦ ok true s | a ∷ rest ↦ ok a (record s { allocs = rest }) ]

  -- One more block, all of its pages empty.
  add_block_state : ℕ → Act U (Unit {0})
  add_block_state page_per_block s = ok tt (record s {
    block_state_index =
        s.block_state_index
        ++ record { page_state = replicate page_per_block page_empty; using_page = pos s.junk }
          ∷ [];
  })

  unfoldable pub alloc_block_state_index : ℕ → ℕ → Act U (Unit {0})
  unfolding add_block_state
  alloc_block_state_index block page_per_block = do
    got ← kmalloc
    (λ s. ok tt (record s { indexed = got; block_state_index = [] }))
    if got then for_range 0 block alloc_one else fail enomem
    where
      alloc_one : ℕ → Act U (Unit {0})
      alloc_one i = do got ← kmalloc; if got then add_block_state page_per_block else fail enomem

  -- The pointer keeps its value.
  unfoldable pub free_block_state_index : Act U (Unit {0})
  free_block_state_index s = ok tt (record s { block_state_index = [] })

  -- An array of `line` rows, or the error when a row cannot be had.
  alloc_rows : ℕ → ℕ → List (List ℤ) → Act U (Option (List (List ℤ)))
  alloc_rows zero num rows s = ok (some rows) s
  alloc_rows (suc n) num rows s = bind (kmalloc s) λ got t.
      let rest = alloc_rows n num (rows ++ replicate num (pos t.junk) ∷ []) t in
      if got then rest else ok none t

  abbrev index_num : ℕ
  index_num = per_index_len / 4

  unfoldable pub alloc_sector_index : ℕ → Act U (Unit {0})
  unfolding alloc_rows
  alloc_sector_index sector s = bind (kmalloc s) λ got t.
      if got
      then bind (alloc_rows (sector / index_num + 1) index_num [] t) (λ rows u. elim rows [
        | none ↦ err enomem u
        | some r ↦ ok tt (record u { sector_index = record { rows = r; num = index_num } })
      ])
      else fault

  unfoldable pub alloc_sector_id : ℕ → Act U (Unit {0})
  unfolding alloc_rows
  alloc_sector_id sector s = bind (kmalloc s) λ got t.
      if got
      then bind (alloc_rows (sector / index_num + 1) index_num [] t) (λ rows u. elim rows [
        | none ↦ err enomem u
        | some r ↦ ok tt (record u { sector_id = record { rows = r; num = index_num } })
      ])
      else fault

  unfoldable pub free_sector_index : Act U (Unit {0})
  free_sector_index s = ok tt (record s { sector_index = record { rows = []; num = index_num } })

  unfoldable pub free_sector_id : Act U (Unit {0})
  free_sector_id s = ok tt (record s { sector_id = record { rows = []; num = index_num } })

  -- The page buffers. A failing kmalloc is not tested for in the code, and its result is used.
  unfoldable pub alloc_page_buf_pool : Act U (Unit {0})
  alloc_page_buf_pool =
      kmalloc >>= λ got. if got then (clear >> for_range 0 buf_num alloc_one) else (λ s. fault)
    where
      clear : Act U (Unit {0})
      clear s = ok tt (record s { page_buf_pool = [] })

      add : Act U (Unit {0})
      add s = ok tt (record s {
        page_buf_pool =
            s.page_buf_pool
            ++ record {
              sector = ftl_nomap;
              read = false;
              data_buf = replicate s.fip.leb_page_size s.junk;
              sector_state = 0;
              jiffies = s.now;
            }
              ∷ [];
      })

      alloc_one : ℕ → Act U (Unit {0})
      alloc_one i = kmalloc >>= λ got. if got then add else (λ s. fault)
