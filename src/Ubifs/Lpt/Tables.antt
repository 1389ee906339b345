-- ===== src/Ubifs/Lpt/Tables.antt =====
-- What unpack_ltab and unpack_lsave of lpt.c let through.
use android_infotm_confident.Prelude.{
  ℕ, zero, suc, ◌+◌, ◌≤◌, ◌<◌, ◌≡◌, refl, ap, ◌∙◌, ◌==◌, ltb, leb, List, length, length-set, set,
  some, get_elem?, get_elem?-set_self, get_elem?-set_ne, Bool-cases, inl, inr, arith,
}
use android_infotm_confident.Ubifs.Lpt.BitFields.{BitAddr, ubifs_unpack_bits}
use android_infotm_confident.Ubifs.Lpt.Types.{Info, LptLprops}
use android_infotm_confident.Ubifs.Lpt.Unpack.{
  unpack_entries, unpack_ltab, unpack_lnums, unpack_lsave, check_lpt_type,
}

module _ (crc16 : List ℕ → ℕ) (junk : ℕ) where
  -- The numbers before the one that the loop is at stay.
  before :
      (c : Info) (buf : List ℕ) (at : BitAddr) (i n j : ℕ) (lsave : List ℕ)
      → j < i
      → get_elem? (unpack_lnums crc16 junk c buf at i n lsave).1 j ≡ get_elem? lsave j
  unfolding unpack_lnums
  before c buf at i zero j lsave h = refl
  before c buf at i (suc n) j lsave h =
      let (lnum, next) = ubifs_unpack_bits junk buf at c.lnum_bits in
      ground (
        arith,
        before c buf next (i + 1) n j (set lsave i lnum) (omega arith),
        get_elem?-set_ne lsave {i = i} {j = j} lnum (λ e. omega arith),
      )

  saved :
      (c : Info) (buf : List ℕ) (at : BitAddr) (i n j : ℕ) (lsave : List ℕ)
      → (unpack_lnums crc16 junk c buf at i n lsave).0 ≡ 0
      → i ≤ j
      → j < i + n
      → j < length lsave
      → (lnum : ℕ) × (get_elem? (unpack_lnums crc16 junk c buf at i n lsave).1 j ≡ some lnum)
        × (c.main_first ≤ lnum)
        × (lnum < c.leb_cnt)
  unfolding unpack_lnums
  saved c buf at i zero j lsave z h l k = absurd (omega arith)
  saved c buf at i (suc n) j lsave z h l k =
      let (lnum, next) = ubifs_unpack_bits junk buf at c.lnum_bits in
      let wide = length-set lsave i lnum in
      elim (Bool-cases (ltb lnum c.main_first)) [
        | inl e ↦ ground arith
        | inr e ↦ elim (Bool-cases (leb c.leb_cnt lnum)) [
          | inl f ↦ ground arith
          | inr f ↦ elim (Bool-cases (i == j)) [
            | inl g ↦
                let same : i ≡ j = ground arith in
                (
                  lnum,
                  rw (e, f, unpack_lnums)
                      (before c buf next (i + 1) n j (set lsave i lnum) (omega arith)
                        ∙ (ap (λ m. get_elem? (set lsave m lnum) j) same
                            ∙ get_elem?-set_self lsave j lnum k)),
                  ground arith,
                  ground arith,
                )
            | inr g ↦
                rw (e, f, unpack_lnums)
                  (saved c buf next (i + 1) n j (set lsave i lnum) (ground arith) (ground arith)
                    (ground arith) (omega arith))
          ]
        ]
      ]

  -- If unpack_lsave returns 0, each number of the table that it has read, as far as the table has
  -- room for the count of saved LEBs, is the number of an LEB of the main area.
  pub unpack_lsave-main :
      (c : Info) (buf : List ℕ) (j : ℕ)
      → (unpack_lsave crc16 junk c buf).0 ≡ 0
      → j < c.lsave_cnt
      → j < length c.lsave
      → (lnum : ℕ) × (get_elem? (unpack_lsave crc16 junk c buf).1.lsave j ≡ some lnum)
        × (c.main_first ≤ lnum)
        × (lnum < c.leb_cnt)
  unfolding unpack_lsave
  unpack_lsave-main c buf j z l k =
      let (e, at) = check_lpt_type crc16 junk buf (record { addr = 2; bit = 0 }) 3 in
      elim (Bool-cases (e == 0)) [
        | inl g ↦
            rw (g, unpack_lsave)
              (saved c buf at 0 c.lsave_cnt j c.lsave (ground arith) (omega arith) (omega arith) k)
        | inr g ↦ ground arith
      ]

  -- The entries before the one that the loop is at stay.
  before_entry :
      (c : Info) (buf : List ℕ) (at : BitAddr) (i n j : ℕ) (ltab : List LptLprops)
      → j < i
      → get_elem? (unpack_entries crc16 junk c buf at i n ltab).1 j ≡ get_elem? ltab j
  unfolding unpack_entries
  before_entry c buf at i zero j ltab h = refl
  before_entry c buf at i (suc n) j ltab h =
      let (free, at1) = ubifs_unpack_bits junk buf at c.lpt_spc_bits in
      let (dirty, next) = ubifs_unpack_bits junk buf at1 c.lpt_spc_bits in
      let entry : LptLprops = record { free = free; dirty = dirty; tgc = 0; cmt = 0 } in
      ground (
        arith,
        before_entry c buf next (i + 1) n j (set ltab i entry) (omega arith),
        get_elem?-set_ne ltab {i = i} {j = j} entry (λ e. omega arith),
      )

  stored :
      (c : Info) (buf : List ℕ) (at : BitAddr) (i n j : ℕ) (ltab : List LptLprops)
      → (unpack_entries crc16 junk c buf at i n ltab).0 ≡ 0
      → i ≤ j
      → j < i + n
      → j < length ltab
      → (entry : LptLprops) × (get_elem? (unpack_entries crc16 junk c buf at i n ltab).1 j
          ≡ some entry)
        × (entry.free + entry.dirty ≤ c.leb_size)
  unfolding unpack_entries
  stored c buf at i zero j ltab z h l k = absurd (omega arith)
  stored c buf at i (suc n) j ltab z h l k =
      let (free, at1) = ubifs_unpack_bits junk buf at c.lpt_spc_bits in
      let (dirty, next) = ubifs_unpack_bits junk buf at1 c.lpt_spc_bits in
      let entry : LptLprops = record { free = free; dirty = dirty; tgc = 0; cmt = 0 } in
      let wide = length-set ltab i entry in
      elim (Bool-cases (ltb c.leb_size free)) [
        | inl d ↦ ground arith
        | inr d ↦ elim (Bool-cases (ltb c.leb_size dirty)) [
          | inl e ↦ ground arith
          | inr e ↦ elim (Bool-cases (ltb c.leb_size (free + dirty))) [
            | inl f ↦ ground arith
            | inr f ↦ elim (Bool-cases (i == j)) [
              | inl g ↦
                  let same : i ≡ j = ground arith in
                  (
                    entry,
                    rw (d, e, f, unpack_entries)
                        (before_entry c buf next (i + 1) n j (set ltab i entry) (omega arith)
                          ∙ (ap (λ m. get_elem? (set ltab m entry) j) same
                              ∙ get_elem?-set_self ltab j entry k)),
                    ground arith,
                  )
              | inr g ↦
                  rw (d, e, f, unpack_entries)
                    (stored c buf next (i + 1) n j (set ltab i entry) (ground arith) (ground arith)
                      (ground arith) (omega arith))
            ]
          ]
        ]
      ]

  -- If unpack_ltab returns 0, each entry of the table that it has read, as far as the table has
  -- room for the count of LEBs of the tree, has free and dirty space that together fit an LEB.
  pub unpack_ltab-fits :
      (c : Info) (buf : List ℕ) (j : ℕ)
      → (unpack_ltab crc16 junk c buf).0 ≡ 0
      → j < c.lpt_lebs
      → j < length c.ltab
      → (entry : LptLprops) × (get_elem? (unpack_ltab crc16 junk c buf).1.ltab j ≡ some entry)
        × (entry.free + entry.dirty ≤ c.leb_size)
  unfolding unpack_ltab
  unpack_ltab-fits c buf j z l k =
      let (e, at) = check_lpt_type crc16 junk buf (record { addr = 2; bit = 0 }) 2 in
      elim (Bool-cases (e == 0)) [
        | inl g ↦
            rw (g, unpack_ltab)
              (stored c buf at 0 c.lpt_lebs j c.ltab (ground arith) (omega arith) (omega arith) k)
        | inr g ↦ ground arith
      ]
