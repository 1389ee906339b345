-- ===== src/Ubifs/Lpt/Fit.antt =====
-- What the geometry and the tables of lpt.c promise.
use native.Mathlib.Nat.{div-lt_iff_lt-mul, add-mul}
use android_infotm_confident.Prelude.{
  ℕ, zero, suc, ◌+◌, ◌-◌, ◌*◌, ◌/◌, ◌≤◌, ◌<◌, ◌≡◌, refl, ltb, leb, if◌then◌else◌, true, false,
  Option, some, arith, inl, inr, Bool-cases, Option-cases,
}
use android_infotm_confident.Ubifs.Lpt.Types.{Info, einval}
use android_infotm_confident.Ubifs.Lpt.Geometry.{
  do_calc_lpt_geom, enough_lebs, calc_dflt_lpt_geom, wastage_loop, height_loop, add_wastage,
  calc_sizes,
}

-- The tree has the room that is asked for.
pub record Roomy (total : ℕ) (c : Info) : Type 0 where
  pub room : c.lpt_sz * 4 ≤ c.lpt_lebs * c.leb_size
  pub ltab_fits : c.ltab_sz ≤ c.leb_size
  pub split : c.main_lebs + c.lpt_lebs ≡ total
  pub some_main : 0 < c.main_lebs

-- With less waste in an LEB than the LEB has, the loop ends.
wastage_loop_ends :
    (fuel leb_size waste sz tot : ℕ)
    → waste < leb_size
    → sz < fuel
    → (r : ℕ × ℕ) × (wastage_loop fuel leb_size waste sz tot ≡ some r)
unfolding wastage_loop
wastage_loop_ends zero leb_size waste sz tot h f = absurd (omega arith)
wastage_loop_ends (suc fuel) leb_size waste sz tot h f = elim (Bool-cases (ltb leb_size sz)) [
  | inl e ↦
      rw (e, wastage_loop)
        (wastage_loop_ends fuel leb_size waste (sz + waste - leb_size) (tot + waste) h
          (ground arith))
  | inr e ↦ rw (e, wastage_loop) ((sz, tot), refl)
]

height_loop_ends :
    (fuel n max_pnode_cnt hght : ℕ)
    → 0 < n
    → 0 < fuel
    → max_pnode_cnt < fuel + n
    → (r : ℕ) × (height_loop fuel n max_pnode_cnt hght ≡ some r)
unfolding height_loop
height_loop_ends zero n max_pnode_cnt hght p q f = absurd (omega arith)
height_loop_ends (suc fuel) n max_pnode_cnt hght p q f = elim (Bool-cases (ltb n max_pnode_cnt)) [
  | inl e ↦
      rw (e, height_loop)
        (height_loop_ends fuel (n * 4) max_pnode_cnt (hght + 1) (omega arith) (ground arith)
          (ground arith))
  | inr e ↦ rw (e, height_loop) (hght, refl)
]

round_up_le : (x d n : ℕ) → 0 < d → (x + d - 1) / d ≤ n → x ≤ n * d
round_up_le x d n p h =
    let below : (x + d - 1) / d < n + 1 = omega arith in
    omega (arith, (div-lt_iff_lt-mul p).0 below, add-mul n 1 d)

settled :
    (total : ℕ) (c d : Info)
    → c.main_lebs + c.lpt_lebs ≡ total
    → 0 < c.main_lebs
    → c.lpt_sz * 4 ≤ c.lpt_lebs * c.leb_size
    → ◌≡◌ {A = Option (ℕ × Info)}
        (some (if ltb c.leb_size c.ltab_sz then (einval, c) else (0, c)))
        (some (0, d))
    → Roomy total d
settled total c d e p r h = record {
  room = ground arith;
  ltab_fits = ground arith;
  split = ground arith;
  some_main = ground arith;
}

module _ (fls : ℕ → ℕ) where
  -- If the size of a pnode and the size of an nnode that calc_sizes computes are less than an
  -- LEB, the loops of do_calc_lpt_geom end, and it gives a geometry.
  pub do_calc_lpt_geom-ends :
      (c : Info)
      → (calc_sizes fls c 1).pnode_sz < c.leb_size
      → (calc_sizes fls c 1).nnode_sz < c.leb_size
      → (d : Info) × (do_calc_lpt_geom fls c ≡ some d)
  unfolding do_calc_lpt_geom calc_sizes add_wastage
  do_calc_lpt_geom-ends c p q =
      let pnodes = (c.main_lebs + c.max_leb_cnt - c.leb_cnt + 4 - 1) / 4 in
      let (hght, h) =
        height_loop_ends (pnodes + 1) 4 pnodes 1 (omega arith) (omega arith) (omega arith) in
      let e = calc_sizes fls c hght in
      let waste = if ltb e.pnode_sz e.nnode_sz then e.nnode_sz else e.pnode_sz in
      let (r, w) =
        wastage_loop_ends (e.lpt_sz + waste + 1) c.leb_size waste (e.lpt_sz + waste) waste
          (ground arith) (omega arith) in
      rw (h, w) (_, refl)

  same_split :
      (c d : Info)
      → do_calc_lpt_geom fls c ≡ some d
      → (d.main_lebs ≡ c.main_lebs) × (d.lpt_lebs ≡ c.lpt_lebs) × (d.leb_size ≡ c.leb_size)
  unfolding do_calc_lpt_geom add_wastage calc_sizes
  same_split c d h =
      elim (Option-cases (
        height_loop ((c.main_lebs + c.max_leb_cnt - c.leb_cnt + 4 - 1) / 4 + 1) 4
          ((c.main_lebs + c.max_leb_cnt - c.leb_cnt + 4 - 1) / 4) 1)) [
            | inl e ↦ ground arith
            | inr (hght, e) ↦ ground arith
          ]

  enough_lebs-Roomy :
      (tries total : ℕ) (c d : Info)
      → c.main_lebs + c.lpt_lebs ≡ total
      → 0 < c.main_lebs
      → 0 < c.leb_size
      → enough_lebs fls tries total c ≡ some (0, d)
      → Roomy total d
  unfolding enough_lebs
  enough_lebs-Roomy zero total c d e p q h = cc
  enough_lebs-Roomy (suc tries) total c d e p q h =
      let needed = (c.lpt_sz * 4 + c.leb_size - 1) / c.leb_size in
      let more : Info = record c { lpt_lebs = needed; main_lebs = total - needed } in
      elim (Bool-cases (ltb c.lpt_lebs needed)) [
        | inl f ↦ elim (Bool-cases (leb total needed)) [
          | inl l ↦ ground arith
          | inr l ↦ elim (Option-cases (do_calc_lpt_geom fls more)) [
            | inl g ↦ ground arith
            | inr (m, g) ↦
                let (s1, s2, s3) = same_split more m g in
                enough_lebs-Roomy tries total m d (ground arith) (ground arith) (omega arith)
                  (ground arith)
          ]
        ]
        | inr f ↦
            settled total c d e p
              (round_up_le (c.lpt_sz * 4) c.leb_size c.lpt_lebs q (ground arith)) (ground arith)
      ]

  -- If an LEB is not empty and calc_dflt_lpt_geom succeeds with a geometry, then four times the
  -- size of the tree fits its LEBs, the table of these fits one LEB, there is at least one main
  -- LEB, and the main LEBs and those of the tree make up the total given.
  pub calc_dflt_lpt_geom-Roomy :
      (total : ℕ) (c d : Info)
      → 0 < c.leb_size
      → calc_dflt_lpt_geom fls total c ≡ some (0, d)
      → Roomy total d
  unfolding calc_dflt_lpt_geom
  calc_dflt_lpt_geom-Roomy total c d q h =
      let start : Info = record c { lpt_lebs = 2; main_lebs = total - 2; big_lpt = false } in
      elim (Bool-cases (leb total 2)) [
        | inl l ↦ ground arith
        | inr l ↦ elim (Option-cases (do_calc_lpt_geom fls start)) [
          | inl g ↦ ground arith
          | inr (m, g) ↦
              let (s1, s2, s3) = same_split start m g in
              elim (Bool-cases (ltb m.leb_size m.lpt_sz)) [
                | inl b ↦ elim (Option-cases (do_calc_lpt_geom fls (record m { big_lpt = true }))) [
                  | inl g2 ↦ ground arith
                  | inr (n, g2) ↦
                      let (t1, t2, t3) = same_split (record m { big_lpt = true }) n g2 in
                      enough_lebs-Roomy 64 total n d (ground arith) (ground arith) (omega arith)
                        (ground arith)
                ]
                | inr b ↦
                    enough_lebs-Roomy 64 total m d (ground arith) (ground arith) (omega arith)
                      (ground arith)
              ]
        ]
      ]
