-- ===== src/Ubifs/Lprops/Rise.antt =====
-- lprops.c: move_up_lpt_heap and the first loop of adjust_lpt_heap.
use android_infotm_confident.Prelude.{
  ℕ, zero, suc, ◌<◌, ◌≡◌, ap, sym, ◌∙◌, ◌==◌, leb, arith, Bool-cases, inl, inr,
}
use mathlib.Core.Path.{subst}
use android_infotm_confident.Ubifs.Lprops.{
  Slots, move, parent, move_up_loop, move_up_lpt_heap, adjust_up_loop,
}
use android_infotm_confident.Ubifs.Lprops.Frame.{
  Placed, Kept, Kept-refl, Kept-trans, Finds, Finds-mono, move-Kept,
}
use android_infotm_confident.Ubifs.Lprops.Sift.{
  Ordered, Rising, Rising-top, Rising-done, Rising-step,
}

module _ (val : ℕ → ℕ) where
  -- An ordered heap of the same LEBs.
  pub record Sorted (s t : Slots) : Type 0 where
    pub ordered : Ordered val t
    pub kept : Kept s t

  pub Sorted-after : (s t u : Slots) → Kept s t → Sorted t u → Sorted s u
  Sorted-after s t u k o = record { ordered = o.ordered; kept = Kept-trans s t u k o.kept }

  pub move_up_loop-Sorted :
      (fuel : ℕ) (s : Slots) (lprops h : ℕ)
      → h < fuel
      → h < s.cnt
      → s.arr h ≡ lprops
      → Placed s
      → Rising val s h
      → Finds (Sorted s) (move_up_loop val fuel s lprops h)
  unfolding move_up_loop
  move_up_loop-Sorted zero s lprops h f b e p r = absurd (omega (arith, f))
  move_up_loop-Sorted (suc fuel) s lprops h f b e p r = elim (Bool-cases (h == 0)) [
    | inl z ↦
        rw (z, move_up_loop)
          (record {
            ordered = Rising-top val s (subst (Rising val s) (ground (arith, z)) r);
            kept = Kept-refl s p;
          })
    | inr n ↦ elim (Bool-cases (leb (val lprops) (val (s.arr (parent h))))) [
      | inl l ↦
          rw (n, l, move_up_loop)
            (record {
              ordered = Rising-done val s h r (ground (arith, l, e));
              kept = Kept-refl s p;
            })
      | inr g ↦
          let pos : 0 < h = ground (arith, n) in
          let t = move s lprops h (parent h) in
          let k = move-Kept s lprops h (parent h) p b (omega arith) (omega arith) e in
          rw (n, g, move_up_loop)
            (Finds-mono (Sorted t) (Sorted s) _ (λ u o. Sorted-after s t u k o)
              (move_up_loop-Sorted fuel t lprops (parent h) (omega arith) (omega arith)
                (ground arith) k.placed (Rising-step val s lprops h r pos b e (ground (arith, g)))))
    ]
  ]

  -- The loop that moves first is the loop that looks first, where it has to move.
  adjust_up_loop-move :
      (fuel : ℕ) (s : Slots) (lprops h : ℕ)
      → h < fuel
      → 0 < h
      → adjust_up_loop val fuel s lprops h
        ≡ move_up_loop val fuel (move s lprops h (parent h)) lprops (parent h)
  unfolding adjust_up_loop move_up_loop
  adjust_up_loop-move zero s lprops h f b = absurd (omega (arith, f))
  adjust_up_loop-move (suc fuel) s lprops h f b =
      ground (
        arith,
        adjust_up_loop-move fuel (move s lprops h (parent h)) lprops (parent h) (omega arith),
      )

  pub adjust_up_loop-Sorted :
      (fuel : ℕ) (s : Slots) (lprops h : ℕ)
      → h < fuel
      → 0 < h
      → h < s.cnt
      → s.arr h ≡ lprops
      → Placed s
      → Rising val s h
      → val (s.arr (parent h)) < val lprops
      → Finds (Sorted s) (adjust_up_loop val fuel s lprops h)
  adjust_up_loop-Sorted fuel s lprops h f pos b e p r g =
      let t = move s lprops h (parent h) in
      let k = move-Kept s lprops h (parent h) p b (omega arith) (omega arith) e in
      rw (adjust_up_loop-move fuel s lprops h f pos) (
        Finds-mono (Sorted t) (Sorted s) _ (λ u o. Sorted-after s t u k o)
          (move_up_loop-Sorted fuel t lprops (parent h) (omega arith) (omega arith) (ground arith)
            k.placed (Rising-step val s lprops h r pos b e g)))

  pub move_up_lpt_heap-Sorted :
      (s : Slots) (lprops h : ℕ)
      → s.hpos lprops ≡ h
      → h < s.cnt
      → s.arr h ≡ lprops
      → Placed s
      → Rising val s h
      → Finds (Sorted s) (move_up_lpt_heap val s lprops)
  unfolding move_up_lpt_heap
  move_up_lpt_heap-Sorted s lprops h q b e p r =
      move_up_loop-Sorted (suc (s.hpos lprops)) s lprops (s.hpos lprops) (omega arith) (omega arith)
        (ap s.arr q ∙ e) p (subst (Rising val s) (sym q) r)
