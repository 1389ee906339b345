-- ===== src/Ubifs/Lprops/Sink.antt =====
-- lprops.c: the second loop of adjust_lpt_heap.
use android_infotm_confident.Prelude.{
  ℕ, zero, suc, ◌+◌, ◌*◌, ◌<◌, ◌≤◌, ◌≡◌, ◌==◌, ltb, arith, none, some, Bool-cases, inl, inr, ◌⊎◌,
  Option-cases,
}
use android_infotm_confident.Ubifs.Lprops.{
  Slots, move, parent, greater_child, adjust_down_loop, adjust_lpt_heap,
}
use android_infotm_confident.Ubifs.Lprops.Frame.{Placed, Kept-refl, Finds, Finds-mono, move-Kept}
use android_infotm_confident.Ubifs.Lprops.Sift.{
  key, Sinking, Sinking-step, Sinking-done, Loose, Loose-Rising, Loose-Sinking,
}
use android_infotm_confident.Ubifs.Lprops.Rise.{Sorted, Sorted-after, adjust_up_loop-Sorted}

module _ (val : ℕ → ℕ) where
  child_cases : (i h : ℕ) → 0 < i → parent i ≡ h → (i ≡ h * 2 + 1) ⊎ (i ≡ h * 2 + 1 + 1)
  child_cases i h p e = ground (arith, p, e)

  greater_child-none :
      (s : Slots) (lprops h i : ℕ)
      → greater_child val s lprops h ≡ none
      → i < s.cnt
      → (i ≡ h * 2 + 1) ⊎ (i ≡ h * 2 + 1 + 1)
      → key val s i ≤ val lprops
  unfolding greater_child
  greater_child-none s lprops h i e b (inl c) = ground (arith, c, e)
  greater_child-none s lprops h i e b (inr c) = ground (arith, c, e)

  greater_child-some :
      (s : Slots) (lprops h c : ℕ)
      → greater_child val s lprops h ≡ some c
      → ((c ≡ h * 2 + 1) ⊎ (c ≡ h * 2 + 1 + 1)) × (c < s.cnt) × (val lprops < key val s c)
  unfolding greater_child
  greater_child-some s lprops h c e = ground (arith, e)

  greater_child-top :
      (s : Slots) (lprops h c i : ℕ)
      → greater_child val s lprops h ≡ some c
      → i < s.cnt
      → (i ≡ h * 2 + 1) ⊎ (i ≡ h * 2 + 1 + 1)
      → key val s i ≤ key val s c
  unfolding greater_child
  greater_child-top s lprops h c i e b (inl k) = ground (arith, k, e)
  greater_child-top s lprops h c i e b (inr k) = ground (arith, k, e)

  adjust_down_loop-Sorted :
      (fuel : ℕ) (s : Slots) (lprops h : ℕ)
      → s.cnt ≤ h + fuel
      → h < s.cnt
      → s.arr h ≡ lprops
      → Placed s
      → Sinking val s h
      → Finds (Sorted val s) (adjust_down_loop val fuel s lprops h)
  unfolding adjust_down_loop
  adjust_down_loop-Sorted zero s lprops h f b e p r = absurd (omega (arith, f, b))
  adjust_down_loop-Sorted (suc fuel) s lprops h f b e p r =
      elim (Option-cases (greater_child val s lprops h)) [
        | inl n ↦
            rw (n, adjust_down_loop)
              (record {
                ordered =
                    Sinking-done val s h r
                      (λ i a d q. rw e (greater_child-none s lprops h i n d (child_cases i h a q)));
                kept = Kept-refl s p;
              })
        | inr (c, m) ↦
            let (at, within, above) = greater_child-some s lprops h c m in
            let after : h < c = ground (arith, at) in
            let under : parent c ≡ h = ground (arith, at) in
            let t = move s lprops h c in
            let k = move-Kept s lprops h c p b within (omega arith) e in
            rw (m, adjust_down_loop)
              (Finds-mono (Sorted val t) (Sorted val s) _ (λ u o. Sorted-after val s t u k o)
                (adjust_down_loop-Sorted fuel t lprops c (omega arith) within (ground arith)
                  k.placed
                  (Sinking-step val s lprops h c r under (omega arith) within e above
                    (λ i a d q. greater_child-top s lprops h c i m d (child_cases i h a q)))))
      ]

  pub adjust_lpt_heap-Sorted :
      (s : Slots) (lprops h : ℕ)
      → h < s.cnt
      → s.arr h ≡ lprops
      → Placed s
      → Loose val s h
      → Finds (Sorted val s) (adjust_lpt_heap val s lprops h)
  unfolding adjust_lpt_heap
  adjust_lpt_heap-Sorted s lprops h b e p l = elim (Bool-cases (h == 0)) [
    | inl z ↦
        rw (z, adjust_lpt_heap)
          (adjust_down_loop-Sorted (suc s.cnt) s lprops h (omega arith) b e p
            (Loose-Sinking val s h l (λ a. absurd (ground (arith, z, a)))))
    | inr n ↦ elim (Bool-cases (ltb (val (s.arr (parent h))) (val lprops))) [
      | inl g ↦
          rw (n, g, adjust_lpt_heap)
            (adjust_up_loop-Sorted val (suc h) s lprops h (omega arith) (ground (arith, n)) b e p
              (Loose-Rising val s h l (ground (arith, n)) (ground (arith, g, e)))
              (ground (arith, g)))
      | inr g ↦
          rw (n, g, adjust_lpt_heap)
            (adjust_down_loop-Sorted (suc s.cnt) s lprops h (omega arith) b e p
              (Loose-Sinking val s h l (λ a. ground (arith, g, e))))
    ]
  ]
