-- ===== src/Ubifs/Lprops/Remove.antt =====
-- lprops.c: a heap stays ordered where an LEB is removed, and loses no other.
use android_infotm_confident.Prelude.{
  ℕ, ◌+◌, ◌-◌, ◌<◌, ◌≡◌, ◌≢◌, refl, ◌∙◌, ltb, arith, Bool-cases, inl, inr,
}
use android_infotm_confident.Ubifs.Lprops.{Slots, parent, remove_from_lpt_heap}
use android_infotm_confident.Ubifs.Lprops.Frame.{Holds, Finds, Finds-mono}
use android_infotm_confident.Ubifs.Lprops.Sift.{Loose}
use android_infotm_confident.Ubifs.Lprops.Rise.{Sorted}
use android_infotm_confident.Ubifs.Lprops.Sink.{adjust_lpt_heap-Sorted}
use android_infotm_confident.Ubifs.Lprops.Members.{
  HeapOk, shrunk, shrunk-Placed, shrunk-Loose, shrunk-Holds,
}

-- The heap `t` holds what `s` holds but `lprops`.
pub record Left (val : ℕ → ℕ) (s : Slots) (lprops : ℕ) (t : Slots) : Type 0 where
  pub ok : HeapOk val t
  pub count : t.cnt + 1 ≡ s.cnt
  pub gone : (Holds t lprops) → ⊥
  pub kept : (a : ℕ) → a ≢ lprops → Holds s a → Holds t a
  pub only : (a : ℕ) → Holds t a → Holds s a
  pub others : (a : ℕ) → (Holds s a → ⊥) → t.hpos a ≡ s.hpos a

-- Only the worth of the LEB that goes may have changed.
module _ (val new : ℕ → ℕ) (s : Slots) (lprops : ℕ) (ok : HeapOk val s)
    (same : (a : ℕ) → a ≢ lprops → new a ≡ val a) where
  last_gone :
      Holds s lprops → s.hpos lprops + 1 ≡ s.cnt → Left new s lprops (record s { cnt = s.cnt - 1 })
  last_gone h e =
      let at : (i : ℕ) → i < s.cnt - 1 → new (s.arr i) ≡ val (s.arr i) =
        λ i b. same (s.arr i) (λ q. ground (arith, q, b, e, ok.placed.at i)) in
      record {
        ok = record {
          placed = record { at = λ i b. ok.placed.at i (omega (arith, b)) };
          ordered = record {
            at = λ i a b. ground (arith, at i b, at (parent i), ok.ordered.at i a, b);
          };
        };
        count = omega (arith, e);
        gone = λ k. absurd (ground (arith, k, e));
        kept = λ a d k. ground (arith, k, e, h, d);
        only = λ a k. ground (arith, k);
        others = λ a n. refl;
      }

  new-Loose :
      (h : Holds s lprops)
      → s.hpos lprops < s.cnt - 1
      → Loose new (shrunk val s lprops ok) (s.hpos lprops)
  new-Loose h b =
      let u = shrunk val s lprops ok in
      let p = shrunk-Placed val s lprops ok h b in
      let l = shrunk-Loose val s lprops ok h b in
      let at : (i : ℕ) → i < u.cnt → new (u.arr i) ≡ val (u.arr i) = λ i c.
        same (u.arr i)
          ((shrunk-Holds val s lprops ok h b (u.arr i)).0 (rw (p.at i c) (c, refl))).0 in
      record {
        others =
            λ i a c n m. omega (arith, at i c, at (parent i) (omega arith), l.others i a c n m);
        below = λ i a c e q.
            omega (arith, at i c, at (parent (s.hpos lprops)) (omega arith), l.below i a c e q);
      }

  -- An LEB that is in the heap, ordered but for a change of what this LEB is worth, is removed from
  -- it: the result is the ordered heap of one LEB less, which holds all LEBs of the heap but this
  -- one. The positions of LEBs outside the heap stay.
  pub remove_from_lpt_heap_lem :
      Holds s lprops → Finds (Left new s lprops) (remove_from_lpt_heap new s lprops)
  unfolding remove_from_lpt_heap
  remove_from_lpt_heap_lem h =
      let last = s.cnt - 1 in
      let u = shrunk val s lprops ok in
      elim (Bool-cases (ltb (s.hpos lprops) last)) [
        | inl e ↦
            let b : s.hpos lprops < last = ground (arith, e) in
            rw (e, remove_from_lpt_heap)
              (Finds-mono (Sorted new u) (Left new s lprops) _
                (λ t o. record {
                  ok = record { placed = o.kept.placed; ordered = o.ordered };
                  count = omega (arith, o.kept.same, b);
                  gone = λ k.
                      ((shrunk-Holds val s lprops ok h b lprops).0 ((o.kept.holds lprops).1 k)).0
                        refl;
                  kept =
                      λ a d k. (o.kept.holds a).0 ((shrunk-Holds val s lprops ok h b a).1 (d, k));
                  only = λ a k. ((shrunk-Holds val s lprops ok h b a).0 ((o.kept.holds a).1 k)).1;
                  others = λ a n.
                      o.kept.others a (λ k. n ((shrunk-Holds val s lprops ok h b a).0 k).1)
                      ∙ ground (arith, n, ok.placed.at last, h);
                })
                (adjust_lpt_heap-Sorted new u (s.arr last) (s.hpos lprops) b (ground arith)
                  (shrunk-Placed val s lprops ok h b) (new-Loose h b)))
        | inr e ↦ rw (e, remove_from_lpt_heap) (last_gone h (ground (arith, e, h)))
      ]
