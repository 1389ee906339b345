-- ===== src/Ubifs/Lprops/Change.antt =====
-- lprops.c: the greatest LEB of a heap, and a change of what an LEB is worth.
use android_infotm_confident.Prelude.{
  ℕ, zero, suc, ◌<◌, ◌≤◌, ◌≡◌, ◌≢◌, ◌==◌, arith, Bool-cases, inl, inr,
}
use android_infotm_confident.Ubifs.Lprops.{Slots, parent, adjust_lpt_heap}
use android_infotm_confident.Ubifs.Lprops.Frame.{Holds, Finds, Finds-mono}
use android_infotm_confident.Ubifs.Lprops.Sift.{key, Ordered, Loose}
use android_infotm_confident.Ubifs.Lprops.Rise.{Sorted}
use android_infotm_confident.Ubifs.Lprops.Sink.{adjust_lpt_heap-Sorted}
use android_infotm_confident.Ubifs.Lprops.Members.{HeapOk}

-- No LEB of the ordered heap is worth more than the one at its top.
pub top_below :
    (val : ℕ → ℕ) (s : Slots) (fuel i : ℕ)
    → Ordered val s
    → i ≤ fuel
    → i < s.cnt
    → key val s i ≤ key val s 0
top_below val s zero i o f b = ground (arith, f)
top_below val s (suc fuel) i o f b = elim (Bool-cases (i == 0)) [
  | inl z ↦ ground (arith, z)
  | inr n ↦
      ground (arith, n, o.at i, top_below val s fuel (parent i) o (omega arith) (omega (arith, b)))
]

-- The heap `t` is ordered by the new worth, holds the same LEBs as `s`, and has the greatest on top;
-- no other LEB is moved.
pub record Adjusted (val : ℕ → ℕ) (s t : Slots) : Type 0 where
  pub ok : HeapOk val t
  pub count : t.cnt ≡ s.cnt
  pub holds : (a : ℕ) → (Holds s a → Holds t a) × (Holds t a → Holds s a)
  pub others : (a : ℕ) → (Holds s a → ⊥) → t.hpos a ≡ s.hpos a
  pub top : (a : ℕ) → Holds s a → val a ≤ val (t.arr 0)

changed-Loose :
    (val new : ℕ → ℕ) (s : Slots) (lprops : ℕ)
    → HeapOk val s
    → Holds s lprops
    → ((a : ℕ) → a ≢ lprops → new a ≡ val a)
    → Loose new s (s.hpos lprops)
changed-Loose val new s lprops ok h same =
    let other : (i : ℕ) → i < s.cnt → i ≢ s.hpos lprops → new (s.arr i) ≡ val (s.arr i) =
      λ i b n. same (s.arr i) (λ e. n (ground (arith, e, ok.placed.at i b))) in
    record {
      others = λ i a b n m. ground (arith, ok.ordered.at i a b, other i b n, other (parent i));
      below = λ i a b e p. ground (
        arith,
        ok.ordered.at i a b,
        ok.ordered.at (s.hpos lprops) p,
        other i b,
        other (parent (s.hpos lprops)),
        h,
      );
    }

-- Where the worth of one LEB of the ordered heap has changed, up or down, adjust_lpt_heap at its
-- place ends, and gives the heap of the same LEBs in the order of the new worth, so that the LEB at
-- the top is worth the most. The positions of LEBs outside the heap stay.
pub adjust_lpt_heap-Adjusted :
    (val new : ℕ → ℕ) (s : Slots) (lprops : ℕ)
    → HeapOk val s
    → Holds s lprops
    → ((a : ℕ) → a ≢ lprops → new a ≡ val a)
    → Finds (Adjusted new s) (adjust_lpt_heap new s lprops (s.hpos lprops))
adjust_lpt_heap-Adjusted val new s lprops ok h same =
    Finds-mono (Sorted new s) (Adjusted new s) _
      (λ t o. record {
        ok = record { placed = o.kept.placed; ordered = o.ordered };
        count = o.kept.same;
        holds = o.kept.holds;
        others = o.kept.others;
        top = λ a k.
            let (b, e) = (o.kept.holds a).0 k in
            ground (arith, e, top_below new t (t.hpos a) (t.hpos a) o.ordered (omega arith) b);
      })
      (adjust_lpt_heap-Sorted new s lprops (s.hpos lprops) h.0 h.1 ok.placed
        (changed-Loose val new s lprops ok h same))
