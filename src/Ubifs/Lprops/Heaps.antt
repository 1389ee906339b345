-- ===== src/Ubifs/Lprops/Heaps.antt =====
-- lprops.c: a heap stays ordered where an LEB is added, and holds what it should.
use android_infotm_confident.Prelude.Bits.{bit_and-mod}
use android_infotm_confident.Prelude.{
  ℕ, ◌+◌, ◌/◌, ◌<◌, ◌≤◌, ◌≡◌, ◌≢◌, refl, ◌∙◌, ltb, leb, arith, Option, none, some, Bool-cases, inl,
  inr, ◌⊎◌,
}
use native.Mathlib.Nat.{mod-lt}
use android_infotm_confident.Ubifs.Lprops.{
  Slots, seat, lpt_heap_sz, bottom_pos, Added, added, replaced, refused, outcome, move_up_lpt_heap,
  add_to_lpt_heap,
}
use android_infotm_confident.Ubifs.Lprops.Frame.{Holds, Finds, Finds-mono}
use android_infotm_confident.Ubifs.Lprops.Sift.{key}
use android_infotm_confident.Ubifs.Lprops.Rise.{Sorted, move_up_lpt_heap-Sorted}
use android_infotm_confident.Ubifs.Lprops.Members.{
  HeapOk, grown, grown-Placed, grown-Rising, Holds-grown, seat-Placed, seat-Rising, seat-Holds,
}

bottom_pos-bound : (lprops : ℕ) → bottom_pos lprops < lpt_heap_sz
bottom_pos-bound lprops =
    omega (arith, bit_and-mod 7 (lprops / 16), mod-lt (lprops / 16) {m = 128} (omega arith))

-- The heap `t` holds what `s` holds that is in `P`, and `lprops`.
pub record Joined (val : ℕ → ℕ) (P : ℕ → Type 0) (s : Slots) (lprops n : ℕ) (t : Slots)
    : Type 0 where
  pub ok : HeapOk val t
  pub count : t.cnt ≡ n
  pub joined : Holds t lprops
  pub old : (a : ℕ) → P a → Holds s a → Holds t a
  pub only : (a : ℕ) → Holds t a → (a ≡ lprops) ⊎ (P a × Holds s a)
  pub others : (a : ℕ) → a ≢ lprops → (Holds s a → ⊥) → t.hpos a ≡ s.hpos a

-- What add_to_lpt_heap promises for a heap with room for lpt_heap_sz LEBs.
abbrev pub AddResult : (ℕ → ℕ) → Slots → ℕ → Option Added → Type 0
AddResult val s lprops none = ⊥
AddResult val s lprops (some (added t)) =
    (s.cnt < lpt_heap_sz) × Joined val (λ a. Unit) s lprops (s.cnt + 1) t
AddResult val s lprops (some (replaced old t)) =
    (s.cnt ≡ lpt_heap_sz)
    × Holds s old
    × (val old < val lprops)
    × Joined val (λ a. a ≢ old) s lprops s.cnt t
AddResult val s lprops (some refused) =
    (s.cnt ≡ lpt_heap_sz) × (val lprops ≤ val (s.arr (bottom_pos lprops)))

Sorted-Joined :
    (val : ℕ → ℕ) (P : ℕ → Type 0) (s u t : Slots) (lprops n : ℕ)
    → u.cnt ≡ n
    → Holds u lprops
    → ((a : ℕ) → P a → Holds s a → Holds u a)
    → ((a : ℕ) → Holds u a → (a ≡ lprops) ⊎ (P a × Holds s a))
    → ((a : ℕ) → a ≢ lprops → (Holds s a → ⊥) → u.hpos a ≡ s.hpos a)
    → Sorted val u t
    → Joined val P s lprops n t
Sorted-Joined val P s u t lprops n c h f g r o = record {
  ok = record { placed = o.kept.placed; ordered = o.ordered };
  count = o.kept.same ∙ c;
  joined = (o.kept.holds lprops).0 h;
  old = λ a p k. (o.kept.holds a).0 (f a p k);
  only = λ a k. g a ((o.kept.holds a).1 k);
  others = λ a d n. o.kept.others a (λ k. elim (g a k) [ inl e ↦ d e | inr q ↦ n q.1 ]) ∙ r a d n;
}

module _ (val : ℕ → ℕ) (s : Slots) (lprops : ℕ) (ok : HeapOk val s) where
  add_to_lpt_heap-room :
      (Holds s lprops → ⊥)
      → Finds
          (Joined val (λ a. Unit) s lprops (s.cnt + 1))
          (move_up_lpt_heap val (grown s lprops) lprops)
  add_to_lpt_heap-room n =
      let u = grown s lprops in
      Finds-mono (Sorted val u) _ (move_up_lpt_heap val u lprops)
        (λ t o.
          Sorted-Joined val (λ a. Unit) s u t lprops (s.cnt + 1) refl (ground arith)
            (λ a c k. (Holds-grown val s lprops ok n a).0 k)
            (λ a k. elim ((Holds-grown val s lprops ok n a).1 k) [
              | inl e ↦ inl e
              | inr h ↦ inr (tt, h)
            ])
            (λ a d c. ground (arith, d)) o)
        (move_up_lpt_heap-Sorted val u lprops s.cnt (ground arith) (omega arith) (ground arith)
          (grown-Placed val s lprops ok n) (grown-Rising val s lprops ok))

  add_to_lpt_heap-full :
      (Holds s lprops → ⊥)
      → bottom_pos lprops < s.cnt
      → key val s (bottom_pos lprops) < val lprops
      → Finds
          (Joined val (λ a. a ≢ s.arr (bottom_pos lprops)) s lprops s.cnt)
          (move_up_lpt_heap val (seat s lprops (bottom_pos lprops)) lprops)
  add_to_lpt_heap-full n b g =
      let i = bottom_pos lprops in
      let u = seat s lprops i in
      Finds-mono (Sorted val u) _ (move_up_lpt_heap val u lprops)
        (λ t o.
          Sorted-Joined val (λ a. a ≢ s.arr i) s u t lprops s.cnt refl (ground (arith, b))
            (λ a c k. (seat-Holds val s lprops ok i b n a).1 (inr (c, k)))
            (λ a k. (seat-Holds val s lprops ok i b n a).0 k) (λ a d c. ground (arith, d)) o)
        (move_up_lpt_heap-Sorted val u lprops i (ground arith) b (ground arith)
          (seat-Placed val s lprops ok i b n)
          (seat-Rising val s lprops ok i b n (omega (arith, g))))

  added-AddResult :
      (o : Option Slots)
      → s.cnt < lpt_heap_sz
      → Finds (Joined val (λ a. Unit) s lprops (s.cnt + 1)) o
      → AddResult val s lprops (outcome added o)
  added-AddResult none b h = h
  added-AddResult (some t) b h = (b, h)

  replaced-AddResult :
      (old : ℕ) (o : Option Slots)
      → s.cnt ≡ lpt_heap_sz
      → Holds s old
      → val old < val lprops
      → Finds (Joined val (λ a. a ≢ old) s lprops s.cnt) o
      → AddResult val s lprops (outcome (replaced old) o)
  replaced-AddResult old none c i g h = h
  replaced-AddResult old (some t) c i g h = (c, i, g, h)

  -- An LEB that is not in the ordered heap, where each LEB knows its position, is added to a heap of
  -- at most lpt_heap_sz LEBs. With room,
  -- the result is the ordered heap of one LEB more. A full heap whose entry at the picked position
  -- is worth less than the LEB gives that entry up, and the result is the ordered heap with the LEB
  -- in its stead; otherwise the LEB is refused, and is worth no more than that entry. The positions
  -- of LEBs outside the heap stay.
  pub add_to_lpt_heap_lem :
      (Holds s lprops → ⊥)
      → s.cnt ≤ lpt_heap_sz
      → AddResult val s lprops (add_to_lpt_heap val lpt_heap_sz s lprops)
  unfolding add_to_lpt_heap
  add_to_lpt_heap_lem n m =
      let i = bottom_pos lprops in
      elim (Bool-cases (leb lpt_heap_sz s.cnt)) [
        | inr e ↦
            rw (e, add_to_lpt_heap) (added-AddResult _ (ground (arith, e)) (add_to_lpt_heap-room n))
        | inl e ↦
            let c : s.cnt ≡ lpt_heap_sz = ground (arith, e, m) in
            let b : i < s.cnt = omega (arith, bottom_pos-bound lprops, c) in
            elim (Bool-cases (ltb (val (s.arr i)) (val lprops))) [
              | inl g ↦
                  rw (e, g, add_to_lpt_heap)
                    (replaced-AddResult (s.arr i) _ c (ground (arith, ok.placed.at i, b))
                      (ground (arith, g)) (add_to_lpt_heap-full n b (ground (arith, g))))
              | inr g ↦ rw (e, g, add_to_lpt_heap) (c, ground (arith, g))
            ]
      ]
