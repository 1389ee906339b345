-- ===== src/Ubifs/Lprops/Frame.antt =====
-- lprops.c: which LEBs a heap holds, and that they know their positions.
use android_infotm_confident.Prelude.{ℕ, ◌<◌, ◌≡◌, ◌≢◌, refl, ◌∙◌, arith}
use android_infotm_confident.Prelude.{Option, none, some}
use android_infotm_confident.Ubifs.Lprops.{Slots, move}

-- Each LEB of the heap has its position in `hpos`.
pub record Placed (s : Slots) : Type 0 where
  pub at : (i : ℕ) → i < s.cnt → s.hpos (s.arr i) ≡ i

-- The LEB at an address is in the heap.
abbrev pub Holds : Slots → ℕ → Type 0
Holds s a = (s.hpos a < s.cnt) × (s.arr (s.hpos a) ≡ a)

module _ (s : Slots) (lprops from to : ℕ) (p : Placed s) (hf : from < s.cnt) (ht : to < s.cnt)
    (ne : from ≢ to) (here : s.arr from ≡ lprops) where
  pub move-Placed : Placed (move s lprops from to)
  move-Placed = record { at = λ i h. ground (arith, p.at i, p.at from, p.at to) }

  pub move-Holds : (a : ℕ) → Holds s a → Holds (move s lprops from to) a
  move-Holds a h = ground (arith, p.at from, p.at to)

  pub move-others : (a : ℕ) → (Holds s a → ⊥) → (move s lprops from to).hpos a ≡ s.hpos a
  move-others a n = ground (arith, p.at from, p.at to, n)

  pub Holds-move : (a : ℕ) → Holds (move s lprops from to) a → Holds s a
  Holds-move a h = ground (arith, p.at from, p.at to)

-- The same LEBs in the same number of places, where each knows its own. No other LEB is moved.
pub record Kept (s t : Slots) : Type 0 where
  pub same : t.cnt ≡ s.cnt
  pub placed : Placed t
  pub holds : (a : ℕ) → (Holds s a → Holds t a) × (Holds t a → Holds s a)
  pub others : (a : ℕ) → (Holds s a → ⊥) → t.hpos a ≡ s.hpos a

pub Kept-refl : (s : Slots) → Placed s → Kept s s
Kept-refl s p = record {
  same = refl;
  placed = p;
  holds = λ a. ((λ h. h), (λ h. h));
  others = λ a n. refl;
}

pub Kept-trans : (s t u : Slots) → Kept s t → Kept t u → Kept s u
Kept-trans s t u k l = record {
  same = l.same ∙ k.same;
  placed = l.placed;
  holds = λ a. ((λ h. (l.holds a).0 ((k.holds a).0 h)), (λ h. (k.holds a).1 ((l.holds a).1 h)));
  others = λ a n. l.others a (λ h. n ((k.holds a).1 h)) ∙ k.others a n;
}

-- A result, in `P`.
abbrev pub Finds : (Slots → Type 0) → Option Slots → Type 0
Finds P none = ⊥
Finds P (some t) = P t

pub Finds-mono :
    (P Q : Slots → Type 0) (o : Option Slots) → ((t : Slots) → P t → Q t) → Finds P o → Finds Q o
Finds-mono P Q none k h = h
Finds-mono P Q (some t) k h = k t h

pub move-Kept :
    (s : Slots) (lprops from to : ℕ)
    → Placed s
    → from < s.cnt
    → to < s.cnt
    → from ≢ to
    → s.arr from ≡ lprops
    → Kept s (move s lprops from to)
move-Kept s lprops from to p hf ht ne here = record {
  same = refl;
  placed = move-Placed s lprops from to p hf ht ne here;
  holds = λ a. (
    move-Holds s lprops from to p hf ht ne here a,
    Holds-move s lprops from to p hf ht ne here a,
  );
  others = λ a n. move-others s lprops from to p hf ht ne here a n;
}
