-- ===== src/Ubifs/Lprops/Members.antt =====
-- lprops.c: what an LEB that comes or goes changes of a heap.
use android_infotm_confident.Prelude.{
  ℕ, ◌+◌, ◌-◌, ◌<◌, ◌≤◌, ◌≡◌, ◌≢◌, ◌==◌, arith, Bool-cases, inl, inr, ◌⊎◌,
}
use android_infotm_confident.Ubifs.Lprops.{Slots, seat}
use android_infotm_confident.Ubifs.Lprops.Frame.{Placed, Holds}
use android_infotm_confident.Ubifs.Lprops.Sift.{key, Ordered, Rising, Loose}

-- Every LEB of the heap knows its place, and none is worth more than its parent.
pub record HeapOk (val : ℕ → ℕ) (s : Slots) : Type 0 where
  pub placed : Placed s
  pub ordered : Ordered val s

-- A LEB more in the heap.
abbrev pub grown : Slots → ℕ → Slots
grown s lprops = record (seat s lprops s.cnt) { cnt = s.cnt + 1 }

module _ (val : ℕ → ℕ) (s : Slots) (lprops : ℕ) (ok : HeapOk val s) where
  pub grown-Placed : ((Holds s lprops) → ⊥) → Placed (grown s lprops)
  grown-Placed n = record { at = λ i h. ground (arith, ok.placed.at i, n) }

  pub grown-Rising : Rising val (grown s lprops) s.cnt
  grown-Rising = record {
    others = λ i a b n. ground (arith, ok.ordered.at i a);
    below = λ i a b e p. ground (arith, a, b, e);
  }

  pub Holds-grown :
      ((Holds s lprops) → ⊥)
      → (a : ℕ)
      → (Holds s a → Holds (grown s lprops) a)
        × (Holds (grown s lprops) a → (a ≡ lprops) ⊎ Holds s a)
  Holds-grown n a = (λ h. ground (arith, n, h), λ h. ground (arith, h))

  -- Another LEB at the place of one that is worth less.
  module _ (i : ℕ) (within : i < s.cnt) (fresh : (Holds s lprops) → ⊥) where
    pub seat-Placed : Placed (seat s lprops i)
    seat-Placed = record { at = λ j h. ground (arith, ok.placed.at j, fresh) }

    pub seat-Rising : key val s i ≤ val lprops → Rising val (seat s lprops i) i
    seat-Rising g = record {
      others = λ j a b n. ground (arith, ok.ordered.at j a b, g);
      below = λ j a b e p. ground (arith, ok.ordered.at j a b, ok.ordered.at i p);
    }

    pub seat-Holds :
        (a : ℕ)
        → (Holds (seat s lprops i) a → (a ≡ lprops) ⊎ ((a ≢ s.arr i) × Holds s a))
          × ((a ≡ lprops) ⊎ ((a ≢ s.arr i) × Holds s a) → Holds (seat s lprops i) a)
    seat-Holds a = (
      (λ h. elim (Bool-cases (a == lprops)) [
        | inl e ↦ inl (ground (arith, e))
        | inr e ↦
            inr ((λ c. absurd (ground (arith, e, c, h, ok.placed.at i))), ground (arith, e, h))
      ]),
      λ h. elim h [ inl e ↦ ground (arith, e) | inr (n, k) ↦ ground (arith, n, k, fresh) ],
    )

  -- The last LEB at the place of one that goes.
  abbrev pub shrunk : Slots
  shrunk = record (seat s (s.arr (s.cnt - 1)) (s.hpos lprops)) { cnt = s.cnt - 1 }

  module _ (inside : Holds s lprops) where
    pub shrunk-Placed : s.hpos lprops < s.cnt - 1 → Placed shrunk
    shrunk-Placed b = record {
      at = λ j h. ground (arith, ok.placed.at j, ok.placed.at (s.cnt - 1), inside);
    }

    pub shrunk-Loose : s.hpos lprops < s.cnt - 1 → Loose val shrunk (s.hpos lprops)
    shrunk-Loose b = record {
      others = λ j a h n m. ground (arith, ok.ordered.at j a);
      below = λ j a h e p. ground (arith, ok.ordered.at j a, ok.ordered.at (s.hpos lprops) p);
    }

    pub shrunk-Holds :
        s.hpos lprops < s.cnt - 1
        → (a : ℕ)
        → (Holds shrunk a → (a ≢ lprops) × Holds s a) × ((a ≢ lprops) × Holds s a → Holds shrunk a)
    shrunk-Holds b a = (
      (λ h. (
        (λ e. ground (arith, e, h, inside, ok.placed.at (s.cnt - 1))),
        ground (arith, h, inside, ok.placed.at (s.cnt - 1)),
      )),
      λ h. ground (arith, h, inside, ok.placed.at (s.cnt - 1)),
    )
