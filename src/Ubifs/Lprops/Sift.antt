-- ===== src/Ubifs/Lprops/Sift.antt =====
-- lprops.c: one step up or down a heap that is ordered but for one entry.
use android_infotm_confident.Prelude.{ℕ, ◌<◌, ◌≤◌, ◌≡◌, ◌≢◌, arith}
use android_infotm_confident.Ubifs.Lprops.{Slots, move, parent}

module _ (val : ℕ → ℕ) where
  abbrev pub key : Slots → ℕ → ℕ
  key s i = val (s.arr i)

  -- No entry is greater than its parent.
  pub record Ordered (s : Slots) : Type 0 where
    pub at : (i : ℕ) → 0 < i → i < s.cnt → key s i ≤ key s (parent i)

  -- The entry at `h` may be greater than its parent.
  pub record Rising (s : Slots) (h : ℕ) : Type 0 where
    pub others : (i : ℕ) → 0 < i → i < s.cnt → i ≢ h → key s i ≤ key s (parent i)
    pub below : (i : ℕ) → 0 < i → i < s.cnt → parent i ≡ h → 0 < h → key s i ≤ key s (parent h)

  -- The entry at `h` may be less than its children.
  pub record Sinking (s : Slots) (h : ℕ) : Type 0 where
    pub others : (i : ℕ) → 0 < i → i < s.cnt → parent i ≢ h → key s i ≤ key s (parent i)
    pub below : (i : ℕ) → 0 < i → i < s.cnt → parent i ≡ h → 0 < h → key s i ≤ key s (parent h)

  -- The entry at `h` may be anything.
  pub record Loose (s : Slots) (h : ℕ) : Type 0 where
    pub others : (i : ℕ) → 0 < i → i < s.cnt → i ≢ h → parent i ≢ h → key s i ≤ key s (parent i)
    pub below : (i : ℕ) → 0 < i → i < s.cnt → parent i ≡ h → 0 < h → key s i ≤ key s (parent h)

  pub Loose-Rising :
      (s : Slots) (h : ℕ) → Loose s h → 0 < h → key s (parent h) < key s h → Rising s h
  Loose-Rising s h l p g = record {
    others = λ i a b c. ground (arith, l.others i a b c, l.below i a b);
    below = l.below;
  }

  pub Loose-Sinking :
      (s : Slots) (h : ℕ) → Loose s h → (0 < h → key s h ≤ key s (parent h)) → Sinking s h
  Loose-Sinking s h l g = record {
    others = λ i a b c. ground (arith, g, l.others i a b);
    below = l.below;
  }

  pub Rising-top : (s : Slots) → Rising s 0 → Ordered s
  Rising-top s r = record { at = λ i a b. r.others i a b (omega (arith, a)) }

  pub Rising-done : (s : Slots) (h : ℕ) → Rising s h → key s h ≤ key s (parent h) → Ordered s
  Rising-done s h r g = record { at = λ i a b. ground (arith, g, r.others i a b) }

  pub Rising-step :
      (s : Slots) (lprops h : ℕ)
      → Rising s h
      → 0 < h
      → h < s.cnt
      → s.arr h ≡ lprops
      → key s (parent h) < val lprops
      → Rising (move s lprops h (parent h)) (parent h)
  Rising-step s lprops h r p b e g = record {
    others = λ i c d n. ground (arith, r.others i c d, r.below i c d);
    below = λ i c d n m. ground (arith, r.others i c d, r.others (parent h));
  }

  pub Sinking-step :
      (s : Slots) (lprops h c : ℕ)
      → Sinking s h
      → parent c ≡ h
      → 0 < c
      → c < s.cnt
      → s.arr h ≡ lprops
      → val lprops < key s c
      → ((i : ℕ) → 0 < i → i < s.cnt → parent i ≡ h → key s i ≤ key s c)
      → Sinking (move s lprops h c) c
  Sinking-step s lprops h c r q p b e g top = record {
    others = λ i a d n. ground (arith, r.others i a d, r.below c p b q, top i a d);
    below = λ i a d n m. ground (arith, r.others i a d);
  }

  pub Sinking-done :
      (s : Slots) (h : ℕ)
      → Sinking s h
      → ((i : ℕ) → 0 < i → i < s.cnt → parent i ≡ h → key s i ≤ key s h)
      → Ordered s
  Sinking-done s h r g = record { at = λ i a b. ground (arith, r.others i a b, g i a b) }
