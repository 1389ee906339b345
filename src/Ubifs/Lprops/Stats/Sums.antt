-- ===== src/Ubifs/Lprops/Stats/Sums.antt =====
-- lprops.c: the space statistics are sums over the LEBs.
use android_infotm_confident.Prelude.{
  ℕ, ◌+◌, ◌-◌, ◌≤◌, ◌≡◌, ap, sym, ◌∙◌, ◌==◌, ◌&&◌, ltb, if◌then◌else◌, pos, List, [], ◌∷◌, ◌++◌,
  arith,
}
use android_infotm_confident.Ubifs.Lpt.Types.{Info, Lprops}
use android_infotm_confident.Ubifs.Lprops.Stats.{LpStats, min_write_sz}

abbrev pub total : (Lprops → ℕ) → List Lprops → ℕ
total f [] = 0
total f (l ∷ ls) = f l + total f ls

-- What one LEB counts for.
module _ (c : Info) where
  abbrev pub spc : Lprops → ℕ
  spc l = l.free + l.dirty

  abbrev pub counts_empty : Lprops → ℕ
  counts_empty l = if l.free == c.leb_size then 1 else 0

  abbrev pub counts_taken : Lprops → ℕ
  counts_taken l = if l.taken && (l.free == c.leb_size) then 1 else 0

  abbrev pub used : Lprops → ℕ
  used l = if l.index then 0 else c.leb_size - spc l

  -- Space too small for any node.
  abbrev pub dead : Lprops → ℕ
  dead l = if l.index then 0 else if ltb (spc l) c.dead_wm then spc l else 0

  -- Space that may be wasted at the end of the LEB.
  abbrev pub dark_of : ℕ → ℕ
  dark_of n =
      if ltb n c.dark_wm
      then n
      else if ltb (n - c.dark_wm) min_write_sz
      then n - min_write_sz
      else c.dark_wm

  abbrev pub dark : Lprops → ℕ
  dark l = if l.index then 0 else if ltb (spc l) c.dead_wm then 0 else dark_of (spc l)

abbrev pub counts_index : Lprops → ℕ
counts_index l = if l.index then 1 else 0

pub record Sums (c : Info) (ls : List Lprops) (s : LpStats) : Type 0 where
  pub empty_lebs : s.empty_lebs ≡ pos (total (counts_empty c) ls)
  pub taken_empty_lebs : s.taken_empty_lebs ≡ pos (total (counts_taken c) ls)
  pub idx_lebs : s.idx_lebs ≡ pos (total counts_index ls)
  pub total_free : s.total_free ≡ pos (total (λ l. l.free) ls)
  pub total_dirty : s.total_dirty ≡ pos (total (λ l. l.dirty) ls)
  pub total_used : s.total_used ≡ pos (total (used c) ls)
  pub total_dead : s.total_dead ≡ pos (total (dead c) ls)
  pub total_dark : s.total_dark ≡ pos (total (dark c) ls)

total-middle :
    (f : Lprops → ℕ) (xs ys : List Lprops) (l : Lprops)
    → total f (xs ++ (l ∷ ys)) ≡ f l + (total f xs + total f ys)
total-middle f [] ys l = omega arith
total-middle f (x ∷ xs) ys l = omega (arith, total-middle f xs ys l)

-- What all other LEBs count for.
pub record Others : Type 0 where
  pub empty : ℕ
  pub taken : ℕ
  pub idx : ℕ
  pub free : ℕ
  pub dirty : ℕ
  pub used : ℕ
  pub dead : ℕ
  pub dark : ℕ

-- The statistics are those of the other LEBs and of `l`, for what does not change with its space.
pub record Bare (c : Info) (k : Others) (l : Lprops) (s : LpStats) : Type 0 where
  pub empty : s.empty_lebs ≡ pos (counts_empty c l + k.empty)
  pub taken : s.taken_empty_lebs ≡ pos k.taken
  pub idx : s.idx_lebs ≡ pos (counts_index l + k.idx)
  pub free : s.total_free ≡ pos (l.free + k.free)
  pub dirty : s.total_dirty ≡ pos (l.dirty + k.dirty)
  pub used : s.total_used ≡ pos k.used
  pub dead : s.total_dead ≡ pos k.dead
  pub dark : s.total_dark ≡ pos k.dark

pub record Whole (c : Info) (k : Others) (l : Lprops) (s : LpStats) : Type 0 where
  pub empty : s.empty_lebs ≡ pos (counts_empty c l + k.empty)
  pub taken : s.taken_empty_lebs ≡ pos (counts_taken c l + k.taken)
  pub idx : s.idx_lebs ≡ pos (counts_index l + k.idx)
  pub free : s.total_free ≡ pos (l.free + k.free)
  pub dirty : s.total_dirty ≡ pos (l.dirty + k.dirty)
  pub used : s.total_used ≡ pos (used c l + k.used)
  pub dead : s.total_dead ≡ pos (dead c l + k.dead)
  pub dark : s.total_dark ≡ pos (dark c l + k.dark)

-- An LEB has no more free and dirty space than there is.
abbrev pub Fits : Info → Lprops → Type 0
Fits c l = l.free + l.dirty ≤ c.leb_size

abbrev pub others : Info → List Lprops → List Lprops → Others
others c xs ys =
    let o = λ (f : Lprops → ℕ). total f xs + total f ys in
    record {
      empty = o (counts_empty c);
      taken = o (counts_taken c);
      idx = o counts_index;
      free = o (λ m. m.free);
      dirty = o (λ m. m.dirty);
      used = o (used c);
      dead = o (dead c);
      dark = o (dark c);
    }

module _ (c : Info) (xs ys : List Lprops) (l : Lprops) (s : LpStats) where
  at : (f : Lprops → ℕ) → pos (total f (xs ++ (l ∷ ys))) ≡ pos (f l + (total f xs + total f ys))
  at f = ap pos (total-middle f xs ys l)

  pub Sums-Whole : Sums c (xs ++ (l ∷ ys)) s → Whole c (others c xs ys) l s
  Sums-Whole h = record {
    empty = h.empty_lebs ∙ at (counts_empty c);
    taken = h.taken_empty_lebs ∙ at (counts_taken c);
    idx = h.idx_lebs ∙ at counts_index;
    free = h.total_free ∙ at (λ m. m.free);
    dirty = h.total_dirty ∙ at (λ m. m.dirty);
    used = h.total_used ∙ at (used c);
    dead = h.total_dead ∙ at (dead c);
    dark = h.total_dark ∙ at (dark c);
  }

  pub Whole-Sums : Whole c (others c xs ys) l s → Sums c (xs ++ (l ∷ ys)) s
  Whole-Sums w = record {
    empty_lebs = w.empty ∙ sym (at (counts_empty c));
    taken_empty_lebs = w.taken ∙ sym (at (counts_taken c));
    idx_lebs = w.idx ∙ sym (at counts_index);
    total_free = w.free ∙ sym (at (λ m. m.free));
    total_dirty = w.dirty ∙ sym (at (λ m. m.dirty));
    total_used = w.used ∙ sym (at (used c));
    total_dead = w.dead ∙ sym (at (dead c));
    total_dark = w.dark ∙ sym (at (dark c));
  }
