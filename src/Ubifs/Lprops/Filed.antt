-- ===== src/Ubifs/Lprops/Filed.antt =====
-- lprops.c: the heaps of all categories at once. They share the `hpos` of the LEBs.
use mathlib.Core.Path.{subst}
use android_infotm_confident.Prelude.{
  ℕ, ◌<◌, ◌≤◌, ◌≡◌, ◌≢◌, ap, sym, ◌∙◌, true, false, ◌==◌, if◌then◌else◌, arith, Bool-cases, inl,
  inr, ◌⊎◌,
}
use android_infotm_confident.Ubifs.Lprops.{Slots, lpt_heap_sz, parent}
use android_infotm_confident.Ubifs.Lprops.Frame.{Holds}
use android_infotm_confident.Ubifs.Lprops.Members.{HeapOk}
use android_infotm_confident.Ubifs.Lprops.Category.{
  Categories, heap_of, set_heap, worth, is_heap, get_heap_comp_val, set_category,
}

-- Each heap is in order and not too long, and holds LEBs of its own category only.
pub record Filed (c : Categories) : Type 0 where
  pub heaps : (k : ℕ) → is_heap k ≡ true → HeapOk (worth c k) (heap_of c k)
  pub own : (k a : ℕ) → is_heap k ≡ true → Holds (heap_of c k) a → (c.props a).category ≡ k
  pub room : (k : ℕ) → is_heap k ≡ true → c.heap_cnt k ≤ lpt_heap_sz

-- The same, but for the order of the heap of one category.
pub record FiledBut (c : Categories) (cat : ℕ) : Type 0 where
  pub heaps : (k : ℕ) → is_heap k ≡ true → k ≢ cat → HeapOk (worth c k) (heap_of c k)
  pub own : (k a : ℕ) → is_heap k ≡ true → Holds (heap_of c k) a → (c.props a).category ≡ k
  pub room : (k : ℕ) → is_heap k ≡ true → c.heap_cnt k ≤ lpt_heap_sz

pub Filed-FiledBut : (c : Categories) (cat : ℕ) → Filed c → FiledBut c cat
Filed-FiledBut c cat f = record { heaps = λ k h n. f.heaps k h; own = f.own; room = f.room }

-- The LEB is in no heap.
abbrev pub Loosened : Categories → ℕ → Type 0
Loosened c a = (k : ℕ) → is_heap k ≡ true → Holds (heap_of c k) a → ⊥

-- A category is worth nothing.
pub worth-set_category :
    (c : Categories) (a x k b : ℕ) → worth (set_category c a x) k b ≡ worth c k b
unfolding get_heap_comp_val
worth-set_category c a x k b = ground arith

pub HeapOk-worth :
    (val new : ℕ → ℕ) (s : Slots) → ((a : ℕ) → new a ≡ val a) → HeapOk val s → HeapOk new s
HeapOk-worth val new s e h = record {
  placed = h.placed;
  ordered = record {
    at = λ i a b. ground (arith, e (s.arr i), e (s.arr (parent i)), h.ordered.at i a b);
  };
}

-- The worth of an LEB outside the heap does not matter.
pub HeapOk-outside :
    (val new : ℕ → ℕ) (s : Slots) (l : ℕ)
    → HeapOk val s
    → ((a : ℕ) → a ≢ l → new a ≡ val a)
    → (Holds s l → ⊥)
    → HeapOk new s
HeapOk-outside val new s l h same out =
    let at : (i : ℕ) → i < s.cnt → new (s.arr i) ≡ val (s.arr i) =
      λ i b. same (s.arr i) (λ e. out (ground (arith, e, b, h.placed.at i b))) in
    record {
      placed = h.placed;
      ordered = record { at = λ i a b. ground (arith, at i b, at (parent i), h.ordered.at i a b) };
    }

-- A heap whose LEBs keep their positions.
module _ (val : ℕ → ℕ) (s : Slots) (hpos : ℕ → ℕ) (h : HeapOk val s)
    (keep : (a : ℕ) → Holds s a → hpos a ≡ s.hpos a) where
  pub aside-HeapOk : HeapOk val (record s { hpos = hpos })
  aside-HeapOk = record {
    placed = record { at = λ i b. ground (arith, h.placed.at i b, keep (s.arr i)) };
    ordered = record { at = λ i a b. h.ordered.at i a b };
  }

  pub Holds-aside : (a : ℕ) → Holds (record s { hpos = hpos }) a → Holds s a
  Holds-aside a k = ground (arith, k, h.placed.at (hpos a))

pub heap_of-same :
    (c : Categories) (k cat : ℕ) (t : Slots) → (k == cat) ≡ true → heap_of (set_heap c cat t) k ≡ t
heap_of-same c k cat t e =
    ap
      (λ b. record {
        arr = if b then t.arr else c.heap_arr k;
        hpos = t.hpos;
        cnt = if b then t.cnt else c.heap_cnt k;
      })
      e

heap_of-other :
    (c : Categories) (k cat : ℕ) (t : Slots)
    → (k == cat) ≡ false
    → heap_of (set_heap c cat t) k ≡ record (heap_of c k) { hpos = t.hpos }
heap_of-other c k cat t e =
    ap
      (λ b. record {
        arr = if b then t.arr else c.heap_arr k;
        hpos = t.hpos;
        cnt = if b then t.cnt else c.heap_cnt k;
      })
      e

-- The heap of one category becomes `t`, where `l` came or went and no other LEB is moved.
module _ (c : Categories) (cat l : ℕ) (t : Slots) (f : FiledBut c cat) (hc : is_heap cat ≡ true)
    (nowhere : (k : ℕ) → is_heap k ≡ true → k ≢ cat → Holds (heap_of c k) l → ⊥)
    (frame : (a : ℕ) → a ≢ l → (Holds (heap_of c cat) a → ⊥) → t.hpos a ≡ c.hpos a) where
  keeps_other : (k a : ℕ) → is_heap k ≡ true → k ≢ cat → Holds (heap_of c k) a → t.hpos a ≡ c.hpos a
  keeps_other k a hk n h =
      frame a (λ e. nowhere k hk n (subst (Holds (heap_of c k)) e h))
        (λ g. n (sym (f.own k a hk h) ∙ f.own cat a hc g))

  pub set_heap-HeapOk :
      HeapOk (worth c cat) t
      → (k : ℕ) → is_heap k ≡ true
      → HeapOk (worth c k) (heap_of (set_heap c cat t) k)
  set_heap-HeapOk ok k hk = elim (Bool-cases (k == cat)) [
    | inl e ↦
        let q : k ≡ cat = ground (arith, e) in
        subst (HeapOk (worth c k)) (sym (heap_of-same c k cat t e))
          (subst (λ j. HeapOk (worth c j) t) (sym q) ok)
    | inr e ↦ subst (HeapOk (worth c k)) (sym (heap_of-other c k cat t e)) (
        aside-HeapOk (worth c k) (heap_of c k) t.hpos (f.heaps k hk (ground (arith, e)))
          (λ a h. keeps_other k a hk (ground (arith, e)) h))
  ]

  pub set_heap-Holds :
      (k a : ℕ)
      → is_heap k ≡ true
      → Holds (heap_of (set_heap c cat t) k) a
      → ((k ≡ cat) × Holds t a) ⊎ ((k ≢ cat) × Holds (heap_of c k) a)
  set_heap-Holds k a hk h = elim (Bool-cases (k == cat)) [
    | inl e ↦ inl (ground (arith, e), subst (λ s. Holds s a) (heap_of-same c k cat t e) h)
    | inr e ↦
        let n : k ≢ cat = ground (arith, e) in
        inr (
          n,
          Holds-aside (worth c k) (heap_of c k) t.hpos (f.heaps k hk n)
              (λ b g. keeps_other k b hk n g) a
              (subst (λ s. Holds s a) (heap_of-other c k cat t e) h),
        )
  ]

  -- The other LEBs that the new heap keeps stay where they are.
  pub Holds-set_heap :
      (k a : ℕ)
      → is_heap k ≡ true
      → (Holds (heap_of c cat) a → Holds t a)
      → Holds (heap_of c k) a
      → Holds (heap_of (set_heap c cat t) k) a
  Holds-set_heap k a hk keep h = elim (Bool-cases (k == cat)) [
    | inl e ↦
        let q : k ≡ cat = ground (arith, e) in
        subst (λ s. Holds s a) (sym (heap_of-same c k cat t e))
          (keep (subst (λ j. Holds (heap_of c j) a) q h))
    | inr e ↦
        let m = keeps_other k a hk (ground (arith, e)) h in
        subst (λ s. Holds s a) (sym (heap_of-other c k cat t e)) (ground (arith, h, m))
  ]

  pub set_heap-room :
      t.cnt ≤ lpt_heap_sz → (k : ℕ) → is_heap k ≡ true → (set_heap c cat t).heap_cnt k ≤ lpt_heap_sz
  set_heap-room b k hk = ground (arith, b, f.room k hk)
