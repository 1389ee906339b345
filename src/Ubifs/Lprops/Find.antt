-- ===== src/Ubifs/Lprops/Find.antt =====
-- lprops.c: the fast searches, and ubifs_ensure_cat.
use mathlib.Core.Path.{subst}
use android_infotm_confident.Prelude.{
  ℕ, ◌<◌, ◌≤◌, ◌≡◌, ◌≢◌, refl, ap, Bool, true, false, ◌==◌, if◌then◌else◌, arith, Bool-cases, inl,
  inr, ◌⊎◌, Option, none, some, List, [], ◌∷◌,
}
use android_infotm_confident.Ubifs.Lpt.Types.{
  Info, lprops_uncat, lprops_free, lprops_empty, lprops_freeable, lprops_frdi_idx,
}
use android_infotm_confident.Ubifs.Lpt.Check.{ubifs_categorize_lprops}
use android_infotm_confident.Ubifs.Lprops.Frame.{Holds}
use android_infotm_confident.Ubifs.Lprops.Change.{top_below}
use android_infotm_confident.Ubifs.Lprops.Category.{
  Categories, heap_of, worth, get_heap_comp_val, ubifs_ensure_cat, ubifs_remove_from_cat,
}
use android_infotm_confident.Ubifs.Lprops.Filed.{Filed, Filed-FiledBut}
use android_infotm_confident.Ubifs.Lprops.Shelve.{
  Files, Unsettled, Shelved, ubifs_remove_from_cat-Taken,
}
use android_infotm_confident.Ubifs.Lprops.Stay.{ubifs_remove_from_cat-Stays}
use android_infotm_confident.Ubifs.Lprops.Others.{moved-Others}
use android_infotm_confident.Ubifs.Lprops.Lists.{On, OnList, moved-On, ubifs_remove_from_cat-Off}
use android_infotm_confident.Ubifs.Lprops.Recategorize.{moved-Arrived, Moved, all_of}

-- `none` is the return of NULL.
unfoldable pub ubifs_fast_find_free : Categories → Option ℕ
ubifs_fast_find_free c =
    if c.heap_cnt lprops_free == 0 then none else some (c.heap_arr lprops_free 0)

-- The entry of a list that list_entry gives for its head's `next`.
abbrev pub first_entry : List ℕ → Option ℕ
first_entry [] = none
first_entry (a ∷ l) = some a

unfoldable pub ubifs_fast_find_empty : Categories → Option ℕ
ubifs_fast_find_empty c = first_entry (c.lists lprops_empty)

unfoldable pub ubifs_fast_find_freeable : Categories → Option ℕ
ubifs_fast_find_freeable c = first_entry (c.lists lprops_freeable)

unfoldable pub ubifs_fast_find_frdi_idx : Categories → Option ℕ
ubifs_fast_find_frdi_idx c = first_entry (c.lists lprops_frdi_idx)

-- The LEB of the heap of free space with the most of it, if there is one.
abbrev pub MostFree : Categories → Option ℕ → Type 0
MostFree c none = (a : ℕ) → Holds (heap_of c lprops_free) a → ⊥
MostFree c (some b) =
    Holds (heap_of c lprops_free) b
    × ((c.props b).category ≡ lprops_free)
    × ((a : ℕ) → Holds (heap_of c lprops_free) a → (c.props a).free ≤ (c.props b).free)

top_free :
    (c : Categories)
    → Filed c
    → (a : ℕ) → Holds (heap_of c lprops_free) a
    → (c.props a).free ≤ (c.props (c.heap_arr lprops_free 0)).free
unfolding get_heap_comp_val
top_free c f a (b, e) =
    let o = f.heaps lprops_free refl in
    ground (
      arith,
      e,
      top_below _ (heap_of c lprops_free) (c.hpos a) (c.hpos a) o.ordered (omega arith) b,
    )

-- Where all heaps are in order (no entry is worth more than its parent, each LEB knows its position,
-- and is of the heap's category), ubifs_fast_find_free finds an LEB of the category of free space with
-- the most free space of all LEBs in its heap, and nothing exactly where that heap is empty.
pub ubifs_fast_find_free-MostFree : (c : Categories) → Filed c → MostFree c (ubifs_fast_find_free c)
unfolding ubifs_fast_find_free
ubifs_fast_find_free-MostFree c f = elim (Bool-cases (c.heap_cnt lprops_free == 0)) [
  | inl e ↦ rw (e, ubifs_fast_find_free) λ a h. ground (arith, e, h)
  | inr e ↦
      let o = f.heaps lprops_free refl in
      let first : 0 < c.heap_cnt lprops_free = ground (arith, e) in
      let at = o.placed.at 0 first in
      let held : Holds (heap_of c lprops_free) (c.heap_arr lprops_free 0) =
        (omega (arith, at, first), ap (c.heap_arr lprops_free) at) in
      rw (e, ubifs_fast_find_free) (held, f.own lprops_free _ refl held, top_free c f)
]

-- What ubifs_ensure_cat leaves of an LEB.
abbrev pub Ensured : Info → Categories → ℕ → Categories → Type 0
Ensured i c l d =
    ((d ≡ c)
      × (((c.props l).category ≢ lprops_uncat)
          ⊎ (ubifs_categorize_lprops i (c.props l) ≡ lprops_uncat)))
    ⊎ (((c.props l).category ≡ lprops_uncat) × Moved l (ubifs_categorize_lprops i (c.props l)) c d)

ensured :
    (i : Info) (c : Categories) (l : ℕ) (o : Option Categories)
    → (c.props l).category ≡ lprops_uncat
    → Files (Moved l (ubifs_categorize_lprops i (c.props l)) c) o
    → Files (Ensured i c l) o
ensured i c l none e h = h
ensured i c l (some d) e h = inr (e, h)

chosen :
    (i : Info) (c : Categories) (l : ℕ) (b : Bool) (o : Option Categories)
    → (ubifs_categorize_lprops i (c.props l) == lprops_uncat) ≡ b
    → (c.props l).category ≡ lprops_uncat
    → Files (Moved l (ubifs_categorize_lprops i (c.props l)) c) o
    → Files (Ensured i c l) (if b then some c else o)
chosen i c l true o g e h = inl (refl, inr (ground (arith, g)))
chosen i c l false o g e h = ensured i c l o e h

uncat-Unsettled :
    (c : Categories) (l : ℕ)
    → Filed c
    → Shelved c l (c.props l).category
    → (c.props l).category ≡ lprops_uncat
    → Unsettled c l lprops_uncat
uncat-Unsettled c l f s q = record {
  but = Filed-FiledBut c lprops_uncat f;
  shelved = subst (Shelved c l) q s;
  old = worth c lprops_uncat;
  heap = λ h. absurd (ground (arith, h));
  same = λ a n. refl;
}

-- Where all heaps are in order (no entry is worth more than its parent, each LEB knows its
-- position and is of the heap's category, and there are at most LPT_HEAP_SZ), each list holds LEBs of
-- its own category only, and none twice, and the LEB stands in the heap of its category, or once on
-- the list of it, and nowhere else, ubifs_ensure_cat ends. It changes nothing where the LEB has a
-- category, or where ubifs_categorize_lprops gives it none; otherwise the LEB comes to the category
-- that this gives, or has none, and the heap of that category has LPT_HEAP_SZ LEBs, and the entry
-- picked to give way is worth no less. It then stands in the heap of the category it is in, or once on
-- the list of that, and on no other list, and the heaps and the lists are as they were required to be.
-- Each other LEB keeps its category and its places, but for one of that category that was worth less
-- and gave way: it has no category now, and stands once on the list of the uncategorized, and on no
-- other.
pub ubifs_ensure_cat-Ensured :
    (i : Info) (c : Categories) (l : ℕ)
    → Filed c
    → Shelved c l (c.props l).category
    → On l c
    → Files (Ensured i c l) (ubifs_ensure_cat i c l)
unfolding ubifs_ensure_cat
ubifs_ensure_cat-Ensured i c l f s o = elim (Bool-cases ((c.props l).category == lprops_uncat)) [
  | inr e ↦ rw (e, ubifs_ensure_cat) (inl (refl, inl (ground (arith, e))))
  | inl e ↦
      let q : (c.props l).category ≡ lprops_uncat = ground (arith, e) in
      let u = uncat-Unsettled c l f s q in
      let cat = ubifs_categorize_lprops i (c.props l) in
      let left = ubifs_remove_from_cat c l lprops_uncat in
      let taken = ubifs_remove_from_cat-Taken c l lprops_uncat u in
      let off = ubifs_remove_from_cat-Off c l lprops_uncat (o.0) (subst (OnList c l) q (o.1)) in
      rw (e, ubifs_ensure_cat)
        (chosen i c l (cat == lprops_uncat) _ refl q (
          all_of l cat c _ (moved-Arrived l cat c left taken) (moved-On l cat c left taken off) (
            moved-Others l cat c left taken off
              (λ a n. ubifs_remove_from_cat-Stays c l lprops_uncat a u n))))
]
