-- ===== src/Ubifs/Lprops/Tests.antt =====
-- Witnesses of the theorems about the heaps of LEB properties: an LEB is worth its address.
use android_infotm_confident.Prelude.{
  ℕ, refl, ◌==◌, if◌then◌else◌, none, some, arith, true, false, pos, [], ◌∷◌, ◌++◌,
}
use android_infotm_confident.Ubifs.Lprops.{
  Slots, adjust_lpt_heap, add_to_lpt_heap, remove_from_lpt_heap, lpt_heap_sz,
}
use android_infotm_confident.Ubifs.Lprops.Frame.{Finds}
use android_infotm_confident.Ubifs.Lprops.Members.{HeapOk}
use android_infotm_confident.Ubifs.Lprops.Heaps.{AddResult, add_to_lpt_heap_lem}
use android_infotm_confident.Ubifs.Lprops.Remove.{Left, remove_from_lpt_heap_lem}
use android_infotm_confident.Ubifs.Lprops.Category.{
  get_heap_comp_val, Categories, ubifs_ensure_cat, change_category,
}
use android_infotm_confident.Ubifs.Lprops.Shelve.{Files, Unsettled}
use android_infotm_confident.Ubifs.Lprops.Lists.{On}
use android_infotm_confident.Ubifs.Lprops.Recategorize.{Moved, change_category-Arrived}
use android_infotm_confident.Ubifs.Lprops.Filed.{Filed}
use android_infotm_confident.Ubifs.Lprops.Find.{
  MostFree, Ensured, ubifs_fast_find_free, ubifs_fast_find_free-MostFree, ubifs_ensure_cat-Ensured,
}
use android_infotm_confident.Ubifs.Lpt.Check.{ubifs_categorize_lprops}
use android_infotm_confident.Ubifs.Lprops.Change.{Adjusted, adjust_lpt_heap-Adjusted}
use android_infotm_confident.Ubifs.Lpt.Types.{Lprops}
use android_infotm_confident.Ubifs.Lpt.Sample.{tree}
use android_infotm_confident.Ubifs.Lprops.Stats.{
  LpStats, change_stats, change_free, change_dirty, change_flags, drop_space,
}
use android_infotm_confident.Ubifs.Lprops.Stats.Sums.{Sums}
use android_infotm_confident.Ubifs.Lprops.Stats.Step.{change_stats-Sums}

abbrev by_address : ℕ → ℕ
by_address a = a

-- Three LEBs, at the addresses 90, 70 and 80.
abbrev three : Slots
three = record {
  arr = λ i. if i == 0 then 90 else if i == 1 then 70 else 80;
  hpos = λ a. if a == 90 then 0 else if a == 70 then 1 else if a == 80 then 2 else 7;
  cnt = 3;
}

three-HeapOk : HeapOk by_address three
three-HeapOk = record {
  placed = record { at = λ i b. ground (arith, b) };
  ordered = record { at = λ i a b. ground (arith, a, b) };
}

add_to_lpt_heap_lem_example :
    AddResult by_address three 95 (add_to_lpt_heap by_address lpt_heap_sz three 95)
add_to_lpt_heap_lem_example =
    add_to_lpt_heap_lem by_address three 95 three-HeapOk (λ h. absurd (omega (arith, h.0)))
      (omega arith)

remove_from_lpt_heap_lem_example :
    Finds (Left by_address three 90) (remove_from_lpt_heap by_address three 90)
remove_from_lpt_heap_lem_example =
    remove_from_lpt_heap_lem by_address by_address three 90 three-HeapOk (λ a n. refl)
      (omega arith, refl)

-- The LEB at the top is used up.
abbrev used : ℕ → ℕ
used a = if a == 90 then 0 else a

adjust_lpt_heap-Adjusted_example :
    Finds (Adjusted used three) (adjust_lpt_heap used three 90 (three.hpos 90))
adjust_lpt_heap-Adjusted_example =
    adjust_lpt_heap-Adjusted by_address used three 90 three-HeapOk (omega arith, refl)
      (λ a n. ground (arith, n))

-- Three LEBs: one empty and taken, one of the index, one with data.
abbrev empty_leb : Lprops
empty_leb = record {
  free = 126976;
  dirty = 0;
  index = false;
  taken = true;
  category = 0;
  lnum = 20;
}

abbrev index_leb : Lprops
index_leb = record {
  free = 1000;
  dirty = 800;
  index = true;
  taken = false;
  category = 2;
  lnum = 21;
}

abbrev data_leb : Lprops
data_leb = record { free = 4096; dirty = 8; index = false; taken = false; category = 3; lnum = 22 }

abbrev lst : LpStats
lst = record {
  empty_lebs = pos 1;
  taken_empty_lebs = pos 1;
  idx_lebs = pos 1;
  total_free = pos 132072;
  total_dirty = pos 808;
  total_used = pos 122872;
  total_dead = pos 0;
  total_dark = pos 12296;
}

lst-Sums : Sums tree ((index_leb ∷ data_leb ∷ []) ++ (empty_leb ∷ [])) lst
lst-Sums = record {
  empty_lebs = refl;
  taken_empty_lebs = refl;
  idx_lebs = refl;
  total_free = refl;
  total_dirty = refl;
  total_used = refl;
  total_dead = refl;
  total_dark = refl;
}

-- Data is written to the empty LEB.
change_stats-Sums_example :
    Sums tree
      ((index_leb ∷ data_leb ∷ [])
        ++ ((change_stats tree (some 65536) none none empty_leb lst).0 ∷ []))
      (change_stats tree (some 65536) none none empty_leb lst).1
change_stats-Sums_example =
    change_stats-Sums tree (some 65536) none none (index_leb ∷ data_leb ∷ []) [] empty_leb lst
      (omega arith) (omega arith)
      (unfold change_stats drop_space change_free change_dirty change_flags in omega arith) lst-Sums

-- One LEB at the address 160, in the heap of free space; most of it has become dirty.
abbrev one_leb : Categories
one_leb = record {
  props = λ a. record {
    free = 2048;
    dirty = 4096;
    index = false;
    taken = false;
    category = 3;
    lnum = 23;
  };
  hpos = λ a. 0;
  heap_arr = λ k i. 160;
  heap_cnt = λ k. if k == 3 then 1 else 0;
  lists = λ k. [];
  freeable_cnt = pos 0;
}

one_leb-Unsettled : Unsettled one_leb 160 3
one_leb-Unsettled = record {
  but = record {
    heaps = λ k h n. record {
      placed = record { at = λ i b. ground (arith, b, n) };
      ordered = record { at = λ i a b. ground (arith, a, b, n) };
    };
    own = λ k a h g. ground (arith, g);
    room = λ k h. ground arith;
  };
  shelved = ((λ h. (omega arith, refl)), λ h. absurd (ground (arith, h)));
  old = λ a. 2048;
  heap = λ h. record {
    placed = record { at = λ i b. ground (arith, b) };
    ordered = record { at = λ i a b. ground (arith, a, b) };
  };
  same = λ a n. (unfold get_heap_comp_val in refl);
}

one_leb-On : On 160 one_leb
one_leb-On = (
  record { once = λ k a g. omega arith; own = λ k a g h. absurd (omega (arith, h)) },
  λ k g. ground (arith, g),
)

change_category-Arrived_example :
    Files
      (Moved 160 (ubifs_categorize_lprops tree (one_leb.props 160)) one_leb)
      (change_category tree one_leb 160)
change_category-Arrived_example =
    change_category-Arrived tree one_leb 160 one_leb-Unsettled one_leb-On

-- The LEB of before, and the same one without a category.
one_leb-Filed : Filed one_leb
one_leb-Filed = record {
  heaps = λ k h. record {
    placed = record { at = λ i b. ground (arith, b) };
    ordered = record { at = λ i a b. ground (arith, a, b) };
  };
  own = λ k a h g. ground (arith, g);
  room = λ k h. ground arith;
}

ubifs_fast_find_free-MostFree_example : MostFree one_leb (ubifs_fast_find_free one_leb)
ubifs_fast_find_free-MostFree_example = ubifs_fast_find_free-MostFree one_leb one_leb-Filed

abbrev fallen : Categories
fallen = record one_leb {
  props = λ a. record {
    free = 2048;
    dirty = 4096;
    index = false;
    taken = false;
    category = 0;
    lnum = 23;
  };
  heap_cnt = λ k. 0;
  lists = λ k. if k == 0 then 160 ∷ [] else [];
}

fallen-Filed : Filed fallen
fallen-Filed = record {
  heaps = λ k h. record {
    placed = record { at = λ i b. absurd (omega (arith, b)) };
    ordered = record { at = λ i a b. absurd (omega (arith, b)) };
  };
  own = λ k a h g. absurd (omega (arith, g.0));
  room = λ k h. omega arith;
}

fallen-On : On 160 fallen
fallen-On = (
  record { once = λ k a g. ground arith; own = λ k a g h. ground (arith, h) },
  λ k g. ground arith,
)

ubifs_ensure_cat-Ensured_example :
    Files (Ensured tree fallen 160) (ubifs_ensure_cat tree fallen 160)
ubifs_ensure_cat-Ensured_example =
    ubifs_ensure_cat-Ensured tree fallen 160 fallen-Filed
      ((λ h. absurd (ground (arith, h))), λ h k b g. omega (arith, g.0)) fallen-On
