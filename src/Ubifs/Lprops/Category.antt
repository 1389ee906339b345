-- ===== src/Ubifs/Lprops/Category.antt =====
-- lprops.c: the categories of LEBs, three of them heaps and four of them lists.
use android_infotm_confident.Prelude.{
  ℕ, ◌+◌, Bool, not, ◌==◌, ◌||◌, if◌then◌else◌, List, [], ◌∷◌, Option, none, some, ℤ, pos, ◌+ℤ◌,
  negsuc,
}
use android_infotm_confident.Ubifs.Lpt.Types.{
  Info, Lprops, lprops_uncat, lprops_empty, lprops_frdi_idx, lprops_dirty, lprops_dirty_idx,
  lprops_free, lprops_freeable,
}
use android_infotm_confident.Ubifs.Lpt.Check.{ubifs_categorize_lprops}
use android_infotm_confident.Ubifs.Lprops.{
  Slots, Added, added, replaced, refused, add_to_lpt_heap, remove_from_lpt_heap, adjust_lpt_heap,
  lpt_heap_sz,
}

unfoldable pub get_heap_comp_val : Lprops → ℕ → ℕ
get_heap_comp_val l cat =
    if cat == lprops_free
    then l.free
    else if cat == lprops_dirty_idx
    then l.free + l.dirty
    else l.dirty

-- The LEB properties in memory, by address, and the heaps and lists of addresses, by category. The
-- category of an LEB stands in its properties.
pub record Categories : Type 0 where
  pub props : ℕ → Lprops
  pub hpos : ℕ → ℕ
  pub heap_arr : ℕ → ℕ → ℕ
  pub heap_cnt : ℕ → ℕ
  pub lists : ℕ → List ℕ
  pub freeable_cnt : ℤ

abbrev pub heap_of : Categories → ℕ → Slots
heap_of c cat = record { arr = c.heap_arr cat; hpos = c.hpos; cnt = c.heap_cnt cat }

abbrev pub set_heap : Categories → ℕ → Slots → Categories
set_heap c cat s = record c {
  hpos = s.hpos;
  heap_arr = λ k. if k == cat then s.arr else c.heap_arr k;
  heap_cnt = λ k. if k == cat then s.cnt else c.heap_cnt k;
}

abbrev pub worth : Categories → ℕ → ℕ → ℕ
worth c cat a = get_heap_comp_val (c.props a) cat

abbrev pub is_heap : ℕ → Bool
is_heap cat = cat == lprops_dirty || (cat == lprops_dirty_idx || cat == lprops_free)

-- The categories with a list and no count.
abbrev pub is_list : ℕ → Bool
is_list cat = cat == lprops_uncat || (cat == lprops_empty || cat == lprops_frdi_idx)

-- `list_add`
abbrev pub list_add : Categories → ℕ → ℕ → Categories
list_add c cat a = record c { lists = λ k. if k == cat then a ∷ c.lists k else c.lists k }

abbrev pub without : ℕ → List ℕ → List ℕ
without a [] = []
without a (b ∷ l) = if b == a then l else b ∷ without a l

-- `list_del`, of an LEB on the list of its category
abbrev pub list_del : Categories → ℕ → ℕ → Categories
list_del c cat a = record c { lists = λ k. if k == cat then without a (c.lists k) else c.lists k }

abbrev pub set_category : Categories → ℕ → ℕ → Categories
set_category c a cat = record c {
  props = λ b. if b == a then record (c.props b) { category = cat } else c.props b;
}

abbrev pub count_freeable : Categories → ℤ → Categories
count_freeable c d = record c { freeable_cnt = c.freeable_cnt +ℤ d }

-- The LEB that had to go is put on the list of the uncategorized.
abbrev pub evict : Categories → ℕ → Categories
evict c old = list_add (set_category c old lprops_uncat) lprops_uncat old

-- The lists of add_to_cat; the heaps that have no room use the first.
unfoldable pub add_to_list : Categories → ℕ → ℕ → Categories
add_to_list c a cat =
    let d =
      if cat == lprops_freeable
      then count_freeable (list_add c cat a) (pos 1)
      else if is_list cat
      then list_add c cat a
      else c in
    set_category d a cat

unfoldable pub finish_add : Categories → ℕ → ℕ → Option Added → Option Categories
unfolding add_to_list
finish_add c a cat none = none
finish_add c a cat (some (added s)) = some (set_category (set_heap c cat s) a cat)
finish_add c a cat (some (replaced old s)) =
    some (set_category (evict (set_heap c cat s) old) a cat)
finish_add c a cat (some refused) = some (add_to_list c a lprops_uncat)

unfoldable pub ubifs_add_to_cat : Categories → ℕ → ℕ → Option Categories
unfolding finish_add
ubifs_add_to_cat c a cat =
    if is_heap cat
    then finish_add c a cat (add_to_lpt_heap (worth c cat) lpt_heap_sz (heap_of c cat) a)
    else some (add_to_list c a cat)

abbrev pub with_heap : Categories → ℕ → Option Slots → Option Categories
with_heap c cat none = none
with_heap c cat (some s) = some (set_heap c cat s)

unfoldable pub ubifs_remove_from_cat : Categories → ℕ → ℕ → Option Categories
ubifs_remove_from_cat c a cat =
    if is_heap cat
    then with_heap c cat (remove_from_lpt_heap (worth c cat) (heap_of c cat) a)
    else if cat == lprops_freeable
    then some (list_del (count_freeable c (negsuc 0)) cat a)
    else if is_list cat
    then some (list_del c cat a)
    else some c

abbrev pub and_then : Option Categories → (Categories → Option Categories) → Option Categories
and_then none f = none
and_then (some c) f = f c

unfoldable pub ubifs_ensure_cat : Info → Categories → ℕ → Option Categories
unfolding ubifs_remove_from_cat ubifs_add_to_cat
ubifs_ensure_cat i c a =
    let cat = ubifs_categorize_lprops i (c.props a) in
    if not ((c.props a).category == lprops_uncat)
    then some c
    else if cat == lprops_uncat
    then some c
    else and_then (ubifs_remove_from_cat c a lprops_uncat) (λ d. ubifs_add_to_cat d a cat)

unfoldable pub change_category : Info → Categories → ℕ → Option Categories
unfolding ubifs_remove_from_cat ubifs_add_to_cat
change_category i c a =
    let old_cat = (c.props a).category in
    let new_cat = ubifs_categorize_lprops i (c.props a) in
    if old_cat == new_cat
    then (if is_heap new_cat
        then with_heap c new_cat
            (adjust_lpt_heap (worth c new_cat) (heap_of c new_cat) a (c.hpos a))
        else some c)
    else and_then (ubifs_remove_from_cat c a old_cat) (λ d. ubifs_add_to_cat d a new_cat)

-- The copy `new` of an LEB's properties takes the place of the properties at `old`.
abbrev pub list_replace : ℕ → ℕ → List ℕ → List ℕ
list_replace old new [] = []
list_replace old new (b ∷ l) = if b == old then new ∷ l else b ∷ list_replace old new l

unfoldable pub lpt_heap_replace : Categories → ℕ → ℕ → Categories
lpt_heap_replace c new cat = record c {
  heap_arr =
      λ k i. if k == cat then (if i == c.hpos new then new else c.heap_arr k i) else c.heap_arr k i;
}

unfoldable pub ubifs_replace_cat : Categories → ℕ → ℕ → Categories
unfolding lpt_heap_replace
ubifs_replace_cat c old new =
    let cat = (c.props new).category in
    if is_heap cat
    then lpt_heap_replace c new cat
    else if cat == lprops_freeable || is_list cat
    then record c { lists = λ k. if k == cat then list_replace old new (c.lists k) else c.lists k }
    else c
