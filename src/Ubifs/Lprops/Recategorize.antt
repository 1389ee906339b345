-- ===== src/Ubifs/Lprops/Recategorize.antt =====
-- lprops.c: change_category keeps all heaps in order.
use mathlib.Core.Path.{subst}
use android_infotm_confident.Prelude.{
  ℕ, ◌≡◌, ◌≢◌, refl, sym, ◌∙◌, true, ◌==◌, arith, Bool-cases, inl, inr, Option, none, some,
}
use android_infotm_confident.Ubifs.Lpt.Types.{Info, lprops_uncat}
use android_infotm_confident.Ubifs.Lpt.Check.{ubifs_categorize_lprops}
use android_infotm_confident.Ubifs.Lprops.{Slots, Added, added, replaced, refused}
use android_infotm_confident.Ubifs.Lprops.Frame.{Holds, Finds}
use android_infotm_confident.Ubifs.Lprops.Heaps.{AddResult, add_to_lpt_heap_lem}
use android_infotm_confident.Ubifs.Lprops.Change.{Adjusted, adjust_lpt_heap-Adjusted}
use android_infotm_confident.Ubifs.Lprops.Category.{
  Categories, heap_of, set_heap, worth, is_heap, with_heap, finish_add, ubifs_add_to_cat,
  change_category, and_then,
}
use android_infotm_confident.Ubifs.Lprops.Filed.{
  FiledBut, Filed, Loosened, heap_of-same, set_heap-HeapOk, set_heap-Holds, set_heap-room,
}
use android_infotm_confident.Ubifs.Lprops.Shelve.{
  Files, Taken, Shelved, Unsettled, Unsettled-Filed, ubifs_remove_from_cat-Taken,
}
use android_infotm_confident.Ubifs.Lprops.Stay.{ubifs_remove_from_cat-Stays}
use android_infotm_confident.Ubifs.Lprops.Others.{
  Others, moved-Others, resorted-Others, unchanged-Others,
}
use android_infotm_confident.Ubifs.Lprops.Lists.{
  On, IfSome, moved-On, with_heap-On, ubifs_remove_from_cat-Off,
}
use android_infotm_confident.Ubifs.Lprops.Arrive.{
  Arrived, add_to_list-Arrived, added-Arrived, replaced-Arrived,
}

finish_add-Arrived :
    (c : Categories) (l cat : ℕ) (o : Option Added)
    → Filed c
    → Loosened c l
    → is_heap cat ≡ true
    → AddResult (worth c cat) (heap_of c cat) l o
    → Files (Arrived l cat) (finish_add c l cat o)
unfolding finish_add
finish_add-Arrived c l cat none f n h r = r
finish_add-Arrived c l cat (some (added t)) f n h (b, j) = added-Arrived c l cat f n h t b j
finish_add-Arrived c l cat (some (replaced old t)) f n h (b, was, less, j) =
    replaced-Arrived c l cat f n h t old b was j
finish_add-Arrived c l cat (some refused) f n h r =
    add_to_list-Arrived c l cat lprops_uncat f n refl
      (inr (record { heap = h; full = r.0; worse = r.1 }, refl))

ubifs_add_to_cat-Arrived :
    (c : Categories) (l cat : ℕ)
    → Filed c
    → Loosened c l
    → Files (Arrived l cat) (ubifs_add_to_cat c l cat)
unfolding ubifs_add_to_cat
ubifs_add_to_cat-Arrived c l cat f n = elim (Bool-cases (is_heap cat)) [
  | inl h ↦
      rw (h, ubifs_add_to_cat)
        (finish_add-Arrived c l cat _ f n h (
          add_to_lpt_heap_lem (worth c cat) (heap_of c cat) l (f.heaps cat h) (n cat h)
            (f.room cat h)))
  | inr h ↦ rw (h, ubifs_add_to_cat) (add_to_list-Arrived c l cat cat f n h (inl refl))
]

pub moved-Arrived :
    (l cat : ℕ) (c : Categories) (o : Option Categories)
    → Files (Taken c l) o
    → Files (Arrived l cat) (and_then o (λ d. ubifs_add_to_cat d l cat))
moved-Arrived l cat c none h = h
moved-Arrived l cat c (some d) h = ubifs_add_to_cat-Arrived d l cat h.filed h.loose

resorted-Arrived :
    (c : Categories) (l cat : ℕ) (o : Option Slots)
    → FiledBut c cat
    → is_heap cat ≡ true
    → (c.props l).category ≡ cat
    → Holds (heap_of c cat) l
    → Finds (Adjusted (worth c cat) (heap_of c cat)) o
    → Files (Arrived l cat) (with_heap c cat o)
resorted-Arrived c l cat none f hc e h r = r
resorted-Arrived c l cat (some t) f hc e h r =
    let d = set_heap c cat t in
    let nowhere : (k : ℕ) → is_heap k ≡ true → k ≢ cat → Holds (heap_of c k) l → ⊥ =
      λ k hk n g. n (sym (f.own k l hk g) ∙ e) in
    let frame : (a : ℕ) → a ≢ l → (Holds (heap_of c cat) a → ⊥) → t.hpos a ≡ c.hpos a =
      λ a n m. r.others a m in
    let self : (cat == cat) ≡ true = ground arith in
    record {
      filed = record {
        heaps = set_heap-HeapOk c cat l t f hc nowhere frame r.ok;
        own = λ k a hk g. elim (set_heap-Holds c cat l t f hc nowhere frame k a hk g) [
          | inl (q, m) ↦ f.own cat a hc ((r.holds a).1 m) ∙ sym q
          | inr (n, m) ↦ f.own k a hk m
        ];
        room = set_heap-room c cat l t f hc nowhere frame (omega (arith, r.count, f.room cat hc));
      };
      category = inl e;
      shelved = subst (Shelved d l) (sym e) (
        (λ g. subst (λ s. Holds s l) (sym (heap_of-same c cat cat t self)) ((r.holds l).0 h)),
        λ g. absurd (ground (arith, g, hc)),
      );
    }

change_category-Filed :
    (i : Info) (c : Categories) (l : ℕ)
    → Unsettled c l (c.props l).category
    → Files (Arrived l (ubifs_categorize_lprops i (c.props l))) (change_category i c l)
unfolding change_category
change_category-Filed i c l u =
    let old_cat = (c.props l).category in
    let new_cat = ubifs_categorize_lprops i (c.props l) in
    elim (Bool-cases (old_cat == new_cat)) [
      | inr e ↦
          rw (e, change_category)
            (moved-Arrived l new_cat c _ (ubifs_remove_from_cat-Taken c l old_cat u))
      | inl e ↦
          let q : old_cat ≡ new_cat = ground (arith, e) in
          let v = subst (Unsettled c l) q u in
          elim (Bool-cases (is_heap new_cat)) [
            | inl h ↦
                rw (e, h, change_category)
                  (resorted-Arrived c l new_cat _ v.but h q (v.shelved.0 h) (
                    adjust_lpt_heap-Adjusted v.old (worth c new_cat) (heap_of c new_cat) l
                      (v.heap h) (v.shelved.0 h) v.same))
            | inr h ↦
                rw (e, h, change_category)
                  (record {
                    filed = Unsettled-Filed c l new_cat h v;
                    category = inl q;
                    shelved = subst (Shelved c l) (sym q) v.shelved;
                  })
          ]
    ]

change_category-On :
    (i : Info) (c : Categories) (l : ℕ)
    → Unsettled c l (c.props l).category
    → On l c
    → IfSome (On l) (change_category i c l)
unfolding change_category
change_category-On i c l u o =
    let old_cat = (c.props l).category in
    let new_cat = ubifs_categorize_lprops i (c.props l) in
    elim (Bool-cases (old_cat == new_cat)) [
      | inr e ↦
          rw (e, change_category)
            (moved-On l new_cat c _ (ubifs_remove_from_cat-Taken c l old_cat u)
              (ubifs_remove_from_cat-Off c l old_cat (o.0) (o.1)))
      | inl e ↦ elim (Bool-cases (is_heap new_cat)) [
        | inl h ↦ rw (e, h, change_category) (with_heap-On c l new_cat _ o)
        | inr h ↦ rw (e, h, change_category) o
      ]
    ]

change_category-Others :
    (i : Info) (c : Categories) (l : ℕ)
    → Unsettled c l (c.props l).category
    → On l c
    → IfSome (Others l (ubifs_categorize_lprops i (c.props l)) c) (change_category i c l)
unfolding change_category
change_category-Others i c l u o =
    let old_cat = (c.props l).category in
    let new_cat = ubifs_categorize_lprops i (c.props l) in
    elim (Bool-cases (old_cat == new_cat)) [
      | inr e ↦
          rw (e, change_category)
            (moved-Others l new_cat c _ (ubifs_remove_from_cat-Taken c l old_cat u)
              (ubifs_remove_from_cat-Off c l old_cat (o.0) (o.1))
              (λ a n. ubifs_remove_from_cat-Stays c l old_cat a u n))
      | inl e ↦
          let q : old_cat ≡ new_cat = ground (arith, e) in
          let v = subst (Unsettled c l) q u in
          elim (Bool-cases (is_heap new_cat)) [
            | inl h ↦
                rw (e, h, change_category)
                  (resorted-Others c l new_cat _ v.but h q (
                    adjust_lpt_heap-Adjusted v.old (worth c new_cat) (heap_of c new_cat) l
                      (v.heap h) (v.shelved.0 h) v.same))
            | inr h ↦ rw (e, h, change_category) (unchanged-Others l new_cat c)
          ]
    ]

-- An LEB has come to a category from the state `c`.
pub record Moved (l cat : ℕ) (c d : Categories) : Type 0 where
  pub arrived : Arrived l cat d
  pub on : On l d
  pub others : Others l cat c d

pub all_of :
    (l cat : ℕ) (c : Categories) (o : Option Categories)
    → Files (Arrived l cat) o
    → IfSome (On l) o
    → IfSome (Others l cat c) o
    → Files (Moved l cat c) o
all_of l cat c none a b d = a
all_of l cat c (some e) a b d = record { arrived = a; on = b; others = d }

-- Where all heaps are in order (no entry is worth more than its parent, each LEB knows its position,
-- and there are at most LPT_HEAP_SZ), but for a change of what one LEB is worth in its category, each
-- list holds LEBs of its own category only, and none twice, and the LEB is in the heap of its category,
-- or once on the list of it, and nowhere else, change_category ends with all heaps in order, each heap
-- and each list with LEBs of its own category only, and none twice on a list. The LEB is in the
-- category that ubifs_categorize_lprops gives; or it has none, and the heap of that category has
-- LPT_HEAP_SZ LEBs, and the entry picked to give way is worth no less. It stands in the heap of the
-- category it is in, or once on the list of that, and on no other list. Each other LEB keeps its
-- category and its places, but for one of that category that was worth less and gave way: it has no
-- category now, and stands once on the list of the uncategorized, and on no other.
pub change_category-Arrived :
    (i : Info) (c : Categories) (l : ℕ)
    → Unsettled c l (c.props l).category
    → On l c
    → Files (Moved l (ubifs_categorize_lprops i (c.props l)) c) (change_category i c l)
change_category-Arrived i c l u o =
    all_of l (ubifs_categorize_lprops i (c.props l)) c (change_category i c l)
      (change_category-Filed i c l u) (change_category-On i c l u o)
      (change_category-Others i c l u o)
