-- ===== src/Ubifs/Lprops/Others.antt =====
-- lprops.c: what becomes of the other LEBs while one goes from a category to another.
use mathlib.Core.Path.{subst}
use android_infotm_confident.Prelude.{
  ℕ, ◌<◌, ◌≡◌, ◌≢◌, refl, sym, ◌∙◌, Bool, true, false, ◌==◌, if◌then◌else◌, arith, Bool-cases, inl,
  inr, ◌⊎◌, Option, none, some, pos,
}
use android_infotm_confident.Ubifs.Lpt.Types.{lprops_uncat, lprops_freeable}
use android_infotm_confident.Ubifs.Lprops.{Slots, Added, added, replaced, refused}
use android_infotm_confident.Ubifs.Lprops.Frame.{Holds, Finds}
use android_infotm_confident.Ubifs.Lprops.Heaps.{AddResult, add_to_lpt_heap_lem}
use android_infotm_confident.Ubifs.Lprops.Change.{Adjusted}
use android_infotm_confident.Ubifs.Lprops.Category.{
  get_heap_comp_val, Categories, heap_of, set_heap, worth, is_heap, is_list, with_heap, list_add,
  count_freeable, set_category, evict, add_to_list, finish_add, ubifs_add_to_cat, and_then,
}
use android_infotm_confident.Ubifs.Lprops.Filed.{
  FiledBut, Filed, Filed-FiledBut, Loosened, Holds-set_heap,
}
use android_infotm_confident.Ubifs.Lprops.Stay.{Stays, Stays-refl}
use android_infotm_confident.Ubifs.Lprops.Shelve.{Files, Taken}
use android_infotm_confident.Ubifs.Lprops.Lists.{IfSome, OnList, Off, filed-Unlisted}

-- The LEB gave way to `l` in the heap of the category, where it was worth less. It has no category
-- now, and stands on the list of the uncategorized, and on no other.
pub record Evicted (l cat a : ℕ) (c d : Categories) : Type 0 where
  pub was : (c.props a).category ≡ cat
  pub less : worth c cat a < worth c cat l
  pub category : (d.props a).category ≡ lprops_uncat
  pub list : OnList d a lprops_uncat

abbrev pub Others : ℕ → ℕ → Categories → Categories → Type 0
Others l cat c d = (a : ℕ) → a ≢ l → Stays a c d ⊎ Evicted l cat a c d

recategorized-Stays :
    (c d : Categories) (l x a : ℕ) → a ≢ l → Stays a c d → Stays a c (set_category d l x)
recategorized-Stays c d l x a n s =
    let e = s.category in record { category = ground (arith, n, e); heap = s.heap; list = s.list }

listed-Stays :
    (c : Categories) (l x a : ℕ) (b listed : Bool)
    → a ≢ l
    → Stays a c (
        if b then count_freeable (list_add c x l) (pos 1) else if listed then list_add c x l else c)
listed-Stays c l x a true listed n = record {
  category = refl;
  heap = λ k h g. g;
  list = λ k g. ground (arith, n);
}
listed-Stays c l x a false true n = record {
  category = refl;
  heap = λ k h g. g;
  list = λ k g. ground (arith, n);
}
listed-Stays c l x a false false n = Stays-refl a c

add_to_list-Stays : (c : Categories) (l x a : ℕ) → a ≢ l → Stays a c (add_to_list c l x)
unfolding add_to_list
add_to_list-Stays c l x a n =
    recategorized-Stays c _ l x a n (listed-Stays c l x a (x == lprops_freeable) (is_list x) n)

module _ (c : Categories) (l cat : ℕ) (f : Filed c) (n : Loosened c l) (h : is_heap cat ≡ true)
    (o : Off l c) where
  set_heap-Stays :
      (t : Slots) (a : ℕ)
      → ((b : ℕ) → b ≢ l → (Holds (heap_of c cat) b → ⊥) → t.hpos b ≡ c.hpos b)
      → (Holds (heap_of c cat) a → Holds t a)
      → Stays a c (set_heap c cat t)
  set_heap-Stays t a others keep = record {
    category = refl;
    heap = λ k hk.
        Holds-set_heap c cat l t (Filed-FiledBut c cat f) h (λ j hj m g. n j hj g) others k a hk
          keep;
    list = λ k g. refl;
  }

  replaced-Evicted :
      (t : Slots) (old : ℕ)
      → Holds (heap_of c cat) old
      → worth c cat old < worth c cat l
      → old ≢ l
      → Evicted l cat old c (set_category (evict (set_heap c cat t) old) l cat)
  replaced-Evicted t old was less m =
      let bare = filed-Unlisted c old cat h (f.own cat old h was) (o.0) in
      record {
        was = f.own cat old h was;
        less = less;
        category = ground (arith, m);
        list = λ k g. ground (arith, bare k g);
      }

  finish_add-Others :
      (r : Option Added)
      → AddResult (worth c cat) (heap_of c cat) l r
      → IfSome (Others l cat c) (finish_add c l cat r)
  unfolding finish_add
  finish_add-Others none r = tt
  finish_add-Others (some (added t)) (b, j) =
      λ a m. inl (recategorized-Stays c _ l cat a m (set_heap-Stays t a j.others (j.old a tt)))
  finish_add-Others (some (replaced old t)) (b, was, less, j) = λ a m.
      elim (Bool-cases (a == old)) [
        | inl e ↦
            let q : a ≡ old = ground (arith, e) in
            inr (
              subst (λ x. Evicted l cat x c (set_category (evict (set_heap c cat t) old) l cat))
                (sym q) (replaced-Evicted t old was less (λ z. m (q ∙ z))))
        | inr e ↦
            let v : a ≢ old = ground (arith, e) in
            let s = set_heap-Stays t a j.others (j.old a v) in
            inl (
              recategorized-Stays c _ l cat a m (record {
                category = ground (arith, v);
                heap = s.heap;
                list = λ k g. ground (arith, v);
              }))
      ]
  finish_add-Others (some refused) r = λ a m. inl (add_to_list-Stays c l lprops_uncat a m)

ubifs_add_to_cat-Others :
    (c : Categories) (l cat : ℕ)
    → Filed c
    → Loosened c l
    → Off l c
    → IfSome (Others l cat c) (ubifs_add_to_cat c l cat)
unfolding ubifs_add_to_cat
ubifs_add_to_cat-Others c l cat f n o = elim (Bool-cases (is_heap cat)) [
  | inl h ↦
      rw (h, ubifs_add_to_cat)
        (finish_add-Others c l cat f n h o _ (
          add_to_lpt_heap_lem (worth c cat) (heap_of c cat) l (f.heaps cat h) (n cat h)
            (f.room cat h)))
  | inr h ↦ rw (h, ubifs_add_to_cat) (λ a m. inl (add_to_list-Stays c l cat a m))
]

after_Stays :
    (l cat : ℕ) (c d e : Categories)
    → d.props ≡ c.props
    → ((a : ℕ) → a ≢ l → Stays a c d)
    → Others l cat d e
    → Others l cat c e
after_Stays l cat c d e p s o a n =
    let k = s a n in
    elim (o a n) [
      | inl t ↦ inl (record {
        category = t.category ∙ k.category;
        heap = λ j h g. t.heap j h (k.heap j h g);
        list = λ j h. t.list j h ∙ k.list j h;
      })
      | inr v ↦ inr (record {
        was = sym k.category ∙ v.was;
        less = subst (λ q. get_heap_comp_val (q a) cat < get_heap_comp_val (q l) cat) p v.less;
        category = v.category;
        list = v.list;
      })
    ]

pub moved-Others :
    (l cat : ℕ) (c : Categories) (o : Option Categories)
    → Files (Taken c l) o
    → IfSome (Off l) o
    → ((a : ℕ) → a ≢ l → IfSome (Stays a c) o)
    → IfSome (Others l cat c) (and_then o (λ d. ubifs_add_to_cat d l cat))
moved-Others l cat c none t o s = tt
moved-Others l cat c (some d) t o s =
    chain (ubifs_add_to_cat d l cat) (ubifs_add_to_cat-Others d l cat t.filed t.loose o)
  where
    chain : (r : Option Categories) → IfSome (Others l cat d) r → IfSome (Others l cat c) r
    chain none h = tt
    chain (some e) h = after_Stays l cat c d e t.props s h

pub resorted-Others :
    (c : Categories) (l cat : ℕ) (o : Option Slots)
    → FiledBut c cat
    → is_heap cat ≡ true
    → (c.props l).category ≡ cat
    → Finds (Adjusted (worth c cat) (heap_of c cat)) o
    → IfSome (Others l cat c) (with_heap c cat o)
resorted-Others c l cat none f hc e r = tt
resorted-Others c l cat (some t) f hc e r = λ a n. inl (record {
  category = refl;
  heap = λ k hk.
      Holds-set_heap c cat l t f hc (λ j hj m g. m (sym (f.own j l hj g) ∙ e))
        (λ b m q. r.others b q) k a hk (r.holds a).0;
  list = λ k g. refl;
})

-- Where nothing is done.
pub unchanged-Others : (l cat : ℕ) (c : Categories) → Others l cat c c
unchanged-Others l cat c a n = inl (Stays-refl a c)
