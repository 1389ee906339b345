-- ===== src/Ubifs/Lprops/Stay.antt =====
-- lprops.c: the other LEBs stay where they are when one leaves its category.
use android_infotm_confident.Prelude.{
  ℕ, ◌≡◌, ◌≢◌, refl, sym, ◌∙◌, Bool, true, false, ◌==◌, if◌then◌else◌, arith, Bool-cases, inl, inr,
  Option, none, some, negsuc,
}
use android_infotm_confident.Ubifs.Lpt.Types.{lprops_freeable}
use android_infotm_confident.Ubifs.Lprops.{Slots}
use android_infotm_confident.Ubifs.Lprops.Frame.{Holds, Finds}
use android_infotm_confident.Ubifs.Lprops.Remove.{Left, remove_from_lpt_heap_lem}
use android_infotm_confident.Ubifs.Lprops.Category.{
  Categories, heap_of, worth, is_heap, is_list, with_heap, list_del, count_freeable,
  ubifs_remove_from_cat,
}
use android_infotm_confident.Ubifs.Lprops.Filed.{FiledBut, Holds-set_heap}
use android_infotm_confident.Ubifs.Lprops.Shelve.{Unsettled}
use android_infotm_confident.Ubifs.Lprops.Lists.{IfSome, has_list, times, times-without}

-- The LEB keeps its category, and stays in the heap and on the lists that it is in and on.
pub record Stays (a : ℕ) (c d : Categories) : Type 0 where
  pub category : (d.props a).category ≡ (c.props a).category
  pub heap : (k : ℕ) → is_heap k ≡ true → Holds (heap_of c k) a → Holds (heap_of d k) a
  pub list : (k : ℕ) → has_list k ≡ true → times a (d.lists k) ≡ times a (c.lists k)

pub Stays-refl : (a : ℕ) (c : Categories) → Stays a c c
Stays-refl a c = record { category = refl; heap = λ k h g. g; list = λ k g. refl }

deleted-Stays : (c : Categories) (l cat a : ℕ) → a ≢ l → Stays a c (list_del c cat l)
deleted-Stays c l cat a n = record {
  category = refl;
  heap = λ k h g. g;
  list = λ k g. ground (arith, n, times-without l a (c.lists k));
}

removed-Stays :
    (c : Categories) (l cat a : ℕ) (o : Option Slots)
    → FiledBut c cat
    → is_heap cat ≡ true
    → Holds (heap_of c cat) l
    → Finds (Left (worth c cat) (heap_of c cat) l) o
    → a ≢ l
    → IfSome (Stays a c) (with_heap c cat o)
removed-Stays c l cat a none f hc h r n = tt
removed-Stays c l cat a (some t) f hc h r n = record {
  category = refl;
  heap = λ k hk.
      Holds-set_heap c cat l t f hc (λ j hj m g. m (sym (f.own j l hj g) ∙ f.own cat l hc h))
        (λ b m q. r.others b q) k a hk (r.kept a n);
  list = λ k g. refl;
}

unlisted-Stays :
    (c : Categories) (l cat a : ℕ) (b listed : Bool)
    → a ≢ l
    → IfSome (Stays a c) (
        if b
        then some (list_del (count_freeable c (negsuc 0)) cat l)
        else if listed
        then some (list_del c cat l)
        else some c)
unlisted-Stays c l cat a true listed n =
    let s = deleted-Stays c l cat a n in record { category = refl; heap = s.heap; list = s.list }
unlisted-Stays c l cat a false true n = deleted-Stays c l cat a n
unlisted-Stays c l cat a false false n = Stays-refl a c

pub ubifs_remove_from_cat-Stays :
    (c : Categories) (l cat a : ℕ)
    → Unsettled c l cat
    → a ≢ l
    → IfSome (Stays a c) (ubifs_remove_from_cat c l cat)
unfolding ubifs_remove_from_cat
ubifs_remove_from_cat-Stays c l cat a u n = elim (Bool-cases (is_heap cat)) [
  | inl h ↦
      rw (h, ubifs_remove_from_cat)
        (removed-Stays c l cat a _ u.but h (u.shelved.0 h)
          (remove_from_lpt_heap_lem u.old (worth c cat) (heap_of c cat) l (u.heap h) u.same
            (u.shelved.0 h))
          n)
  | inr h ↦
      rw (h, ubifs_remove_from_cat)
        (unlisted-Stays c l cat a (cat == lprops_freeable) (is_list cat) n)
]
