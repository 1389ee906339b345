-- ===== src/Ubifs/Lprops/Lists.antt =====
-- lprops.c: the lists of the categories that are no heaps, while an LEB goes from one to another.
use mathlib.Core.Path.{subst}
use android_infotm_confident.Prelude.{
  ℕ, ◌+◌, ◌-◌, ◌<◌, ◌≤◌, ◌≡◌, ◌≢◌, refl, sym, ◌∙◌, Bool, true, false, ◌==◌, ◌||◌, if◌then◌else◌,
  arith, Bool-cases, inl, inr, Option, none, some, List, [], ◌∷◌, pos, negsuc,
}
use android_infotm_confident.Ubifs.Lpt.Types.{lprops_uncat, lprops_freeable}
use android_infotm_confident.Ubifs.Lprops.{Slots, Added, added, replaced, refused}
use android_infotm_confident.Ubifs.Lprops.Frame.{Holds}
use android_infotm_confident.Ubifs.Lprops.Heaps.{AddResult, add_to_lpt_heap_lem}
use android_infotm_confident.Ubifs.Lprops.Category.{
  Categories, heap_of, set_heap, worth, is_heap, is_list, with_heap, list_add, list_del, without,
  count_freeable, set_category, evict, add_to_list, finish_add, ubifs_add_to_cat,
  ubifs_remove_from_cat, and_then,
}
use android_infotm_confident.Ubifs.Lprops.Filed.{Filed, Loosened}
use android_infotm_confident.Ubifs.Lprops.Shelve.{Files, Taken}

-- How often an LEB stands on a list.
abbrev pub times : ℕ → List ℕ → ℕ
times a [] = 0
times a (b ∷ l) = (if b == a then 1 else 0) + times a l

abbrev pub has_list : ℕ → Bool
has_list k = k == lprops_freeable || is_list k

-- Each list holds LEBs of its own category only, and none of them twice.
pub record Listed (c : Categories) : Type 0 where
  pub once : (k a : ℕ) → has_list k ≡ true → times a (c.lists k) ≤ 1
  pub own : (k a : ℕ) → has_list k ≡ true → 0 < times a (c.lists k) → (c.props a).category ≡ k

-- The LEB stands once on the list of the category, if that has a list, and on no other list.
abbrev pub OnList : Categories → ℕ → ℕ → Type 0
OnList c l cat = (k : ℕ) → has_list k ≡ true → times l (c.lists k) ≡ (if k == cat then 1 else 0)

abbrev pub Unlisted : Categories → ℕ → Type 0
Unlisted c l = (k : ℕ) → has_list k ≡ true → times l (c.lists k) ≡ 0

pub times-without :
    (a b : ℕ) (l : List ℕ) → times b (without a l) ≡ (if a == b then times b l - 1 else times b l)
times-without a b [] = ground arith
times-without a b (x ∷ l) = ground (arith, times-without a b l)

no_list : (k cat : ℕ) → is_heap cat ≡ true → has_list k ≡ true → k ≢ cat
no_list k cat h g e = ground (arith, h, g, e)

-- Of a result, if there is one.
abbrev pub IfSome : (Categories → Type 0) → Option Categories → Type 0
IfSome P none = Unit
IfSome P (some c) = P c

abbrev pub Off : ℕ → Categories → Type 0
Off l d = Listed d × Unlisted d l

abbrev pub On : ℕ → Categories → Type 0
On l d = Listed d × OnList d l (d.props l).category

deleted-Off : (c : Categories) (l cat : ℕ) → Listed c → OnList c l cat → Off l (list_del c cat l)
deleted-Off c l cat f o = (
  record {
    once = λ k a g. ground (arith, times-without l a (c.lists k), f.once k a g);
    own = λ k a g h. ground (arith, times-without l a (c.lists k), f.own k a g, h);
  },
  λ k g. ground (arith, times-without l l (c.lists k), o k g),
)

with_heap-Off :
    (c : Categories) (l cat : ℕ) (o : Option Slots)
    → is_heap cat ≡ true
    → Listed c
    → OnList c l cat
    → IfSome (Off l) (with_heap c cat o)
with_heap-Off c l cat none h f o = tt
with_heap-Off c l cat (some t) h f o =
    (record { once = f.once; own = f.own }, λ k g. ground (arith, o k g, no_list k cat h g))

unlisted-Off :
    (c : Categories) (l cat : ℕ) (b listed : Bool)
    → (b || listed) ≡ has_list cat
    → Listed c
    → OnList c l cat
    → IfSome (Off l) (
        if b
        then some (list_del (count_freeable c (negsuc 0)) cat l)
        else if listed
        then some (list_del c cat l)
        else some c)
unlisted-Off c l cat true listed e f o =
    deleted-Off (count_freeable c (negsuc 0)) l cat (record { once = f.once; own = f.own }) o
unlisted-Off c l cat false true e f o = deleted-Off c l cat f o
unlisted-Off c l cat false false e f o = (
  f,
  λ k g. elim (Bool-cases (k == cat)) [
    | inl q ↦ absurd (ground (arith, q, g, e))
    | inr q ↦ ground (arith, o k g, q)
  ],
)

pub ubifs_remove_from_cat-Off :
    (c : Categories) (l cat : ℕ)
    → Listed c
    → OnList c l cat
    → IfSome (Off l) (ubifs_remove_from_cat c l cat)
unfolding ubifs_remove_from_cat
ubifs_remove_from_cat-Off c l cat f o = elim (Bool-cases (is_heap cat)) [
  | inl h ↦ rw (h, ubifs_remove_from_cat) (with_heap-Off c l cat _ h f o)
  | inr h ↦
      rw (h, ubifs_remove_from_cat)
        (unlisted-Off c l cat (cat == lprops_freeable) (is_list cat) refl f o)
]

-- An LEB on no list gets a category with a heap.
filed-On : (d : Categories) (l cat : ℕ) → is_heap cat ≡ true → Off l d → On l (set_category d l cat)
filed-On d l cat h (f, u) = (
  record { once = f.once; own = λ k a g m. ground (arith, u k g, f.own k a g m, m) },
  λ k g. ground (arith, u k g, no_list k cat h g),
)

-- An LEB on no list goes to the front of one.
listed-On :
    (c : Categories) (l x : ℕ) (b : Bool)
    → b ≡ has_list x
    → Off l c
    → On l (set_category (if b then list_add c x l else c) l x)
listed-On c l x true e (f, u) = (
  record {
    once = λ k a g. ground (arith, u k g, f.once k a g);
    own = λ k a g m. ground (arith, u k g, f.own k a g, m);
  },
  λ k g. ground (arith, u k g),
)
listed-On c l x false e (f, u) = (
  record { once = f.once; own = λ k a g m. ground (arith, u k g, f.own k a g m, m) },
  λ k g. ground (arith, u k g, e, g),
)

counted-On :
    (c : Categories) (l x : ℕ) (b listed : Bool)
    → (b || listed) ≡ has_list x
    → Off l c
    → On l (
        set_category
          (if b
            then count_freeable (list_add c x l) (pos 1)
            else if listed
            then list_add c x l
            else c)
          l
          x)
counted-On c l x true listed e o =
    let (f, m) = listed-On c l x true e o in (record { once = f.once; own = f.own }, m)
counted-On c l x false listed e o = listed-On c l x listed e o

add_to_list-On : (c : Categories) (l x : ℕ) → Off l c → On l (add_to_list c l x)
unfolding add_to_list
add_to_list-On c l x o = counted-On c l x (x == lprops_freeable) (is_list x) refl o

-- An LEB of a category with a heap is on no list.
pub filed-Unlisted :
    (c : Categories) (a cat : ℕ)
    → is_heap cat ≡ true
    → (c.props a).category ≡ cat
    → Listed c
    → Unlisted c a
filed-Unlisted c a cat h e f k g = elim (Bool-cases (times a (c.lists k) == 0)) [
  | inl z ↦ ground (arith, z)
  | inr z ↦ absurd (no_list k cat h g (sym (f.own k a g (ground (arith, z))) ∙ e))
]

evict-Off :
    (c : Categories) (l old cat : ℕ)
    → is_heap cat ≡ true
    → (c.props old).category ≡ cat
    → old ≢ l
    → Off l c
    → Off l (evict c old)
evict-Off c l old cat h e n (f, u) =
    let bare = filed-Unlisted c old cat h e f in
    (
      record {
        once = λ k a g. ground (arith, bare k g, f.once k a g);
        own = λ k a g m. ground (arith, bare k g, f.own k a g, m);
      },
      λ k g. ground (arith, u k g, n),
    )

finish_add-On :
    (c : Categories) (l cat : ℕ) (o : Option Added)
    → Filed c
    → Loosened c l
    → is_heap cat ≡ true
    → AddResult (worth c cat) (heap_of c cat) l o
    → Off l c
    → IfSome (On l) (finish_add c l cat o)
unfolding finish_add
finish_add-On c l cat none f n h r o = tt
finish_add-On c l cat (some (added t)) f n h r (g, u) =
    filed-On (set_heap c cat t) l cat h (record { once = g.once; own = g.own }, u)
finish_add-On c l cat (some (replaced old t)) f n h (b, was, less, j) (g, u) =
    filed-On (evict (set_heap c cat t) old) l cat h (
      evict-Off (set_heap c cat t) l old cat h (f.own cat old h was)
        (λ e. n cat h (subst (Holds (heap_of c cat)) e was))
        (record { once = g.once; own = g.own }, u))
finish_add-On c l cat (some refused) f n h r o = add_to_list-On c l lprops_uncat o

ubifs_add_to_cat-On :
    (c : Categories) (l cat : ℕ)
    → Filed c
    → Loosened c l
    → Off l c
    → IfSome (On l) (ubifs_add_to_cat c l cat)
unfolding ubifs_add_to_cat
ubifs_add_to_cat-On c l cat f n o = elim (Bool-cases (is_heap cat)) [
  | inl h ↦
      rw (h, ubifs_add_to_cat)
        (finish_add-On c l cat _ f n h
          (add_to_lpt_heap_lem (worth c cat) (heap_of c cat) l (f.heaps cat h) (n cat h)
            (f.room cat h))
          o)
  | inr h ↦ rw (h, ubifs_add_to_cat) (add_to_list-On c l cat o)
]

pub moved-On :
    (l cat : ℕ) (c : Categories) (o : Option Categories)
    → Files (Taken c l) o
    → IfSome (Off l) o
    → IfSome (On l) (and_then o (λ d. ubifs_add_to_cat d l cat))
moved-On l cat c none t o = tt
moved-On l cat c (some d) t o = ubifs_add_to_cat-On d l cat t.filed t.loose o

pub with_heap-On :
    (c : Categories) (l cat : ℕ) (o : Option Slots) → On l c → IfSome (On l) (with_heap c cat o)
with_heap-On c l cat none h = tt
with_heap-On c l cat (some t) (f, o) = (record { once = f.once; own = f.own }, o)
