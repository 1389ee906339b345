-- ===== src/Ubifs/Lprops/Arrive.antt =====
-- lprops.c: ubifs_add_to_cat and change_category over all heaps at once.
use mathlib.Core.Path.{subst}
use android_infotm_confident.Prelude.{
  ℕ, ◌+◌, ◌<◌, ◌≤◌, ◌≡◌, ◌≢◌, sym, ◌∙◌, Bool, true, false, ◌==◌, if◌then◌else◌, arith, Bool-cases,
  inl, inr, ◌⊎◌, pos,
}
use android_infotm_confident.Ubifs.Lpt.Types.{lprops_uncat, lprops_freeable}
use android_infotm_confident.Ubifs.Lprops.{Slots, lpt_heap_sz, bottom_pos}
use android_infotm_confident.Ubifs.Lprops.Frame.{Holds}
use android_infotm_confident.Ubifs.Lprops.Members.{HeapOk}
use android_infotm_confident.Ubifs.Lprops.Heaps.{Joined}
use android_infotm_confident.Ubifs.Lprops.Category.{
  Categories, heap_of, set_heap, worth, is_heap, is_list, set_category, list_add, count_freeable,
  evict, add_to_list,
}
use android_infotm_confident.Ubifs.Lprops.Filed.{
  Filed-FiledBut, heap_of-same, Filed, Loosened, worth-set_category, HeapOk-worth, set_heap-HeapOk,
  set_heap-Holds, set_heap-room,
}
use android_infotm_confident.Ubifs.Lprops.Shelve.{Shelved}

-- The heap of the category is full, and the entry that it would give up is worth no less than the LEB.
pub record NoPlace (l cat : ℕ) (d : Categories) : Type 0 where
  pub heap : is_heap cat ≡ true
  pub full : d.heap_cnt cat ≡ lpt_heap_sz
  pub worse : worth d cat l ≤ worth d cat (d.heap_arr cat (bottom_pos l))

-- The LEB has come to the category `cat`, or to the uncategorized where the heap has no place for it.
pub record Arrived (l cat : ℕ) (d : Categories) : Type 0 where
  pub filed : Filed d
  pub category :
      ((d.props l).category ≡ cat) ⊎ (NoPlace l cat d × ((d.props l).category ≡ lprops_uncat))
  pub shelved : Shelved d l (d.props l).category

-- A new category for `l` where all other LEBs stand in the heaps of theirs.
set_category-Filed :
    (d : Categories) (l x : ℕ)
    → ((k : ℕ) → is_heap k ≡ true → HeapOk (worth d k) (heap_of d k))
    → ((k a : ℕ) → is_heap k ≡ true → a ≢ l → Holds (heap_of d k) a → (d.props a).category ≡ k)
    → ((k : ℕ) → is_heap k ≡ true → Holds (heap_of d k) l → x ≡ k)
    → ((k : ℕ) → is_heap k ≡ true → d.heap_cnt k ≤ lpt_heap_sz)
    → Filed (set_category d l x)
set_category-Filed d l x hs own mine room = record {
  heaps =
      λ k h. HeapOk-worth (worth d k) _ (heap_of d k) (λ a. worth-set_category d l x k a) (hs k h);
  own = λ k a h g. elim (Bool-cases (l == a)) [
    | inl e ↦
        let q : a ≡ l = ground (arith, e) in
        let m = mine k h (subst (Holds (heap_of d k)) q g) in ground (arith, e, m)
    | inr e ↦ let m = own k a h (ground (arith, e)) g in ground (arith, e, m)
  ];
  room = room;
}

category_set : (d : Categories) (l x : ℕ) → ((set_category d l x).props l).category ≡ x
category_set d l x = ground arith

set_category-NoPlace :
    (d : Categories) (l x cat : ℕ) → NoPlace l cat d → NoPlace l cat (set_category d l x)
set_category-NoPlace d l x cat p = record {
  heap = p.heap;
  full = p.full;
  worse =
      rw
        (
          worth-set_category d l x cat l,
          worth-set_category d l x cat (d.heap_arr cat (bottom_pos l)),
        )
        p.worse;
}

listed-Arrived :
    (d : Categories) (l cat x : ℕ)
    → Filed d
    → Loosened d l
    → is_heap x ≡ false
    → (x ≡ cat) ⊎ (NoPlace l cat d × (x ≡ lprops_uncat))
    → Arrived l cat (set_category d l x)
listed-Arrived d l cat x f n hx why = record {
  filed =
      set_category-Filed d l x f.heaps (λ k a h m g. f.own k a h g) (λ k h g. absurd (n k h g))
        f.room;
  category = elim why [
    | inl e ↦ inl (category_set d l x ∙ e)
    | inr (p, e) ↦ inr (set_category-NoPlace d l x cat p, category_set d l x ∙ e)
  ];
  shelved =
      subst (Shelved (set_category d l x) l) (sym (category_set d l x))
        ((λ h. absurd (ground (arith, h, hx))), λ h. n);
}

-- The lists do not touch the heaps.
with_list :
    (c : Categories) (l cat : ℕ) (b listed : Bool)
    → Filed c
    → Loosened c l
    → let d =
        if b
        then count_freeable (list_add c cat l) (pos 1)
        else if listed
        then list_add c cat l
        else c in
      Filed d × Loosened d l × ((k : ℕ) → NoPlace l k c → NoPlace l k d)
with_list c l cat true listed f n = (
  record { heaps = f.heaps; own = f.own; room = f.room },
  n,
  λ k p. record { heap = p.heap; full = p.full; worse = p.worse },
)
with_list c l cat false true f n = (
  record { heaps = f.heaps; own = f.own; room = f.room },
  n,
  λ k p. record { heap = p.heap; full = p.full; worse = p.worse },
)
with_list c l cat false false f n = (f, n, λ k p. p)

pub add_to_list-Arrived :
    (c : Categories) (l cat x : ℕ)
    → Filed c
    → Loosened c l
    → is_heap x ≡ false
    → (x ≡ cat) ⊎ (NoPlace l cat c × (x ≡ lprops_uncat))
    → Arrived l cat (add_to_list c l x)
unfolding add_to_list
add_to_list-Arrived c l cat x f n hx why =
    let (g, m, p) = with_list c l x (x == lprops_freeable) (is_list x) f n in
    listed-Arrived _ l cat x g m hx (elim why [ inl e ↦ inl e | inr (q, e) ↦ inr (p cat q, e) ])

module _ (c : Categories) (l cat : ℕ) (f : Filed c) (n : Loosened c l)
    (hc : is_heap cat ≡ true) where
  nowhere : (k : ℕ) → is_heap k ≡ true → k ≢ cat → Holds (heap_of c k) l → ⊥
  nowhere k hk d g = n k hk g

  here : (t : Slots) → Holds t l → Holds (heap_of (set_heap c cat t) cat) l
  here t h =
      let e : (cat == cat) ≡ true = ground arith in
      subst (λ s. Holds s l) (sym (heap_of-same c cat cat t e)) h

  pub added-Arrived :
      (t : Slots)
      → c.heap_cnt cat < lpt_heap_sz
      → Joined (worth c cat) (λ a. Unit) (heap_of c cat) l (c.heap_cnt cat + 1) t
      → Arrived l cat (set_category (set_heap c cat t) l cat)
  added-Arrived t b j =
      let d = set_heap c cat t in
      let at = set_heap-Holds c cat l t (Filed-FiledBut c cat f) hc nowhere j.others in
      record {
        filed =
            set_category-Filed d l cat
              (set_heap-HeapOk c cat l t (Filed-FiledBut c cat f) hc nowhere j.others j.ok)
              (λ k a h m g. elim (at k a h g) [
                | inl (e, q) ↦ elim (j.only a q) [
                  | inl r ↦ absurd (m r)
                  | inr r ↦ f.own cat a hc r.1 ∙ sym e
                ]
                | inr (e, q) ↦ f.own k a h q
              ])
              (λ k h g. elim (at k l h g) [ inl (e, q) ↦ sym e | inr (e, q) ↦ absurd (n k h q) ])
              (set_heap-room c cat l t (Filed-FiledBut c cat f) hc nowhere j.others
                (omega (arith, j.count, b)));
        category = inl (category_set d l cat);
        shelved =
            subst (Shelved (set_category d l cat) l) (sym (category_set d l cat))
              ((λ h. here t j.joined), λ h. absurd (ground (arith, h, hc)));
      }

  pub replaced-Arrived :
      (t : Slots) (old : ℕ)
      → c.heap_cnt cat ≡ lpt_heap_sz
      → Holds (heap_of c cat) old
      → Joined (worth c cat) (λ a. a ≢ old) (heap_of c cat) l (c.heap_cnt cat) t
      → Arrived l cat (set_category (evict (set_heap c cat t) old) l cat)
  replaced-Arrived t old b was j =
      let s = set_heap c cat t in
      let d = evict s old in
      let at = set_heap-Holds c cat l t (Filed-FiledBut c cat f) hc nowhere j.others in
      record {
        filed =
            set_category-Filed d l cat
              (λ k h.
                HeapOk-worth (worth s k) _ (heap_of s k)
                  (λ a. worth-set_category s old lprops_uncat k a)
                  (set_heap-HeapOk c cat l t (Filed-FiledBut c cat f) hc nowhere j.others j.ok k h))
              (λ k a h m g. elim (Bool-cases (old == a)) [
                | inl z ↦
                    let y : a ≡ old = ground (arith, z) in
                    absurd (elim (at k a h g) [
                      | inl (e, q) ↦ elim (j.only a q) [ inl r ↦ m r | inr r ↦ r.0 y ]
                      | inr (e, q) ↦ e (
                          sym (f.own k a h q)
                          ∙ f.own cat a hc (subst (Holds (heap_of c cat)) (sym y) was))
                    ])
                | inr z ↦
                    let o : (c.props a).category ≡ k = elim (at k a h g) [
                      | inl (e, q) ↦ elim (j.only a q) [
                        | inl r ↦ absurd (m r)
                        | inr r ↦ f.own cat a hc r.1 ∙ sym e
                      ]
                      | inr (e, q) ↦ f.own k a h q
                    ] in
                    ground (arith, z, o)
              ])
              (λ k h g. elim (at k l h g) [ inl (e, q) ↦ sym e | inr (e, q) ↦ absurd (n k h q) ])
              (set_heap-room c cat l t (Filed-FiledBut c cat f) hc nowhere j.others
                (omega (arith, j.count, b)));
        category = inl (category_set d l cat);
        shelved =
            subst (Shelved (set_category d l cat) l) (sym (category_set d l cat))
              ((λ h. here t j.joined), λ h. absurd (ground (arith, h, hc)));
      }
