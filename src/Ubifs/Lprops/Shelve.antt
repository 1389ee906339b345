-- ===== src/Ubifs/Lprops/Shelve.antt =====
-- lprops.c: an LEB leaves its category and comes to another.
use mathlib.Core.Path.{subst}
use android_infotm_confident.Prelude.{
  ℕ, ◌≡◌, ◌≢◌, refl, sym, ◌∙◌, Bool, true, false, ◌==◌, if◌then◌else◌, arith, Bool-cases, inl, inr,
  Option, none, some, negsuc,
}
use android_infotm_confident.Ubifs.Lpt.Types.{lprops_freeable}
use android_infotm_confident.Ubifs.Lprops.{Slots}
use android_infotm_confident.Ubifs.Lprops.Frame.{Holds, Finds}
use android_infotm_confident.Ubifs.Lprops.Members.{HeapOk}
use android_infotm_confident.Ubifs.Lprops.Remove.{Left, remove_from_lpt_heap_lem}
use android_infotm_confident.Ubifs.Lprops.Category.{
  Categories, heap_of, worth, is_heap, is_list, with_heap, list_del, count_freeable,
  ubifs_remove_from_cat,
}
use android_infotm_confident.Ubifs.Lprops.Filed.{
  FiledBut, Filed, Loosened, set_heap-HeapOk, set_heap-Holds, set_heap-room,
}

-- A result, in `P`.
abbrev pub Files : (Categories → Type 0) → Option Categories → Type 0
Files P none = ⊥
Files P (some c) = P c

-- The heaps are in order without the LEB, whose properties are as before.
pub record Taken (c : Categories) (l : ℕ) (d : Categories) : Type 0 where
  pub filed : Filed d
  pub loose : Loosened d l
  pub props : d.props ≡ c.props

removed-Taken :
    (c : Categories) (l cat : ℕ) (o : Option Slots)
    → FiledBut c cat
    → is_heap cat ≡ true
    → Holds (heap_of c cat) l
    → Finds (Left (worth c cat) (heap_of c cat) l) o
    → Files (Taken c l) (with_heap c cat o)
removed-Taken c l cat none f hc h r = r
removed-Taken c l cat (some t) f hc h r =
    let nowhere : (k : ℕ) → is_heap k ≡ true → k ≢ cat → Holds (heap_of c k) l → ⊥ =
      λ k hk n g. n (sym (f.own k l hk g) ∙ f.own cat l hc h) in
    let frame : (a : ℕ) → a ≢ l → (Holds (heap_of c cat) a → ⊥) → t.hpos a ≡ c.hpos a =
      λ a n m. r.others a m in
    record {
      filed = record {
        heaps = set_heap-HeapOk c cat l t f hc nowhere frame r.ok;
        own = λ k a hk g. elim (set_heap-Holds c cat l t f hc nowhere frame k a hk g) [
          | inl (e, m) ↦ f.own cat a hc (r.only a m) ∙ sym e
          | inr (n, m) ↦ f.own k a hk m
        ];
        room = set_heap-room c cat l t f hc nowhere frame (omega (arith, r.count, f.room cat hc));
      };
      loose = λ k hk g. elim (set_heap-Holds c cat l t f hc nowhere frame k l hk g) [
        | inl (e, m) ↦ r.gone m
        | inr (n, m) ↦ nowhere k hk n m
      ];
      props = refl;
    }

unlisted-Taken :
    (c : Categories) (l cat : ℕ) (b listed : Bool)
    → Filed c
    → Loosened c l
    → Files (Taken c l) (
        if b
        then some (list_del (count_freeable c (negsuc 0)) cat l)
        else if listed
        then some (list_del c cat l)
        else some c)
unlisted-Taken c l cat true listed f h = record {
  filed = record { heaps = f.heaps; own = f.own; room = f.room };
  loose = h;
  props = refl;
}
unlisted-Taken c l cat false true f h = record {
  filed = record { heaps = f.heaps; own = f.own; room = f.room };
  loose = h;
  props = refl;
}
unlisted-Taken c l cat false false f h = record { filed = f; loose = h; props = refl }

-- The LEB stands where its category says.
abbrev pub Shelved : Categories → ℕ → ℕ → Type 0
Shelved c l cat =
    (is_heap cat ≡ true → Holds (heap_of c cat) l) × (is_heap cat ≡ false → Loosened c l)

-- All heaps are in order, but for a change of what `l` is worth in its category.
pub record Unsettled (c : Categories) (l cat : ℕ) : Type 0 where
  pub but : FiledBut c cat
  pub shelved : Shelved c l cat
  pub old : ℕ → ℕ
  pub heap : is_heap cat ≡ true → HeapOk old (heap_of c cat)
  pub same : (a : ℕ) → a ≢ l → worth c cat a ≡ old a

pub Unsettled-Filed :
    (c : Categories) (l cat : ℕ) → is_heap cat ≡ false → Unsettled c l cat → Filed c
Unsettled-Filed c l cat h u = record {
  heaps = λ k hk.
      u.but.heaps k hk (λ e. absurd (ground (arith, h, subst (λ j. is_heap j ≡ true) e hk)));
  own = u.but.own;
  room = u.but.room;
}

pub ubifs_remove_from_cat-Taken :
    (c : Categories) (l cat : ℕ)
    → Unsettled c l cat
    → Files (Taken c l) (ubifs_remove_from_cat c l cat)
unfolding ubifs_remove_from_cat
ubifs_remove_from_cat-Taken c l cat u = elim (Bool-cases (is_heap cat)) [
  | inl h ↦
      rw (h, ubifs_remove_from_cat)
        (removed-Taken c l cat _ u.but h (u.shelved.0 h) (
          remove_from_lpt_heap_lem u.old (worth c cat) (heap_of c cat) l (u.heap h) u.same
            (u.shelved.0 h)))
  | inr h ↦
      rw (h, ubifs_remove_from_cat)
        (unlisted-Taken c l cat (cat == lprops_freeable) (is_list cat) (Unsettled-Filed c l cat h u)
          (u.shelved.1 h))
]
