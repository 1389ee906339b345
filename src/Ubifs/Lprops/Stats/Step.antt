-- ===== src/Ubifs/Lprops/Stats/Step.antt =====
-- lprops.c: ubifs_change_lp keeps the space statistics.
use android_infotm_confident.Prelude.{ℕ, ◌≤◌, Option, none, some, List, ◌∷◌, ◌++◌, arith}
use android_infotm_confident.Ubifs.Lpt.Types.{Info, Lprops}
use android_infotm_confident.Ubifs.Lprops.Stats.{
  LpStats, Flags, ubifs_calc_dark, min_write_sz, drop_space, add_space, change_free, change_dirty,
  change_flags, change_stats, drop_taken, add_taken,
}
use android_infotm_confident.Ubifs.Lprops.Stats.Sums.{
  Sums, Others, Bare, Whole, Fits, others, Sums-Whole, Whole-Sums,
}

module _ (c : Info) (k : Others) (wm : min_write_sz ≤ c.dark_wm) where
  drop-Bare :
      (l : Lprops) (s : LpStats)
      → Fits c l
      → Whole c k l s
      → Bare c k l (drop_space c l (drop_taken c l s))
  unfolding drop_space ubifs_calc_dark
  drop-Bare l s f w = record {
    empty = ground (arith, w.empty);
    taken = ground (arith, w.taken);
    idx = ground (arith, w.idx);
    free = ground (arith, w.free);
    dirty = ground (arith, w.dirty);
    used = ground (arith, w.used, f);
    dead = ground (arith, w.dead);
    dark = ground (arith, w.dark, wm);
  }

  add-Whole :
      (l : Lprops) (s : LpStats)
      → Fits c l
      → Bare c k l s
      → Whole c k l (add_taken c l (add_space c l s))
  unfolding add_space ubifs_calc_dark
  add-Whole l s f w = record {
    empty = ground (arith, w.empty);
    taken = ground (arith, w.taken);
    idx = ground (arith, w.idx);
    free = ground (arith, w.free);
    dirty = ground (arith, w.dirty);
    used = ground (arith, w.used, f);
    dead = ground (arith, w.dead);
    dark = ground (arith, w.dark, wm);
  }

  free-Bare :
      (x : Option ℕ) (l : Lprops) (s : LpStats)
      → Bare c k l s
      → Bare c k (change_free c x (l, s)).0 (change_free c x (l, s)).1
  unfolding change_free
  free-Bare none l s w = w
  free-Bare (some x) l s w = record {
    empty = ground (arith, w.empty);
    taken = w.taken;
    idx = w.idx;
    free = ground (arith, w.free);
    dirty = w.dirty;
    used = w.used;
    dead = w.dead;
    dark = w.dark;
  }

  dirty-Bare :
      (x : Option ℕ) (p : Lprops × LpStats)
      → Bare c k p.0 p.1
      → Bare c k (change_dirty x p).0 (change_dirty x p).1
  unfolding change_dirty
  dirty-Bare none (l, s) w = w
  dirty-Bare (some x) (l, s) w = record {
    empty = w.empty;
    taken = w.taken;
    idx = w.idx;
    free = w.free;
    dirty = ground (arith, w.dirty);
    used = w.used;
    dead = w.dead;
    dark = w.dark;
  }

  flags-Bare :
      (x : Option Flags) (p : Lprops × LpStats)
      → Bare c k p.0 p.1
      → Bare c k (change_flags x p).0 (change_flags x p).1
  unfolding change_flags
  flags-Bare none (l, s) w = w
  flags-Bare (some x) (l, s) w = record {
    empty = w.empty;
    taken = w.taken;
    idx = ground (arith, w.idx);
    free = w.free;
    dirty = w.dirty;
    used = w.used;
    dead = w.dead;
    dark = w.dark;
  }

  change-Whole :
      (free dirty : Option ℕ) (flags : Option Flags) (l : Lprops) (s : LpStats)
      → Fits c l
      → Fits c (change_stats c free dirty flags l s).0
      → Whole c k l s
      → Whole c k (change_stats c free dirty flags l s).0 (change_stats c free dirty flags l s).1
  unfolding change_stats
  change-Whole free dirty flags l s f g w =
      let p = change_free c free (l, drop_space c l (drop_taken c l s)) in
      let q = change_flags flags (change_dirty dirty p) in
      add-Whole q.0 q.1 g (
        flags-Bare flags (change_dirty dirty p) (
          dirty-Bare dirty p
            (free-Bare free l (drop_space c l (drop_taken c l s)) (drop-Bare l s f w))))

-- Where the statistics are the sums over all LEBs, ubifs_change_lp keeps them so: after its changes
-- of the free space, the dirty space and the flags of one LEB, each of them or not, the statistics
-- are the sums with the new properties in the place of the old. Neither the old nor the new free and
-- dirty space exceeds the LEB, and the dark space watermark is a node's size or more.
pub change_stats-Sums :
    (c : Info) (free dirty : Option ℕ) (flags : Option Flags) (xs ys : List Lprops) (l : Lprops)
    (s : LpStats)
    → min_write_sz ≤ c.dark_wm
    → Fits c l
    → Fits c (change_stats c free dirty flags l s).0
    → Sums c (xs ++ (l ∷ ys)) s
    → Sums c
        (xs ++ ((change_stats c free dirty flags l s).0 ∷ ys))
        (change_stats c free dirty flags l s).1
change_stats-Sums c free dirty flags xs ys l s wm f g h =
    Whole-Sums c xs ys (change_stats c free dirty flags l s).0
      (change_stats c free dirty flags l s).1
      (change-Whole c (others c xs ys) wm free dirty flags l s f g (Sums-Whole c xs ys l s h))
