-- ===== src/Ubifs/Lprops/Stats.antt =====
-- lprops.c: ubifs_calc_dark, and what ubifs_change_lp changes of an LEB's properties and of the
-- space statistics before the LEB's category.
pub mod Sums
pub mod Step
use android_infotm_confident.Prelude.{
  ℕ, ◌+◌, ◌-◌, ◌*◌, ◌/◌, Bool, true, false, not, ◌==◌, ◌&&◌, ltb, leb, if◌then◌else◌, Option, none,
  some, ℤ, pos, sub_ℕ, pos_part, neg_part, ◌+ℤ◌,
}
use android_infotm_confident.Ubifs.Lpt.Types.{Info, Lprops}

-- `MIN_WRITE_SZ`
abbrev pub min_write_sz : ℕ
min_write_sz = 56

-- `struct ubifs_lp_stats`
pub record LpStats : Type 0 where
  pub empty_lebs : ℤ
  pub taken_empty_lebs : ℤ
  pub idx_lebs : ℤ
  pub total_free : ℤ
  pub total_dirty : ℤ
  pub total_used : ℤ
  pub total_dead : ℤ
  pub total_dark : ℤ

-- The flags of an LEB, and its category among them.
pub record Flags : Type 0 where
  pub index : Bool
  pub taken : Bool
  pub category : ℕ

abbrev pub minus : ℤ → ℤ → ℤ
minus a b = sub_ℕ (pos_part a + neg_part b) (neg_part a + pos_part b)

unfoldable pub ubifs_calc_dark : Info → ℕ → ℤ
ubifs_calc_dark c spc =
    if ltb spc c.dark_wm
    then pos spc
    else if ltb (spc - c.dark_wm) min_write_sz
    then sub_ℕ spc min_write_sz
    else pos c.dark_wm

abbrev pub align8 : ℕ → ℕ
align8 x = (x + 8 - 1) / 8 * 8

abbrev pub taken_empty : Info → Lprops → Bool
taken_empty c l = l.taken && (l.free == c.leb_size)

-- What an LEB that is not of the index counts for, taken away from the statistics.
unfoldable pub drop_space : Info → Lprops → LpStats → LpStats
unfolding ubifs_calc_dark
drop_space c l s =
    let spc = l.free + l.dirty in
    if l.index then s else record s {
      total_dead = if ltb spc c.dead_wm then minus s.total_dead (pos spc) else s.total_dead;
      total_dark =
          if ltb spc c.dead_wm then s.total_dark else minus s.total_dark (ubifs_calc_dark c spc);
      total_used = minus s.total_used (sub_ℕ c.leb_size spc);
    }

unfoldable pub add_space : Info → Lprops → LpStats → LpStats
unfolding ubifs_calc_dark
add_space c l s =
    let spc = l.free + l.dirty in
    if l.index then s else record s {
      total_dead = if ltb spc c.dead_wm then s.total_dead +ℤ pos spc else s.total_dead;
      total_dark =
          if ltb spc c.dead_wm then s.total_dark else s.total_dark +ℤ ubifs_calc_dark c spc;
      total_used = s.total_used +ℤ sub_ℕ c.leb_size spc;
    }

-- `none` stands for LPROPS_NC.
unfoldable pub change_free : Info → Option ℕ → Lprops × LpStats → Lprops × LpStats
change_free c none (l, s) = (l, s)
change_free c (some x) (l, s) =
    let free = align8 x in
    (
      record l { free = free },
      record s {
        total_free = s.total_free +ℤ sub_ℕ free l.free;
        empty_lebs =
            if free == c.leb_size
            then (if l.free == c.leb_size then s.empty_lebs else s.empty_lebs +ℤ pos 1)
            else if l.free == c.leb_size
            then minus s.empty_lebs (pos 1)
            else s.empty_lebs;
      },
    )

unfoldable pub change_dirty : Option ℕ → Lprops × LpStats → Lprops × LpStats
change_dirty none (l, s) = (l, s)
change_dirty (some x) (l, s) =
    let dirty = align8 x in
    (record l { dirty = dirty }, record s { total_dirty = s.total_dirty +ℤ sub_ℕ dirty l.dirty })

unfoldable pub change_flags : Option Flags → Lprops × LpStats → Lprops × LpStats
change_flags none (l, s) = (l, s)
change_flags (some f) (l, s) = (
  record l { index = f.index; taken = f.taken; category = f.category },
  record s {
    idx_lebs =
        if l.index
        then (if f.index then s.idx_lebs else minus s.idx_lebs (pos 1))
        else if f.index
        then s.idx_lebs +ℤ pos 1
        else s.idx_lebs;
  },
)

-- `taken_empty_lebs` goes down before the change, and up after it.
abbrev pub drop_taken : Info → Lprops → LpStats → LpStats
drop_taken c l s = record s {
  taken_empty_lebs =
      if taken_empty c l then minus s.taken_empty_lebs (pos 1) else s.taken_empty_lebs;
}

abbrev pub add_taken : Info → Lprops → LpStats → LpStats
add_taken c l s = record s {
  taken_empty_lebs = if taken_empty c l then s.taken_empty_lebs +ℤ pos 1 else s.taken_empty_lebs;
}

unfoldable pub change_stats :
    Info → Option ℕ → Option ℕ → Option Flags → Lprops → LpStats → Lprops × LpStats
unfolding drop_space add_space change_free change_dirty change_flags
change_stats c free dirty flags l s =
    let (n, t) =
      change_flags flags
        (change_dirty dirty (change_free c free (l, drop_space c l (drop_taken c l s)))) in
    (n, add_taken c n (add_space c n t))
