-- ===== src/Ubifs/Lprops.antt =====
-- modules/ubifs/lprops.c: the heaps of LEB properties of one category. An `ubifs_lprops` is known by
-- its address.
pub mod Frame
pub mod Sift
pub mod Rise
pub mod Sink
pub mod Members
pub mod Heaps
pub mod Remove
pub mod Change
pub mod Category
pub mod Filed
pub mod Shelve
pub mod Arrive
pub mod Lists
pub mod Stay
pub mod Others
pub mod Recategorize
pub mod Find
pub mod Stats
pub mod Tests
use Prim.Native.Nat.{bit_and}
use android_infotm_confident.Prelude.{
  ℕ, zero, suc, ◌+◌, ◌-◌, ◌*◌, ◌/◌, Bool, true, false, ◌==◌, ltb, leb, if◌then◌else◌, Option, none,
  some,
}

-- `LPT_HEAP_SZ`
abbrev pub lpt_heap_sz : ℕ
lpt_heap_sz = 256

abbrev pub upd : (ℕ → ℕ) → ℕ → ℕ → ℕ → ℕ
upd f i x j = if i == j then x else f j

-- One heap, with the `hpos` of every address.
pub record Slots : Type 0 where
  pub arr : ℕ → ℕ
  pub hpos : ℕ → ℕ
  pub cnt : ℕ

abbrev pub parent : ℕ → ℕ
parent i = (i - 1) / 2

-- `arr[from]` becomes what stands at `to`, and `lprops` goes there.
abbrev pub move : Slots → ℕ → ℕ → ℕ → Slots
move s lprops from to = record s {
  arr = upd (upd s.arr from (s.arr to)) to lprops;
  hpos = upd (upd s.hpos (s.arr to) from) lprops to;
}

-- What add_to_lpt_heap did: the entry that had to go is uncategorized.
pub data Added : Type 0 where
  added : Slots → Added
  replaced : ℕ → Slots → Added
  refused : Added

-- The position at the bottom that a full heap gives up, picked by the address.
abbrev pub bottom_pos : ℕ → ℕ
bottom_pos lprops = let b = lpt_heap_sz / 2 - 1 in bit_and (lprops / 16) b + b

abbrev pub outcome : (Slots → Added) → Option Slots → Option Added
outcome f none = none
outcome f (some s) = some (f s)

abbrev pub seat : Slots → ℕ → ℕ → Slots
seat s lprops i = record s { arr = upd s.arr i lprops; hpos = upd s.hpos lprops i }

-- `val` is get_heap_comp_val for the category of the heap. The loops run on fuel.
module _ (val : ℕ → ℕ) where
  unfoldable pub move_up_loop : ℕ → Slots → ℕ → ℕ → Option Slots
  move_up_loop zero s lprops hpos = none
  move_up_loop (suc fuel) s lprops hpos = elim (hpos == 0) [
    | true ↦ some s
    | false ↦ elim (leb (val lprops) (val (s.arr (parent hpos)))) [
      | true ↦ some s
      | false ↦ move_up_loop fuel (move s lprops hpos (parent hpos)) lprops (parent hpos)
    ]
  ]

  unfoldable pub move_up_lpt_heap : Slots → ℕ → Option Slots
  unfolding move_up_loop
  move_up_lpt_heap s lprops = move_up_loop (suc (s.hpos lprops)) s lprops (s.hpos lprops)

  -- The first `while` of adjust_lpt_heap, where the entry is greater than its parent.
  unfoldable pub adjust_up_loop : ℕ → Slots → ℕ → ℕ → Option Slots
  adjust_up_loop zero s lprops hpos = none
  adjust_up_loop (suc fuel) s lprops hpos =
      let ppos = parent hpos in
      let t = move s lprops hpos ppos in
      elim (ppos == 0) [
        | true ↦ some t
        | false ↦ elim (leb (val lprops) (val (t.arr (parent ppos)))) [
          | true ↦ some t
          | false ↦ adjust_up_loop fuel t lprops ppos
        ]
      ]

  -- The child to promote, if there is one that is greater.
  unfoldable pub greater_child : Slots → ℕ → ℕ → Option ℕ
  greater_child s lprops hpos =
      let cpos = hpos * 2 + 1 in
      if leb s.cnt cpos
      then none
      else if ltb (val lprops) (val (s.arr cpos))
      then (if ltb (cpos + 1) s.cnt
          then (if ltb (val (s.arr cpos)) (val (s.arr (cpos + 1)))
              then some (cpos + 1)
              else some cpos)
          else some cpos)
      else if leb s.cnt (cpos + 1)
      then none
      else if ltb (val lprops) (val (s.arr (cpos + 1)))
      then some (cpos + 1)
      else none

  -- The second `while` of adjust_lpt_heap.
  unfoldable pub adjust_down_loop : ℕ → Slots → ℕ → ℕ → Option Slots
  unfolding greater_child
  adjust_down_loop zero s lprops hpos = none
  adjust_down_loop (suc fuel) s lprops hpos = elim (greater_child s lprops hpos) [
    | none ↦ some s
    | some cpos ↦ adjust_down_loop fuel (move s lprops hpos cpos) lprops cpos
  ]

  unfoldable pub adjust_lpt_heap : Slots → ℕ → ℕ → Option Slots
  unfolding adjust_up_loop adjust_down_loop
  adjust_lpt_heap s lprops hpos =
      if hpos == 0
      then adjust_down_loop (suc s.cnt) s lprops hpos
      else if ltb (val (s.arr (parent hpos))) (val lprops)
      then adjust_up_loop (suc hpos) s lprops hpos
      else adjust_down_loop (suc s.cnt) s lprops hpos

  unfoldable pub add_to_lpt_heap : ℕ → Slots → ℕ → Option Added
  unfolding move_up_lpt_heap
  add_to_lpt_heap max_cnt s lprops =
      let cpos = bottom_pos lprops in
      if leb max_cnt s.cnt
      then (if ltb (val (s.arr cpos)) (val lprops)
          then outcome (replaced (s.arr cpos)) (move_up_lpt_heap (seat s lprops cpos) lprops)
          else some refused)
      else outcome added
          (move_up_lpt_heap (record (seat s lprops s.cnt) { cnt = s.cnt + 1 }) lprops)

  unfoldable pub remove_from_lpt_heap : Slots → ℕ → Option Slots
  unfolding adjust_lpt_heap
  remove_from_lpt_heap s lprops =
      let hpos = s.hpos lprops in
      let last = s.cnt - 1 in
      if ltb hpos last
      then adjust_lpt_heap (record (seat s (s.arr last) hpos) { cnt = last }) (s.arr last) hpos
      else some (record s { cnt = last })
