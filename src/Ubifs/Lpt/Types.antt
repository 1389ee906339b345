-- ===== src/Ubifs/Lpt/Types.antt =====
-- lpt.c: the part of `struct ubifs_info` (modules/ubifs/ubifs.h) that the tree uses, its nodes, and
-- the constants. Sizes, LEB numbers and bit widths are natural numbers.
use android_infotm_confident.Prelude.{ℕ, ◌+◌, ◌-◌, ◌/◌, Bool, List, Option, none, some}

abbrev pub fanout : ℕ
fanout = 4

abbrev pub crc_bytes : ℕ
crc_bytes = 2

abbrev pub crc_bits : ℕ
crc_bits = 16

abbrev pub type_bits : ℕ
type_bits = 4

abbrev pub lpt_pnode : ℕ
lpt_pnode = 0

abbrev pub lpt_nnode : ℕ
lpt_nnode = 1

abbrev pub lpt_ltab : ℕ
lpt_ltab = 2

abbrev pub lpt_lsave : ℕ
lpt_lsave = 3

abbrev pub einval : ℕ
einval = 22

-- The categories of LEB properties, and the two flags beside them.
abbrev pub lprops_uncat : ℕ
lprops_uncat = 0

abbrev pub lprops_dirty : ℕ
lprops_dirty = 1

abbrev pub lprops_dirty_idx : ℕ
lprops_dirty_idx = 2

abbrev pub lprops_free : ℕ
lprops_free = 3

abbrev pub lprops_empty : ℕ
lprops_empty = 4

abbrev pub lprops_freeable : ℕ
lprops_freeable = 5

abbrev pub lprops_frdi_idx : ℕ
lprops_frdi_idx = 6

-- struct ubifs_lprops, its flags apart: `index` is LPROPS_INDEX, `taken` is LPROPS_TAKEN.
pub record Lprops : Type 0 where
  pub free : ℕ
  pub dirty : ℕ
  pub index : Bool
  pub taken : Bool
  pub category : ℕ
  pub lnum : ℕ

-- struct ubifs_pnode.
pub record Pnode : Type 0 where
  pub num : ℕ
  pub lprops : List Lprops

-- struct ubifs_nbranch.
pub record Nbranch : Type 0 where
  pub lnum : ℕ
  pub offs : ℕ

-- struct ubifs_nnode; the parent is an argument of the functions that read it.
pub record Nnode : Type 0 where
  pub num : ℕ
  pub level : ℕ
  pub iip : ℕ
  pub nbranch : List Nbranch

-- struct ubifs_lpt_lprops.
pub record LptLprops : Type 0 where
  pub free : ℕ
  pub dirty : ℕ
  pub tgc : ℕ
  pub cmt : ℕ

pub record Info : Type 0 where
  pub leb_size : ℕ
  pub min_io_size : ℕ
  pub leb_cnt : ℕ
  pub max_leb_cnt : ℕ
  pub main_first : ℕ
  pub main_lebs : ℕ
  pub lpt_first : ℕ
  pub lpt_last : ℕ
  pub lpt_lebs : ℕ
  pub lpt_hght : ℕ
  pub pnode_cnt : ℕ
  pub nnode_cnt : ℕ
  pub space_bits : ℕ
  pub lpt_lnum_bits : ℕ
  pub lpt_offs_bits : ℕ
  pub lpt_spc_bits : ℕ
  pub pcnt_bits : ℕ
  pub lnum_bits : ℕ
  pub pnode_sz : ℕ
  pub nnode_sz : ℕ
  pub ltab_sz : ℕ
  pub lsave_sz : ℕ
  pub lpt_sz : ℕ
  pub big_lpt : Bool
  pub check_lpt_free : Bool
  pub lsave_cnt : ℕ
  pub lpt_lnum : ℕ
  pub ltab_lnum : ℕ
  pub ltab_dirty : Bool
  pub ltab : List LptLprops
  pub lsave : List ℕ
  pub min_idx_node_sz : ℕ
  pub dead_wm : ℕ
  pub dark_wm : ℕ

abbrev pub div_round_up : ℕ → ℕ → ℕ
div_round_up n d = (n + d - 1) / d

-- One step after another, where `none` stops.
infixl 5 ◌>>=◌
abbrev pub ◌>>=◌ {ℓ κ} : {A : Type ℓ} {B : Type κ} → Option A → (A → Option B) → Option B
none >>= f = none
some a >>= f = f a
