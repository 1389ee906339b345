-- ===== src/Ubifs/Lpt/Sound.antt =====
-- What the checks of lpt.c promise.
use Prim.Native.Nat.{bit_and}
use mathlib.Core.Logic.{◌↔◌}
use android_infotm_confident.Prelude.{
  ℕ, ◌+◌, ◌%◌, ◌≤◌, ◌<◌, ltb, ltb_ℤ, sub_ℕ, pos, ◌≡◌, ◌≢◌, refl, false, ◌==◌, if◌then◌else◌, List,
  [], ◌∷◌, Option, arith, ◌⊎◌,
}
use android_infotm_confident.Ubifs.Lpt.Types.{Info, Lprops, Pnode, Nnode, Nbranch}
use android_infotm_confident.Ubifs.Lpt.Dirt.{calc_nnode_num_from_parent, calc_pnode_num_from_parent}
use android_infotm_confident.Ubifs.Lpt.Check.{
  validate_lprops, validate_pnode, validate_branches, validate_nnode, level_under,
}

-- An LEB whose space fits it, counted in the units of the flash and of the tree.
pub record Fits (c : Info) (l : Lprops) : Type 0 where
  pub within : l.dirty + l.free ≤ c.leb_size
  pub units : (l.free % c.min_io_size ≡ 0) × (bit_and l.free 7 ≡ 0) × (bit_and l.dirty 7 ≡ 0)

abbrev pub AllFit : Info → List Lprops → Type 0
AllFit c [] = Unit
AllFit c (l ∷ rest) = Fits c l × AllFit c rest

validate_lprops-AllFit : (c : Info) (ls : List Lprops) → validate_lprops c ls ≡ 0 → AllFit c ls
unfolding validate_lprops
validate_lprops-AllFit c [] h = tt
validate_lprops-AllFit c (l ∷ ls) h = (
  record { within = ground arith; units = ground arith },
  validate_lprops-AllFit c ls (ground arith),
)

AllFit-validate_lprops : (c : Info) (ls : List Lprops) → AllFit c ls → validate_lprops c ls ≡ 0
unfolding validate_lprops
AllFit-validate_lprops c [] h = refl
AllFit-validate_lprops c (l ∷ ls) (f, h) =
    ground (arith, f.within, f.units, AllFit-validate_lprops c ls h)

-- validate_pnode returns 0 exactly if each LEB of the pnode has free and dirty space that
-- together fit an LEB, the free space a multiple of the smallest write, both with their low 3
-- bits clear, and, in the big model, the number of the pnode is the one computed from its
-- parent.
pub validate_pnode_iff :
    (c : Info) (pnode : Pnode) (parent : Nnode) (iip : ℕ)
    → (validate_pnode c pnode parent iip ≡ 0) ↔ (
        AllFit c pnode.lprops
        × ((c.big_lpt ≡ false) ⊎ (pnode.num ≡ calc_pnode_num_from_parent c parent iip)))
unfolding validate_pnode
validate_pnode_iff c pnode parent iip = (
  λ h. (validate_lprops-AllFit c pnode.lprops (ground arith), ground arith),
  λ (f, n). ground (arith, AllFit-validate_lprops c pnode.lprops f),
)

-- A branch that is absent, or that leads to a node of that size in an LEB of the tree.
pub record Leads (c : Info) (size : ℕ) (b : Nbranch) : Type 0 where
  pub place :
      ((b.lnum ≡ 0) × (b.offs ≡ 0))
      ⊎ ((b.lnum ≢ 0)
          × (c.lpt_first ≤ b.lnum)
          × (b.lnum ≤ c.lpt_last)
          × (b.offs + size ≤ c.leb_size))

abbrev pub AllLead : Info → ℕ → List Nbranch → Type 0
AllLead c size [] = Unit
AllLead c size (b ∷ rest) = Leads c size b × AllLead c size rest

-- An offset is not above the difference if it leaves room for the node.
beyond : (leb size offs : ℕ) → ltb_ℤ (sub_ℕ leb size) (pos offs) ≡ ltb leb (offs + size)
beyond leb size offs = ground arith

validate_branches-AllLead :
    (c : Info) (size : ℕ) (bs : List Nbranch)
    → validate_branches c (sub_ℕ c.leb_size size) bs ≡ 0
    → AllLead c size bs
unfolding validate_branches
validate_branches-AllLead c size [] h = tt
validate_branches-AllLead c size (b ∷ bs) h =
    let e = beyond c.leb_size size b.offs in
    (
      record { place = ground (arith, h, e) },
      validate_branches-AllLead c size bs (ground (arith, h, e)),
    )

AllLead-validate_branches :
    (c : Info) (size : ℕ) (bs : List Nbranch)
    → AllLead c size bs
    → validate_branches c (sub_ℕ c.leb_size size) bs ≡ 0
unfolding validate_branches
AllLead-validate_branches c size [] h = refl
AllLead-validate_branches c size (b ∷ bs) (l, h) =
    ground (arith, l.place, beyond c.leb_size size b.offs, AllLead-validate_branches c size bs h)

-- validate_nnode returns 0 exactly if the level below the parent, or the height of the tree at
-- the root, is at least 1, each branch is absent, with number and offset 0, or has the number of
-- an LEB of the tree and an offset from which a node of the level below (a pnode at level 1, and an
-- nnode above it) fits the LEB, and, in the big model, the number of the nnode is the one computed
-- from its parent.
pub validate_nnode_iff :
    (c : Info) (nnode : Nnode) (parent : Option Nnode) (iip : ℕ)
    → (validate_nnode c nnode parent iip ≡ 0) ↔ (
        (0 < level_under c parent)
        × AllLead c (if level_under c parent == 1 then c.pnode_sz else c.nnode_sz) nnode.nbranch
        × ((c.big_lpt ≡ false) ⊎ (nnode.num ≡ calc_nnode_num_from_parent c parent iip)))
unfolding validate_nnode
validate_nnode_iff c nnode parent iip = (
  λ h. (ground arith, validate_branches-AllLead c _ nnode.nbranch (ground arith), ground arith),
  λ (p, l, n). ground (arith, AllLead-validate_branches c _ nnode.nbranch l),
)
