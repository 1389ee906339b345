-- ===== src/Ubi/Eba/Beyond.antt =====
-- eba.c: an eraseblock beyond the end of its volume.
use mathlib.Core.Path.{subst}
use android_infotm_confident.Prelude.{
  ℕ, zero, suc, ◌+◌, ◌≤◌, ◌≡◌, refl, ap, sym, ◌∙◌, true, Option, none, some, List, [], ◌∷◌, set,
  get_elem?, ℤ, pos, arith, inl, inr, ◌⊎◌,
}
use android_infotm_confident.Outcome.{
  Outcome, ok, err, fault, bind, ◌>>=◌, get_state, pure, recover, or_fault,
}
use android_infotm_confident.Ubi.Rb.{inorder, find}
use android_infotm_confident.Ubi.Rb.Walk.{walk-find}
use android_infotm_confident.Ubi.Scan.{ScanLeb_lnum, ubi_scan_find_sv}
use android_infotm_confident.Ubi.Scan.Types.{ScanLeb, ScanVolume, ScanInfo}
use android_infotm_confident.Ubi.Scan.View.{leb_at, leb_in, volume_at, Neat, NeatVolume}
use android_infotm_confident.Ubi.Eba.{
  EbaVolume, EbaDevice, eba_alloc, idx2vol_id, blank_tbl, fill_tbl, tbl_of, init_tbls, raise_sqnum,
  free_tbls, set_up_tbls, EbaAct, ubi_eba_init_scan,
}

fill_tbl-none :
    (n l : ℕ) (xs : List ScanLeb) (tbl : List ℤ) (seb : ScanLeb)
    → find ScanLeb_lnum l xs ≡ some seb
    → n ≤ l
    → fill_tbl n xs tbl ≡ none
unfolding fill_tbl
fill_tbl-none n l [] tbl seb e h = cc
fill_tbl-none n l (x ∷ xs) tbl seb e h =
    ground (arith, e, h, fill_tbl-none n l xs (set tbl x.lnum (pos x.pnum)) seb)

tbl_of-none :
    (s : ScanInfo) (v n l : ℕ) (seb : ScanLeb)
    → Neat s.volumes
    → leb_at s.volumes v l ≡ some seb
    → n ≤ l
    → tbl_of s v n ≡ none
unfolding ubi_scan_find_sv
tbl_of-none s v n l seb neat e h = go (volume_at s.volumes v) (neat.roots v) e
  where
    go :
        (o : Option ScanVolume)
        → NeatVolume o
        → leb_in l o ≡ some seb
        → (elim o as (λ _. Option (List ℤ)) [
          | none ↦ some (blank_tbl n)
          | some sv ↦ fill_tbl n (inorder sv.root) (blank_tbl n)
        ])
          ≡ none
    go none t e = cc
    go (some sv) t e =
        fill_tbl-none n l (inorder sv.root) (blank_tbl n) seb
          (sym (walk-find ScanLeb_lnum true l sv.root t) ∙ e) h

eba_alloc-ok : (u : EbaDevice) → u.allocs ≡ [] → eba_alloc u ≡ ok tt u
unfolding eba_alloc
eba_alloc-ok u a = ground (arith, a)

recover-fault :
    (m : EbaAct (Unit {0})) (h : ℕ → EbaAct (Unit {0})) (u : EbaDevice)
    → m u ≡ fault
    → recover m h u ≡ fault
unfolding ◌>>=◌ recover
recover-fault m h u e =
    ap
      (λ o. elim o as (λ _. Outcome EbaDevice (Unit {0})) [
        | ok a t ↦ ok a t
        | err n t ↦ h n t
        | fault ↦ fault
      ])
      e

module _ (s : ScanInfo) (neat : Neat s.volumes) (l : ℕ) (v : EbaVolume) (seb : ScanLeb)
    (far : v.reserved_pebs ≤ l) where
  -- The volume at hand stops the loop, or a later one does.
  stopped :
      (w : EbaVolume) (vs : List (Option EbaVolume)) (idx : ℕ) (u : EbaDevice) (o : Option (List ℤ))
      → (o ≡ none) ⊎ (init_tbls s (idx + 1) vs u ≡ fault)
      → bind (or_fault o u) (λ tbl.
        init_tbls s (idx + 1) vs >>= λ ws. pure (some (record w { eba_tbl = some tbl }) ∷ ws))
        ≡ fault
  unfolding ◌>>=◌ bind or_fault
  stopped w vs idx u none h = refl
  stopped w vs idx u (some tbl) (inl h) = cc
  stopped w vs idx u (some tbl) (inr h) = rw h refl

  -- Where memory is there, the tables are not all set up.
  init_tbls-stops :
      (vs : List (Option EbaVolume)) (idx i : ℕ) (u : EbaDevice)
      → u.allocs ≡ []
      → get_elem? vs i ≡ some (some v)
      → leb_at s.volumes (idx2vol_id u.vtbl_slots (idx + i)) l ≡ some seb
      → init_tbls s idx vs u ≡ fault
  unfolding init_tbls ◌>>=◌ pure get_state bind
  init_tbls-stops [] idx i u a g e = cc
  init_tbls-stops (none ∷ vs) idx zero u a g e = cc
  init_tbls-stops (none ∷ vs) idx (suc i) u a g e =
      rw
        (init_tbls-stops vs (idx + 1) i u a g
          (subst (λ n. leb_at s.volumes (idx2vol_id u.vtbl_slots n) l ≡ some seb) (omega arith) e))
        refl
  init_tbls-stops (some w ∷ vs) idx zero u a g e = rw (eba_alloc-ok u a) (
      stopped w vs idx u _ (
        inl (
          tbl_of-none s (idx2vol_id u.vtbl_slots idx) w.reserved_pebs l seb neat
            (subst (λ n. leb_at s.volumes (idx2vol_id u.vtbl_slots n) l ≡ some seb) (omega arith) e)
            (subst (λ n. n ≤ l) (reserved_same w v (sym g)) far))))
    where
      reserved_same :
          (x y : EbaVolume)
          → ◌≡◌ {A = Option (Option EbaVolume)} (some (some y)) (some (some x))
          → y.reserved_pebs ≡ x.reserved_pebs
      reserved_same x y h = ap reserved h
        where
          reserved : Option (Option EbaVolume) → ℕ
          reserved none = 0
          reserved (some none) = 0
          reserved (some (some z)) = z.reserved_pebs
  init_tbls-stops (some w ∷ vs) idx (suc i) u a g e = rw (eba_alloc-ok u a) (
      stopped w vs idx u _ (
        inr (
          init_tbls-stops vs (idx + 1) i u a g (
            subst (λ n. leb_at s.volumes (idx2vol_id u.vtbl_slots n) l ≡ some seb) (omega arith)
              e))))

  set_up_tbls-stops :
      (rsvd least i : ℕ) (u : EbaDevice)
      → u.allocs ≡ []
      → get_elem? u.volumes i ≡ some (some v)
      → leb_at s.volumes (idx2vol_id u.vtbl_slots i) l ≡ some seb
      → set_up_tbls rsvd least s u ≡ fault
  unfolding set_up_tbls ◌>>=◌ bind get_state
  set_up_tbls-stops rsvd least i u a g e =
      rw
        (init_tbls-stops u.volumes 0 i u a g
          (subst (λ n. leb_at s.volumes (idx2vol_id u.vtbl_slots n) l ≡ some seb) (omega arith) e))
        refl

  -- An LEB that the scan has found at or beyond the end of its volume, as after a power cut while the
  -- volume is made smaller: where memory is there, ubi_eba_init_scan writes outside a table.
  pub ubi_eba_init_scan-fault :
      (rsvd least i : ℕ) (u : EbaDevice)
      → u.allocs ≡ []
      → get_elem? u.volumes i ≡ some (some v)
      → leb_at s.volumes (idx2vol_id u.vtbl_slots i) l ≡ some seb
      → ubi_eba_init_scan rsvd least s u ≡ fault
  unfolding ubi_eba_init_scan ◌>>=◌ bind raise_sqnum
  ubi_eba_init_scan-fault rsvd least i u a g e =
      let r = record u { global_sqnum = s.max_sqnum + 1 } in
      recover-fault (set_up_tbls rsvd least s) free_tbls r (set_up_tbls-stops rsvd least i r a g e)
