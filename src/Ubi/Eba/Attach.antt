-- ===== src/Ubi/Eba/Attach.antt =====
-- eba.c after scan.c: the tables of an attached device.
use mathlib.Core.Path.{subst}
use android_infotm_confident.Prelude.{
  ℕ, ◌+◌, ◌<◌, ◌≡◌, refl, ap, sym, ◌∙◌, Option, none, some, List, [], ◌∷◌, get_elem?, ℤ, arith,
}
use android_infotm_confident.Outcome.{
  Outcome, ok, err, fault, bind, ◌>>=◌, get_state, pure, fail, recover, or_fault,
}
use android_infotm_confident.Outcome.Keeps.{Keeps, Ends, bind-Ends, Ends-Keeps, Ends-mono}
use android_infotm_confident.Ubi.Scan.Types.{ScanInfo}
use android_infotm_confident.Ubi.Scan.View.{leb_at, Neat}
use android_infotm_confident.Ubi.Eba.{
  EbaVolume, EbaDevice, EbaAct, eba_alloc, idx2vol_id, tbl_of, init_tbls, set_tbls, raise_sqnum,
  reserve_pebs, free_tbls, set_up_tbls, ubi_eba_init_scan,
}
use android_infotm_confident.Ubi.Eba.Table.{entry, tbl_of-entry}

-- A table that maps each LEB of a volume to where it was found.
abbrev pub IsTable : ScanInfo → ℕ → ℕ → Option (List ℤ) → Type 0
IsTable s v n none = ⊥
IsTable s v n (some tbl) = (l : ℕ) → l < n → get_elem? tbl l ≡ some (entry (leb_at s.volumes v l))

-- The volumes `ws` are the volumes `vs` with their tables, from an index on.
abbrev pub Mapped : ScanInfo → ℕ → ℕ → List (Option EbaVolume) → List (Option EbaVolume) → Type 0
Mapped s slots idx [] [] = Unit
Mapped s slots idx [] (w ∷ ws) = ⊥
Mapped s slots idx (v ∷ vs) [] = ⊥
Mapped s slots idx (none ∷ vs) (none ∷ ws) = Mapped s slots (idx + 1) vs ws
Mapped s slots idx (none ∷ vs) (some w ∷ ws) = ⊥
Mapped s slots idx (some v ∷ vs) (none ∷ ws) = ⊥
Mapped s slots idx (some v ∷ vs) (some w ∷ ws) =
    (w.reserved_pebs ≡ v.reserved_pebs)
    × IsTable s (idx2vol_id slots idx) v.reserved_pebs w.eba_tbl
    × Mapped s slots (idx + 1) vs ws

-- What stays.
abbrev kind : EbaDevice → ℕ × ℕ
kind u = (u.vtbl_slots, u.global_sqnum)

eba_alloc-Keeps : Keeps kind eba_alloc
unfolding eba_alloc
eba_alloc-Keeps = record { at = λ u. ground arith }

module _ (s : ScanInfo) (neat : Neat s.volumes) (slots seq : ℕ) where
  abbrev Mapping : ℕ → List (Option EbaVolume) → List (Option EbaVolume) → EbaDevice → Type 0
  Mapping idx vs ws u = Mapped s slots idx vs ws × (kind u ≡ (slots, seq))

  -- The volume at hand, once its table is there.
  mapped_volume :
      (v : EbaVolume) (vs : List (Option EbaVolume)) (idx : ℕ) (t : EbaDevice)
      → ((t : EbaDevice)
          → kind t ≡ (slots, seq)
          → Ends (Mapping (idx + 1) vs) (init_tbls s (idx + 1) vs t))
      → kind t ≡ (slots, seq)
      → (o : Option (List ℤ)) → tbl_of s (idx2vol_id t.vtbl_slots idx) v.reserved_pebs ≡ o
      → Ends (Mapping idx (some v ∷ vs)) (
          bind (or_fault o t) (λ tbl.
            init_tbls s (idx + 1) vs >>= λ ws. pure (some (record v { eba_tbl = some tbl }) ∷ ws)))
  unfolding ◌>>=◌ bind or_fault pure
  mapped_volume v vs idx t later k none e = tt
  mapped_volume v vs idx t later k (some tbl) e =
      bind-Ends (Mapping (idx + 1) vs) (Mapping idx (some v ∷ vs)) (init_tbls s (idx + 1) vs t) _
        (later t k)
        λ ws w h. (
          (
            refl,
            tbl_of-entry s (idx2vol_id slots idx) v.reserved_pebs tbl neat (
                subst (λ n. tbl_of s (idx2vol_id n idx) v.reserved_pebs ≡ some tbl)
                  (ap (λ (p : ℕ × ℕ). p.0) k) e),
            h.0,
          ),
          h.1,
        )

  init_tbls-Mapped :
      (vs : List (Option EbaVolume)) (idx : ℕ) (u : EbaDevice)
      → kind u ≡ (slots, seq)
      → Ends (Mapping idx vs) (init_tbls s idx vs u)
  unfolding init_tbls ◌>>=◌ pure get_state bind
  init_tbls-Mapped [] idx u k = (tt, k)
  init_tbls-Mapped (none ∷ vs) idx u k =
      bind-Ends (Mapping (idx + 1) vs) (Mapping idx (none ∷ vs)) (init_tbls s (idx + 1) vs u) _
        (init_tbls-Mapped vs (idx + 1) u k) λ ws t h. h
  init_tbls-Mapped (some v ∷ vs) idx u k =
      bind-Ends (λ _ t. kind t ≡ (slots, seq)) (Mapping idx (some v ∷ vs)) (eba_alloc u) _
        (Ends-Keeps kind eba_alloc u eba_alloc-Keeps k)
        λ _ t kt.
          mapped_volume v vs idx t (init_tbls-Mapped vs (idx + 1)) kt
            (tbl_of s (idx2vol_id t.vtbl_slots idx) v.reserved_pebs) refl

abbrev pub Attached : ScanInfo → EbaDevice → Unit {0} → EbaDevice → Type 0
Attached s u _ t = Mapped s u.vtbl_slots 0 u.volumes t.volumes × (t.global_sqnum ≡ s.max_sqnum + 1)

abbrev tables : EbaDevice → List (Option EbaVolume) × ℕ
tables u = (u.volumes, u.global_sqnum)

reserve_pebs-Keeps : (rsvd least : ℕ) → Keeps tables (reserve_pebs rsvd least)
unfolding reserve_pebs fail
reserve_pebs-Keeps rsvd least = record { at = λ u. ground arith }

-- A failure stays one.
recovered :
    (Q : Unit {0} → EbaDevice → Type 0) (m : EbaAct (Unit {0})) (u : EbaDevice)
    → Ends Q (m u)
    → Ends Q (recover m free_tbls u)
unfolding ◌>>=◌ recover free_tbls
recovered Q m u h = go (m u) h
  where
    go :
        (o : Outcome EbaDevice (Unit {0}))
        → Ends Q o
        → Ends Q (elim o as (λ _. Outcome EbaDevice (Unit {0})) [
          | ok a t ↦ ok a t
          | err e t ↦ free_tbls e t
          | fault ↦ fault
        ])
    go (ok a t) h = h
    go (err e t) h = tt
    go fault h = tt

-- Whenever ubi_eba_init_scan succeeds on the outcome of a scan, each volume keeps its size and has a
-- table in which every LEB of the volume has the number of the eraseblock where the scan has found
-- it, or UBI_LEB_UNMAPPED where the scan has not found it; and the sequence numbers go on after the highest that was found.
pub ubi_eba_init_scan-Attached :
    (rsvd least : ℕ) (s : ScanInfo) (u : EbaDevice)
    → Neat s.volumes
    → Ends (Attached s u) (ubi_eba_init_scan rsvd least s u)
unfolding ubi_eba_init_scan set_up_tbls ◌>>=◌ bind raise_sqnum get_state set_tbls
ubi_eba_init_scan-Attached rsvd least s u neat =
    let r = record u { global_sqnum = s.max_sqnum + 1 } in
    recovered (Attached s u) (set_up_tbls rsvd least s) r (
      bind-Ends (Mapping s neat u.vtbl_slots (s.max_sqnum + 1) 0 u.volumes) (Attached s u)
        (init_tbls s 0 u.volumes r) _
        (init_tbls-Mapped s neat u.vtbl_slots (s.max_sqnum + 1) u.volumes 0 r refl)
        λ ws t h.
          Ends-mono (Attached s u) (λ _ w. tables w ≡ (ws, t.global_sqnum))
            (reserve_pebs rsvd least (record t { volumes = ws }))
            (λ _ w e. (
              subst (Mapped s u.vtbl_slots 0 u.volumes)
                  (sym (ap (λ (p : List (Option EbaVolume) × ℕ). p.0) e)) h.0,
              ap (λ (p : List (Option EbaVolume) × ℕ). p.1) e ∙ ap (λ (p : ℕ × ℕ). p.1) h.1,
            ))
            (Ends-Keeps tables (reserve_pebs rsvd least) (record t { volumes = ws })
              (reserve_pebs-Keeps rsvd least) refl))
