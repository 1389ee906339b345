-- ===== src/Ubi/Upd/Start.antt =====
-- modules/ubi/upd.c: ubi_start_update marks a volume before it wipes it.
use android_infotm_confident.Prelude.{
  ℕ, zero, suc, ◌+◌, ◌≡◌, ◌≢◌, refl, Bool, true, false, ◌==◌, if◌then◌else◌, List, [], ◌∷◌, inl,
  inr, arith, ◌⊎◌, replicate,
}
use android_infotm_confident.Outcome.{
  Outcome, ok, err, fault, bind, ◌>>=◌, get_state, skip, check, for_range, M,
}
use android_infotm_confident.Ubi.Misc.{align}
use android_infotm_confident.Ubi.Upd.{
  Eba, UpdVolume, call, mark_volume, ubi_start_update, set_update_marker, set_updating, set_target,
  alloc_buf, enomem,
}
use android_infotm_confident.Ubi.Upd.Marker.{
  Always, bind-Always, MarkerTable, OnDevice, call-Always,
}

-- The outcome's state is in `P` on success, and in `R` on an error.
abbrev Split : {S A : Type 0} → (P R : S → Type 0) → Outcome S A → Type 0
Split P R (ok a t) = P t
Split P R (err e t) = R t
Split P R fault = Unit

bind-Split :
    {S A B : Type 0} (P R Q : S → Type 0) (o : Outcome S A) (f : A → M S B)
    → Split P R o
    → ((t : S) → R t → Q t)
    → ((a : A) (t : S) → P t → Always Q (f a t))
    → Always Q (bind o f)
unfolding bind
bind-Split P R Q (ok a t) f h e k = k a t h
bind-Split P R Q (err c t) f h e k = e t h
bind-Split P R Q fault f h e k = tt

Split-if :
    {S A : Type 0} (P R : S → Type 0) (b : Bool) (o p : Outcome S A)
    → (b ≡ true → Split P R o)
    → (b ≡ false → Split P R p)
    → Split P R (if b then o else p)
Split-if P R true o p h k = h refl
Split-if P R false o p h k = k refl

module _ (E : Eba) (Marked : E.Dev → Type 0) (m : MarkerTable E Marked) where
  -- The device is as the failed write of the marker left it.
  Untouched : UpdVolume E.Dev → UpdVolume E.Dev → Type 0
  Untouched s t = t.dev ≡ (E.set_vtbl_marker s.dev true).0

  set_update_marker-Split :
      (s : UpdVolume E.Dev)
      → (s.upd_marker ≡ true → Marked s.dev)
      → Split (OnDevice E Marked m) (Untouched s) (set_update_marker E s)
  unfolding set_update_marker mark_volume check skip Untouched
  set_update_marker-Split s h = Split-if (OnDevice E Marked m) (Untouched s) s.upd_marker _ _ h λ e.
      Split-if (OnDevice E Marked m) (Untouched s) ((E.set_vtbl_marker s.dev true).1 == 0) _ _
        (λ z. m.set s.dev (ground (arith, z))) λ z. refl

  wipe-Always :
      (from n : ℕ) (s : UpdVolume E.Dev)
      → Marked s.dev
      → Always (OnDevice E Marked m) (for_range from n (λ i. call E (λ d. E.unmap_leb d i)) s)
  unfolding for_range skip ◌>>=◌
  wipe-Always from zero s h = h
  wipe-Always from (suc n) s h =
      bind-Always (OnDevice E Marked m) (OnDevice E Marked m) (call E (λ d. E.unmap_leb d from) s) _
        (call-Always E Marked m (λ d. E.unmap_leb d from) s (m.unmap s.dev from h)) (λ t k. k)
        λ a t k. wipe-Always (from + 1) n t k

  alloc_buf-Always :
      (n : ℕ) (s : UpdVolume E.Dev) → Marked s.dev → Always (OnDevice E Marked m) (alloc_buf E n s)
  unfolding alloc_buf
  alloc_buf-Always n s h = go s.allocs
    where
      go :
          (l : List Bool)
          → Always {A = Unit {0}} (OnDevice E Marked m) (elim l [
            | [] ↦ ok tt (record s { upd_buf = replicate (align n s.page_size) s.junk })
            | true ∷ rest ↦
                ok tt (record s { upd_buf = replicate (align n s.page_size) s.junk; allocs = rest })
            | false ∷ rest ↦ err enomem (record s { allocs = rest })
          ])
      go [] = h
      go (true ∷ rest) = h
      go (false ∷ rest) = h

  -- After ubi_start_update to some bytes, with success or with an error, the device has the update
  -- marker, or it is as the write of the marker left it and nothing was unmapped. The volume's own
  -- marker, if set, is taken to stand on the device, a write of the marker that succeeds to set it
  -- there, and an unmapping to leave it.
  pub ubi_start_update-marked :
      (bytes : ℕ) (s : UpdVolume E.Dev)
      → bytes ≢ 0
      → (s.upd_marker ≡ true → Marked s.dev)
      → Always
          (λ t. Marked t.dev ⊎ (t.dev ≡ (E.set_vtbl_marker s.dev true).0))
          (ubi_start_update E bytes s)
  unfolding ubi_start_update set_target set_updating get_state Untouched ◌>>=◌ bind
  ubi_start_update-marked bytes s nz h =
      let b : (bytes == 0) ≡ false = ground arith in
      let u = record s { updating = true } in
      let Q = λ (t : UpdVolume E.Dev). Marked t.dev ⊎ (t.dev ≡ (E.set_vtbl_marker s.dev true).0) in
      let P = OnDevice E Marked m in
      bind-Split P (Untouched u) Q (set_update_marker E u) _ (set_update_marker-Split u h)
        (λ t k. inr k)
        λ a t k.
          bind-Always P Q (for_range 0 t.reserved_pebs (λ i. call E (λ d. E.unmap_leb d i)) t) _
            (wipe-Always 0 t.reserved_pebs t k) (λ v j. inl j)
            λ c v j. rw b (
              bind-Always P Q (alloc_buf E t.leb_size v) (λ _. set_target E bytes)
                (alloc_buf-Always t.leb_size v j) (λ x i. inl i) λ d x i. inl i)
