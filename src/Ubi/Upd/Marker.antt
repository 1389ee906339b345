-- ===== src/Ubi/Upd/Marker.antt =====
-- modules/ubi/upd.c: the update marker stands on the device while an update goes on.
use android_infotm_confident.Prelude.{
  ℕ, zero, suc, ◌+◌, ◌-◌, ◌/◌, ◌%◌, ◌≡◌, Bool, true, false, not, ◌==◌, ◌||◌, if◌then◌else◌, List,
  [], ◌∷◌, length, take, drop, Bool-cases, inl, inr, arith, ◌⊎◌, overwrite, replicate,
}
use android_infotm_confident.Outcome.{
  Outcome, ok, err, fault, bind, ◌>>=◌, get_state, skip, when, check, fail, M,
}
use android_infotm_confident.Ubi.Misc.{align, ubi_calc_data_len}
use android_infotm_confident.Ubi.Upd.{
  Eba, UpdVolume, UpdAct, call, clear_update_marker, mark_volume, static_sizes, finish, fill_buf,
  write_dynamic, write_static, write_leb, receive, take_piece, copy_in, pieces_loop, first_piece,
  take_bytes, ubi_more_update_data, accepted, efault,
}

-- The state of the outcome is in `P`, on success and on an error.
abbrev pub Always {ℓ κ μ} : {S : Type ℓ} {A : Type κ} → (S → Type μ) → Outcome S A → Type μ
Always P (ok a t) = P t
Always P (err e t) = P t
Always P fault = Unit

pub bind-Always :
    {S A B : Type 0} (P Q : S → Type 0) (o : Outcome S A) (f : A → M S B)
    → Always P o
    → ((t : S) → P t → Q t)
    → ((a : A) (t : S) → P t → Always Q (f a t))
    → Always Q (bind o f)
unfolding bind
bind-Always P Q (ok a t) f h e k = k a t h
bind-Always P Q (err c t) f h e k = e t h
bind-Always P Q fault f h e k = tt

Always-mono :
    {S A : Type 0} (P Q : S → Type 0) (o : Outcome S A)
    → ((t : S) → P t → Q t)
    → Always P o
    → Always Q o
Always-mono P Q (ok a t) k h = k t h
Always-mono P Q (err e t) k h = k t h
Always-mono P Q fault k h = tt

Always-if :
    {S A : Type 0} (P : S → Type 0) (b : Bool) (o p : Outcome S A)
    → Always P o
    → Always P p
    → Always P (if b then o else p)
Always-if P true o p h k = h
Always-if P false o p h k = k

-- What a device says of the marker in its volume table: a record that was written with the marker
-- has it, and no work on eraseblocks takes it away.
pub record MarkerTable (E : Eba) (Marked : E.Dev → Type 0) : Type 0 where
  pub set : (d : E.Dev) → (E.set_vtbl_marker d true).1 ≡ 0 → Marked (E.set_vtbl_marker d true).0
  pub unmap : (d : E.Dev) (i : ℕ) → Marked d → Marked (E.unmap_leb d i).0
  pub write : (d : E.Dev) (i : ℕ) (b : List ℕ) → Marked d → Marked (E.eba_write_leb d i b).0
  pub write_st :
      (d : E.Dev) (i : ℕ) (b : List ℕ) (ebs : ℕ)
      → Marked d
      → Marked (E.eba_write_leb_st d i b ebs).0

module _ (E : Eba) (Marked : E.Dev → Type 0) (m : MarkerTable E Marked) where
  abbrev pub OnDevice : UpdVolume E.Dev → Type 0
  OnDevice s = Marked s.dev

  pub call-Always :
      (f : E.Dev → E.Dev × ℕ) (s : UpdVolume E.Dev)
      → Marked (f s.dev).0
      → Always OnDevice (call E f s)
  unfolding call check
  call-Always f s h = Always-if (λ t. Marked t.dev) ((f s.dev).1 == 0) _ _ h h

  when-Always :
      (b : Bool) (k : UpdAct E (Unit {0})) (s : UpdVolume E.Dev)
      → OnDevice s
      → Always OnDevice (k s)
      → Always OnDevice (when b k s)
  unfolding when skip
  when-Always true k s h a = a
  when-Always false k s h a = h

  write_leb-Always :
      (lnum len : ℕ) (s : UpdVolume E.Dev) → OnDevice s → Always OnDevice (write_leb E lnum len s)
  unfolding write_leb write_static write_dynamic fill_buf skip get_state ◌>>=◌ bind
  write_leb-Always lnum len s h =
      let zeros = overwrite s.upd_buf len (replicate (s.usable_leb_size - len) 0) in
      let l = align len s.min_io_size in
      let ones = overwrite s.upd_buf len (replicate (l - len) 255) in
      let data_len = ubi_calc_data_len s.min_io_size ones l in
      let t = record s { upd_buf = ones } in
      let f = λ (d : E.Dev). E.eba_write_leb d lnum (take data_len ones) in
      Always-if OnDevice s.is_static (write_static E lnum len s) (write_dynamic E lnum len s)
        (call-Always (λ d. E.eba_write_leb_st d lnum (take len zeros) s.upd_ebs)
          (record s { upd_buf = zeros }) (m.write_st s.dev lnum (take len zeros) s.upd_ebs h))
        (when-Always (not (data_len == 0)) (call E f) t h
          (call-Always f t (m.write s.dev lnum (take data_len ones) h)))

  copy_in-Always :
      (offs : ℕ) (bytes : List ℕ) (s : UpdVolume E.Dev)
      → OnDevice s
      → Always OnDevice (copy_in E offs bytes s)
  unfolding copy_in
  copy_in-Always offs bytes s h = go s.copies
    where
      go :
          (l : List Bool)
          → Always {A = Unit {0}} OnDevice (elim l [
            | [] ↦ ok tt (record s { upd_buf = overwrite s.upd_buf offs bytes })
            | true ∷ rest ↦
                ok tt (record s { upd_buf = overwrite s.upd_buf offs bytes; copies = rest })
            | false ∷ rest ↦ err efault (record s { copies = rest })
          ])
      go [] = h
      go (true ∷ rest) = h
      go (false ∷ rest) = h

  take_piece-Always :
      (lnum offs : ℕ) (bytes : List ℕ) (s : UpdVolume E.Dev)
      → OnDevice s
      → Always OnDevice (take_piece E lnum offs bytes s)
  unfolding take_piece receive get_state ◌>>=◌ bind
  take_piece-Always lnum offs bytes s h =
      bind-Always OnDevice OnDevice (copy_in E offs bytes s) _ (copy_in-Always offs bytes s h)
        (λ t k. k)
        λ a t k.
          bind-Always OnDevice OnDevice _ _
            (when-Always
              (offs + length bytes == t.usable_leb_size
                || t.upd_received + length bytes == t.upd_bytes)
              (write_leb E lnum (offs + length bytes)) t k
              (write_leb-Always lnum (offs + length bytes) t k))
            (λ u j. j) λ b u j. j

  pieces_loop-Always :
      (fuel lnum : ℕ) (bytes : List ℕ) (s : UpdVolume E.Dev)
      → OnDevice s
      → Always OnDevice (pieces_loop E fuel lnum bytes s)
  unfolding pieces_loop skip ◌>>=◌
  pieces_loop-Always zero lnum bytes s h = h
  pieces_loop-Always (suc fuel) lnum bytes s h = elim (Bool-cases (length bytes == 0)) [
    | inl e ↦ rw (e, pieces_loop) h
    | inr e ↦
        rw (e, pieces_loop)
          (bind-Always OnDevice OnDevice (take_piece E lnum 0 (take s.usable_leb_size bytes) s) _
            (take_piece-Always lnum 0 (take s.usable_leb_size bytes) s h) (λ t k. k)
            λ a t k. pieces_loop-Always fuel (lnum + 1) (drop s.usable_leb_size bytes) t k)
  ]

  take_bytes-Always :
      (bytes : List ℕ) (s : UpdVolume E.Dev) → OnDevice s → Always OnDevice (take_bytes E bytes s)
  unfolding take_bytes first_piece get_state ◌>>=◌ bind
  take_bytes-Always bytes s h =
      let lnum = s.upd_received / s.usable_leb_size in
      let offs = s.upd_received % s.usable_leb_size in
      Always-if OnDevice (offs == 0) (pieces_loop E (length bytes) lnum bytes s)
        (first_piece E lnum offs bytes s) (pieces_loop-Always (length bytes) lnum bytes s h)
        (bind-Always OnDevice OnDevice
          (take_piece E lnum offs (take (s.usable_leb_size - offs) bytes) s) _
          (take_piece-Always lnum offs (take (s.usable_leb_size - offs) bytes) s h) (λ t k. k)
          λ a t k.
            pieces_loop-Always (length bytes) (lnum + 1) (drop (s.usable_leb_size - offs) bytes) t
              k)

  -- The end of an update does not change how much was received.
  finish_complete :
      (n : ℕ) (s : UpdVolume E.Dev)
      → s.upd_received ≡ s.upd_bytes
      → Always (λ t. t.upd_received ≡ t.upd_bytes) (finish E n s)
  unfolding finish call clear_update_marker mark_volume static_sizes get_state check skip ◌>>=◌ bind
  finish_complete n s e = ground arith

  Guarded : UpdVolume E.Dev → Type 0
  Guarded t = Marked t.dev ⊎ (t.upd_received ≡ t.upd_bytes)

  finish-Always : (n : ℕ) (s : UpdVolume E.Dev) → OnDevice s → Always Guarded (finish E n s)
  unfolding Guarded finish get_state ◌>>=◌ bind
  finish-Always n s h = elim (Bool-cases (s.upd_received == s.upd_bytes)) [
    | inl e ↦
        Always-mono (λ t. t.upd_received ≡ t.upd_bytes) Guarded (finish E n s) (λ t q. inr q)
          (finish_complete n s (ground (arith, e)))
    | inr e ↦ rw e (inl h)
  ]

  -- Where the device has the update marker, and work on eraseblocks leaves it there, it still has it after a call of ubi_more_update_data,
  -- with success or with an error from any call of the device, the user's memory or the read-only
  -- mode, unless all bytes of the update have been received.
  pub ubi_more_update_data-marked :
      (bytes : List ℕ) (s : UpdVolume E.Dev)
      → Marked s.dev
      → Always (λ t. Marked t.dev ⊎ (t.upd_received ≡ t.upd_bytes)) (ubi_more_update_data E bytes s)
  unfolding ubi_more_update_data fail Guarded ◌>>=◌
  ubi_more_update_data-marked bytes s h = Always-if Guarded s.ro_mode _ _ (inl h) (
      bind-Always OnDevice Guarded (take_bytes E (accepted E bytes s) s) _
        (take_bytes-Always (accepted E bytes s) s h) (λ t k. inl k)
        λ a t k. finish-Always (length (accepted E bytes s)) t k)
