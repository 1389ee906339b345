-- ===== src/Ubi/Upd/Live.antt =====
-- modules/ubi/upd.c: an update of a device that works comes to its end.
use android_infotm_confident.Prelude.{
  ℕ, ◌+◌, ◌-◌, ◌<◌, ◌≡◌, ap, sym, ◌∙◌, Bool, true, false, ◌==◌, ◌||◌, if◌then◌else◌, List, [], ◌∷◌,
  ◌++◌, length, take, Bool-cases, inl, inr, arith, length-append, overwrite, replicate, not,
}
use mathlib.Core.Path.{subst}
use android_infotm_confident.Outcome.{
  Outcome, ok, err, fault, bind, ◌>>=◌, get_state, skip, when, check, M,
}
use android_infotm_confident.Outcome.Keeps.{Ends}
use android_infotm_confident.Ubi.Misc.{align, ubi_calc_data_len}
use android_infotm_confident.Ubi.Upd.{
  Eba, UpdVolume, UpdAct, call, clear_update_marker, mark_volume, static_sizes, finish, fill_buf,
  write_dynamic, write_static, write_leb, receive, take_piece,
}
use android_infotm_confident.Ubi.Upd.Feed.{settle, feed, take_piece-copied}
use android_infotm_confident.Ubi.Upd.Received.{Received, take_piece-Received, feed-Received}
use android_infotm_confident.Ubi.Upd.Chunks.{Open}
use android_infotm_confident.Ubi.Upd.Whole.{end, upload, joined, last_call, upload_at_once}

-- A success, with its state in `Q`.
abbrev pub Returns {ℓ κ} : {S : Type ℓ} {A : Type κ} → (S → Type 0) → Outcome S A → Type 0
Returns Q (ok a t) = Q t
Returns Q (err e t) = ⊥
Returns Q fault = ⊥

bind-Returns :
    {S A B : Type 0} (P Q : S → Type 0) (o : Outcome S A) (f : A → M S B)
    → Returns P o
    → ((a : A) (t : S) → P t → Returns Q (f a t))
    → Returns Q (bind o f)
unfolding bind
bind-Returns P Q (ok a t) f h k = k a t h
bind-Returns P Q (err _ _) f h k = elim h [ ]
bind-Returns P Q fault f h k = elim h [ ]

Returns-Ends :
    {S A : Type 0} (P Q : S → Type 0) (o : Outcome S A)
    → Returns P o
    → Ends (λ _ t. Q t) o
    → Returns Q o
Returns-Ends P Q (ok a t) h q = q
Returns-Ends P Q (err _ _) h q = elim h [ ]
Returns-Ends P Q fault h q = elim h [ ]

Returns-if :
    {S A : Type 0} (P : S → Type 0) (b : Bool) (o p : Outcome S A)
    → Returns P o
    → Returns P p
    → Returns P (if b then o else p)
Returns-if P true o p h k = h
Returns-if P false o p h k = k

-- Every call of the device succeeds.
pub record Works (E : Eba) : Type 0 where
  pub writes : (d : E.Dev) (lnum : ℕ) (b : List ℕ) → (E.eba_write_leb d lnum b).1 ≡ 0
  pub writes_st :
      (d : E.Dev) (lnum : ℕ) (b : List ℕ) (ebs : ℕ) → (E.eba_write_leb_st d lnum b ebs).1 ≡ 0
  pub flushes : (d : E.Dev) → (E.wl_flush d).1 ≡ 0
  pub marks : (d : E.Dev) (b : Bool) → (E.set_vtbl_marker d b).1 ≡ 0

-- The update is over.
pub record Updated (E : Eba) (t : UpdVolume E.Dev) : Type 0 where
  pub idle : t.updating ≡ false
  pub unmarked : t.upd_marker ≡ false
  pub complete : t.upd_received ≡ t.upd_bytes

module _ (E : Eba) (w : Works E) where
  abbrev Fine : UpdVolume E.Dev → Type 0
  Fine s = Unit

  call-Returns :
      (f : E.Dev → E.Dev × ℕ) (s : UpdVolume E.Dev)
      → ((d : E.Dev) → (f d).1 ≡ 0)
      → Returns Fine (call E f s)
  unfolding call check
  call-Returns f s h = rw (h s.dev) tt

  when-Returns :
      (b : Bool) (m : UpdAct E (Unit {0})) (s : UpdVolume E.Dev)
      → Returns Fine (m s)
      → Returns Fine (when b m s)
  unfolding when skip
  when-Returns true m s h = h
  when-Returns false m s h = tt

  write_static-Returns :
      (lnum len : ℕ) (s : UpdVolume E.Dev) → Returns Fine (write_static E lnum len s)
  unfolding write_static fill_buf skip get_state ◌>>=◌ bind
  write_static-Returns lnum len s =
      let buf = overwrite s.upd_buf len (replicate (s.usable_leb_size - len) 0) in
      call-Returns (λ d. E.eba_write_leb_st d lnum (take len buf) s.upd_ebs)
        (record s { upd_buf = buf }) (λ d. w.writes_st d lnum (take len buf) s.upd_ebs)

  write_dynamic-Returns :
      (lnum len : ℕ) (s : UpdVolume E.Dev) → Returns Fine (write_dynamic E lnum len s)
  unfolding write_dynamic fill_buf skip get_state ◌>>=◌ bind
  write_dynamic-Returns lnum len s =
      let l = align len s.min_io_size in
      let buf = overwrite s.upd_buf len (replicate (l - len) 255) in
      let data_len = ubi_calc_data_len s.min_io_size buf l in
      when-Returns (not (data_len == 0)) (call E (λ d. E.eba_write_leb d lnum (take data_len buf)))
        (record s { upd_buf = buf })
        (call-Returns (λ d. E.eba_write_leb d lnum (take data_len buf)) (record s { upd_buf = buf })
          (λ d. w.writes d lnum (take data_len buf)))

  write_leb-Returns : (lnum len : ℕ) (s : UpdVolume E.Dev) → Returns Fine (write_leb E lnum len s)
  unfolding write_leb
  write_leb-Returns lnum len s =
      Returns-if Fine s.is_static (write_static E lnum len s) (write_dynamic E lnum len s)
        (write_static-Returns lnum len s) (write_dynamic-Returns lnum len s)

  take_piece-Returns :
      (lnum offs : ℕ) (bytes : List ℕ) (s : UpdVolume E.Dev)
      → s.copies ≡ []
      → Returns Fine (take_piece E lnum offs bytes s)
  unfolding receive when skip ◌>>=◌ bind
  take_piece-Returns lnum offs bytes s c =
      rw (take_piece-copied E lnum offs bytes s c)
        (elim (Bool-cases (
          offs + length bytes == s.usable_leb_size
          || s.upd_received + length bytes == s.upd_bytes)) [
            | inl e ↦ rw e (
                bind-Returns Fine Fine _ _ (write_leb-Returns lnum (offs + length bytes) _)
                  (λ a t h. tt))
            | inr e ↦ rw e tt
          ])

  feed-Returns :
      (bytes : List ℕ) (s : UpdVolume E.Dev) → s.copies ≡ [] → Returns Fine (feed E bytes s)
  unfolding feed skip ◌>>=◌
  feed-Returns [] s c = tt
  feed-Returns (x ∷ xs) s c =
      bind-Returns (λ t. Received E 1 s t) Fine _ _
        (Returns-Ends Fine (λ t. Received E 1 s t) _ (take_piece-Returns _ _ (x ∷ []) s c)
          (take_piece-Received E _ _ (x ∷ []) s c))
        λ a t r. feed-Returns xs t (ap (λ p. p.2) r.same ∙ c)

  end-Returns :
      (n : ℕ) (t : UpdVolume E.Dev) → t.upd_received ≡ t.upd_bytes → Returns (Updated E) (end E n t)
  unfolding finish call clear_update_marker mark_volume static_sizes get_state check skip ◌>>=◌ bind
  end-Returns n t e = ground (arith, w.flushes t.dev, w.marks (E.wl_flush t.dev).0 false)

  settle-Returns :
      {A : Type 0} (Q : UpdVolume E.Dev → Type 0) (o : Outcome (UpdVolume E.Dev) A)
      → Returns Q (settle E o)
      → Returns Q o
  settle-Returns Q (ok a t) h = h
  settle-Returns Q (err _ _) h = elim h [ ]
  settle-Returns Q fault h = elim h [ ]

  settled :
      {A : Type 0} (Q : UpdVolume E.Dev → Type 0) (o : Outcome (UpdVolume E.Dev) A)
      → Returns Q o
      → Returns Q (settle E o)
  settled Q (ok a t) h = h
  settled Q (err _ _) h = elim h [ ]
  settled Q fault h = elim h [ ]

  one_call-Returns :
      (b : List ℕ) (s : UpdVolume E.Dev)
      → Open E s
      → s.upd_received + length b ≡ s.upd_bytes
      → Returns (Updated E) (upload E (b ∷ []) s)
  one_call-Returns b s o e = settle-Returns (Updated E) _ (
      subst (Returns (Updated E)) (sym (last_call E b s o e)) (
        settled (Updated E) _ (
          bind-Returns (λ t. Received E (length b) s t) (Updated E) _ (λ _. end E (length b))
            (Returns-Ends Fine (λ t. Received E (length b) s t) _ (feed-Returns b s o.copied)
              (feed-Received E b s o.copied))
            λ a t r. end-Returns (length b) t (omega (arith, e, r.more, ap (λ p. p.1) r.same)))))

  -- On a device that can be written and whose calls all succeed, where eraseblocks are not empty
  -- and copies from the user do not fail, an update that has bytes missing comes to its end: the calls that bring all its missing
  -- bytes, the last of them not empty, succeed, and leave the volume without its marker, not
  -- updating, and with all bytes received.
  pub upload-Returns :
      (cs : List (List ℕ)) (l : List ℕ) (s : UpdVolume E.Dev)
      → Open E s
      → s.upd_received + length (joined cs) + length l ≡ s.upd_bytes
      → 0 < length l
      → Returns (Updated E) (upload E (cs ++ (l ∷ [])) s)
  upload-Returns cs l s o e p = settle-Returns (Updated E) _ (
      subst (Returns (Updated E)) (sym (upload_at_once E cs l s o e p)) (
        settled (Updated E) _
          (one_call-Returns (joined cs ++ l) s o (omega (arith, e, length-append (joined cs) l)))))
