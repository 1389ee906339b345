-- ===== src/Ubi/Upd/Received.antt =====
-- modules/ubi/upd.c: what a byte changes of the volume.
use mathlib.Core.Path.{fun_ext}
use android_infotm_confident.Prelude.{
  ℕ, suc, ◌+◌, ◌/◌, ◌%◌, ◌≡◌, refl, ap, sym, ◌∙◌, Bool, ◌||◌, ◌==◌, List, [], ◌∷◌, ◌++◌, length,
  overwrite, Bool-cases, inl, inr, arith,
}
use android_infotm_confident.Outcome.{
  bind_assoc, Outcome, ok, err, fault, bind, ◌>>=◌, get_state, skip, when, check,
}
use android_infotm_confident.Outcome.Keeps.{Keeps, Stays, Ends, bind-Ends, Ends-mono}
use android_infotm_confident.Ubi.Upd.{
  Eba, UpdVolume, receive, write_leb, take_piece, write_static, write_dynamic, fill_buf, call,
}
use android_infotm_confident.Ubi.Upd.Feed.{feed, after_copy, take_piece-copied}

module _ (E : Eba) where
  -- What a byte or a write leaves alone.
  abbrev pub still : UpdVolume E.Dev → ℕ × ℕ × List Bool × Bool
  still s = (s.usable_leb_size, s.upd_bytes, s.copies, s.ro_mode)

  write_leb-still :
      (lnum len : ℕ)
      → Keeps {W = (ℕ × ℕ × List Bool × Bool) × ℕ}
          (λ s. (still s, s.upd_received))
          (write_leb E lnum len)
  unfolding write_leb write_static write_dynamic fill_buf call check when skip get_state ◌>>=◌ bind
  write_leb-still lnum len = record { at = λ s. ground arith }

  -- What holds once `n` more bytes have been received.
  pub record Received (n : ℕ) (s t : UpdVolume E.Dev) : Type 0 where
    pub same : still t ≡ still s
    pub more : t.upd_received ≡ s.upd_received + n

  after_write :
      (lnum len : ℕ) (s : UpdVolume E.Dev) (o : Outcome (UpdVolume E.Dev) (Unit {0}))
      → Stays {W = (ℕ × ℕ × List Bool × Bool) × ℕ}
          (λ s. (still s, s.upd_received))
          (still s, s.upd_received)
          o
      → Ends (λ _ t. Received len s t) (bind o (λ _. receive E len))
  unfolding receive bind
  after_write lnum len s (ok a t) h = record {
    same = ap (λ p. p.0) h;
    more = ap (λ p. p.1 + len) h;
  }
  after_write lnum len s (err e t) h = tt
  after_write lnum len s fault h = tt

  after_copy-Received :
      (lnum offs len : ℕ) (s : UpdVolume E.Dev)
      → Ends (λ _ t. Received len s t) (after_copy E lnum offs len s)
  unfolding ◌>>=◌ when skip receive bind
  after_copy-Received lnum offs len s =
      elim (Bool-cases (offs + len == s.usable_leb_size || s.upd_received + len == s.upd_bytes)) [
        | inl e ↦ rw e (
            after_write lnum len s (write_leb E lnum (offs + len) s)
              ((write_leb-still lnum (offs + len)).at s))
        | inr e ↦ rw e (record { same = refl; more = refl })
      ]

  pub take_piece-Received :
      (lnum offs : ℕ) (bytes : List ℕ) (s : UpdVolume E.Dev)
      → s.copies ≡ []
      → Ends (λ _ t. Received (length bytes) s t) (take_piece E lnum offs bytes s)
  take_piece-Received lnum offs bytes s c = rw (take_piece-copied E lnum offs bytes s c) (
      Ends-mono _
        (λ _ t. Received (length bytes) (record s { upd_buf = overwrite s.upd_buf offs bytes }) t) _
        (λ a t q. record { same = q.same; more = q.more })
        (after_copy-Received lnum offs (length bytes) _))

  pub feed-Received :
      (bytes : List ℕ) (s : UpdVolume E.Dev)
      → s.copies ≡ []
      → Ends (λ _ t. Received (length bytes) s t) (feed E bytes s)
  unfolding feed skip ◌>>=◌
  feed-Received [] s c = record { same = refl; more = omega arith }
  feed-Received (x ∷ xs) s c =
      bind-Ends (λ _ t. Received 1 s t) (λ _ t. Received (suc (length xs)) s t) _ _
        (take_piece-Received _ _ (x ∷ []) s c)
        λ a t r.
          Ends-mono _ (λ _ u. Received (length xs) t u) _
            (λ b u q. record { same = q.same ∙ r.same; more = omega (arith, r.more, q.more) })
            (feed-Received xs t (ap (λ p. p.2) r.same ∙ c))

  pub feed-append :
      (xs ys : List ℕ) (s : UpdVolume E.Dev)
      → feed E (xs ++ ys) s ≡ bind (feed E xs s) (λ _. feed E ys)
  unfolding feed skip ◌>>=◌ bind
  feed-append [] ys s = refl
  feed-append (x ∷ xs) ys s =
      ap
        (λ f.
          bind
            (take_piece E (s.upd_received / s.usable_leb_size) (s.upd_received % s.usable_leb_size)
              (x ∷ []) s)
            (λ _. f))
        (fun_ext λ t. feed-append xs ys t)
      ∙ sym (
          bind_assoc
            (take_piece E (s.upd_received / s.usable_leb_size) (s.upd_received % s.usable_leb_size)
              (x ∷ []) s)
            (λ _. feed E xs) (λ _. feed E ys))
