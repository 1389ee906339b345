-- ===== src/Ubi/Upd/Chunks.antt =====
-- modules/ubi/upd.c: the writes of an update, and its bytes one at a time.
use mathlib.Core.Path.{subst}
use native.Mathlib.Nat.{mod-lt, div-add-mod'}
use android_infotm_confident.Prelude.{
  ℕ, zero, suc, ◌+◌, ◌-◌, ◌*◌, ◌/◌, ◌%◌, ◌≤◌, ◌<◌, ◌≡◌, refl, ap, sym, ◌∙◌, false, ◌==◌, List, [],
  ◌∷◌, ◌++◌, length, take, drop, Bool-cases, inl, inr, arith, length-append, length-take,
  length-drop, take-drop,
}
use android_infotm_confident.Outcome.{
  Outcome, ok, err, fault, bind, ◌>>=◌, get_state, skip, when, M,
}
use android_infotm_confident.Outcome.Keeps.{Ends, Ends-mono}
use android_infotm_confident.Ubi.Upd.{
  Eba, UpdVolume, UpdAct, copy_in, receive, take_piece, pieces_loop, first_piece, take_bytes,
  accepted,
}
use android_infotm_confident.Ubi.Upd.Feed.{settle, settle-bind, feed, piece-feed, overwrite-none}
use android_infotm_confident.Ubi.Upd.Received.{still, Received, feed-Received, feed-append}

module _ (E : Eba) where
  pub settle-next {ℓ} :
      {A : Type 0} {B : Type ℓ} (o : Outcome (UpdVolume E.Dev) A) (f g : A → M (UpdVolume E.Dev) B)
      → Ends (λ a t. settle E (f a t) ≡ settle E (g a t)) o
      → settle E (bind o f) ≡ settle E (bind o g)
  unfolding bind
  settle-next (ok a t) f g h = h
  settle-next (err e t) f g h = refl
  settle-next fault f g h = refl

  take-cons : (n x : ℕ) (xs : List ℕ) → 0 < n → take n (x ∷ xs) ≡ x ∷ take (n - 1) xs
  take-cons zero x xs l = absurd (omega (arith, l))
  take-cons (suc n) x xs l = let e : suc n - 1 ≡ n = omega arith in rw e refl

  take-nil : (n : ℕ) → take {A = ℕ} n [] ≡ []
  take-nil zero = refl
  take-nil (suc n) = refl

  drop-nil : (n : ℕ) → drop {A = ℕ} n [] ≡ []
  drop-nil zero = refl
  drop-nil (suc n) = refl

  -- A state that takes `bytes` as a part of an update.
  pub record Taking (bytes : List ℕ) (s : UpdVolume E.Dev) : Type 0 where
    pub copied : s.copies ≡ []
    pub sized : 0 < s.usable_leb_size
    pub within : s.upd_received + length bytes ≤ s.upd_bytes

  -- The rest of the bytes meets the same volume.
  pub Taking-rest :
      (xs ys : List ℕ) (s t : UpdVolume E.Dev)
      → Taking (xs ++ ys) s
      → Received E (length xs) s t
      → Taking ys t
  Taking-rest xs ys s t h r = record {
    copied = ap (λ p. p.2) r.same ∙ h.copied;
    sized = omega (arith, ap (λ p. p.0) r.same, h.sized);
    within = omega (arith, length-append xs ys, r.more, ap (λ p. p.1) r.same, h.within);
  }

  -- The next piece at `offs` of an eraseblock, where what follows it is fed too.
  piece_next :
      (x : ℕ) (xs : List ℕ) (lnum offs n : ℕ) (s : UpdVolume E.Dev)
      (rest : List ℕ → UpdAct E (Unit {0}))
      → Taking (x ∷ xs) s
      → n ≡ s.usable_leb_size - offs
      → offs < s.usable_leb_size
      → s.upd_received ≡ lnum * s.usable_leb_size + offs
      → ((t : UpdVolume E.Dev)
          → Received E (length (take n (x ∷ xs))) s t
          → settle E (rest (drop n (x ∷ xs)) t) ≡ settle E (feed E (drop n (x ∷ xs)) t))
      → settle E (bind (take_piece E lnum offs (take n (x ∷ xs)) s) (λ _. rest (drop n (x ∷ xs))))
        ≡ settle E (feed E (x ∷ xs) s)
  piece_next x xs lnum offs n s rest h e l r k =
      let tc = take-cons n x xs (omega arith) in
      let len = length-take n (x ∷ xs) in
      let lt = ap length tc in
      settle-bind E _ _ _ (
        ap (λ p. settle E (take_piece E lnum offs p s)) tc
        ∙ (piece-feed E x (take (n - 1) xs) lnum offs s h.copied (omega arith) r
              (omega (arith, h.within))
            ∙ ap (λ p. settle E (feed E p s)) (sym tc)))
      ∙ (settle-next _ (λ _. rest (drop n (x ∷ xs))) (λ _. feed E (drop n (x ∷ xs)))
            (Ends-mono _ (λ _ t. Received E (length (take n (x ∷ xs))) s t) _ (λ a t q. k t q)
              (feed-Received E (take n (x ∷ xs)) s h.copied))
          ∙ ap (settle E) (
              sym (feed-append E (take n (x ∷ xs)) (drop n (x ∷ xs)) s)
              ∙ ap (λ l. feed E l s) (take-drop n (x ∷ xs))))

  Taking-drop :
      (n : ℕ) (bytes : List ℕ) (s t : UpdVolume E.Dev)
      → Taking bytes s
      → Received E (length (take n bytes)) s t
      → Taking (drop n bytes) t
  Taking-drop n bytes s t h r =
      Taking-rest (take n bytes) (drop n bytes) s t
        (subst (λ l. Taking l s) (sym (take-drop n bytes)) h) r

  next_place :
      (lnum : ℕ) {n : ℕ} (s t : UpdVolume E.Dev)
      → still E t ≡ still E s
      → n ≡ lnum * s.usable_leb_size
      → t.upd_received ≡ n + s.usable_leb_size
      → t.upd_received ≡ (lnum + 1) * t.usable_leb_size
  next_place lnum s t e r m = omega (arith, r, m, ap (λ p. (lnum + 1) * p.0) e)

  pieces_step :
      (fuel lnum x : ℕ) (xs : List ℕ) (s : UpdVolume E.Dev)
      → pieces_loop E (suc fuel) lnum (x ∷ xs) s
        ≡ bind
            (take_piece E lnum 0 (take s.usable_leb_size (x ∷ xs)) s)
            (λ _. pieces_loop E fuel (lnum + 1) (drop s.usable_leb_size (x ∷ xs)))
  unfolding pieces_loop ◌>>=◌
  pieces_step fuel lnum x xs s =
      let e : (length (x ∷ xs) == 0) ≡ false = ground arith in rw (e, pieces_loop) refl

  pieces_loop-feed :
      (fuel lnum : ℕ) (bytes : List ℕ) (s : UpdVolume E.Dev)
      → Taking bytes s
      → length bytes ≤ fuel
      → (0 < length bytes → s.upd_received ≡ lnum * s.usable_leb_size)
      → settle E (pieces_loop E fuel lnum bytes s) ≡ settle E (feed E bytes s)
  unfolding feed pieces_loop
  pieces_loop-feed zero lnum [] s h l r = refl
  pieces_loop-feed zero lnum (x ∷ xs) s h l r = absurd (omega (arith, l))
  pieces_loop-feed (suc fuel) lnum [] s h l r = refl
  pieces_loop-feed (suc fuel) lnum (x ∷ xs) s h l r =
      ap (settle E) (pieces_step fuel lnum x xs s)
      ∙ piece_next x xs lnum 0 s.usable_leb_size s (pieces_loop E fuel (lnum + 1)) h (omega arith)
          h.sized (omega (arith, r (omega arith)))
          λ t q.
            pieces_loop-feed fuel (lnum + 1) (drop s.usable_leb_size (x ∷ xs)) t
              (Taking-drop s.usable_leb_size (x ∷ xs) s t h q)
              (omega (arith, length-drop s.usable_leb_size (x ∷ xs), h.sized))
              λ more. next_place lnum s t q.same (r (omega arith)) (
                omega (
                  arith,
                  q.more,
                  length-drop s.usable_leb_size (x ∷ xs),
                  length-take s.usable_leb_size (x ∷ xs),
                  h.sized,
                ))

  -- An update that is not finished has room.
  pub record Open (s : UpdVolume E.Dev) : Type 0 where
    pub copied : s.copies ≡ []
    pub sized : 0 < s.usable_leb_size
    pub room : s.upd_received < s.upd_bytes
    pub writable : s.ro_mode ≡ false

  pub accepted-Taking :
      (bytes : List ℕ) (s : UpdVolume E.Dev) → Open s → Taking (accepted E bytes s) s
  unfolding accepted
  accepted-Taking bytes s h = record {
    copied = h.copied;
    sized = h.sized;
    within = ground (arith, h.room, length-take (s.upd_bytes - s.upd_received) bytes);
  }

  -- No byte for an eraseblock begun before changes nothing.
  take_piece-none :
      (lnum offs : ℕ) (s : UpdVolume E.Dev)
      → Open s
      → offs < s.usable_leb_size
      → take_piece E lnum offs [] s ≡ ok tt s
  unfolding take_piece copy_in receive when skip ◌>>=◌ bind get_state
  take_piece-none lnum offs s h l = ground (arith, h.copied, h.room, overwrite-none s.upd_buf offs)

  first_piece-feed :
      (bytes : List ℕ) (s : UpdVolume E.Dev)
      → Open s
      → Taking bytes s
      → (q r : ℕ) → r < s.usable_leb_size
      → s.upd_received ≡ q * s.usable_leb_size + r
      → settle E (first_piece E q r bytes s) ≡ settle E (feed E bytes s)
  unfolding first_piece get_state ◌>>=◌ bind
  first_piece-feed [] s o h q r l e =
      let none = take_piece-none q r s o l in
      let t = take-nil (s.usable_leb_size - r) in
      let d = drop-nil (s.usable_leb_size - r) in
      rw (t, d, none)
        (pieces_loop-feed 0 (q + 1) [] s h (omega arith) (λ more. absurd (omega (arith, more))))
  first_piece-feed (x ∷ xs) s o h q r l e =
      piece_next x xs q r (s.usable_leb_size - r) s (pieces_loop E (length (x ∷ xs)) (q + 1)) h
        (omega arith) l e
        λ t k.
          pieces_loop-feed (length (x ∷ xs)) (q + 1) (drop (s.usable_leb_size - r) (x ∷ xs)) t
            (Taking-drop (s.usable_leb_size - r) (x ∷ xs) s t h k)
            (omega (arith, length-drop (s.usable_leb_size - r) (x ∷ xs)))
            λ more. next_place q s t k.same (refl {a = q * s.usable_leb_size}) (
              omega (
                arith,
                e,
                k.more,
                l,
                length-drop (s.usable_leb_size - r) (x ∷ xs),
                length-take (s.usable_leb_size - r) (x ∷ xs),
              ))

  pub take_bytes-feed :
      (bytes : List ℕ) (s : UpdVolume E.Dev)
      → Open s
      → Taking bytes s
      → settle E (take_bytes E bytes s) ≡ settle E (feed E bytes s)
  unfolding take_bytes
  take_bytes-feed bytes s o h = elim (Bool-cases (s.upd_received % s.usable_leb_size == 0)) [
    | inl e ↦ rw e (
        pieces_loop-feed (length bytes) (s.upd_received / s.usable_leb_size) bytes s h (omega arith)
          λ more. ground (arith, e, div-add-mod' s.upd_received s.usable_leb_size))
    | inr e ↦ rw e (
        first_piece-feed bytes s o h (s.upd_received / s.usable_leb_size)
          (s.upd_received % s.usable_leb_size) (mod-lt s.upd_received h.sized)
          (omega (arith, div-add-mod' s.upd_received s.usable_leb_size)))
  ]
