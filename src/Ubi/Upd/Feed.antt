-- ===== src/Ubi/Upd/Feed.antt =====
-- However the user cuts the bytes of an update, the device sees the same writes.
use native.Mathlib.Nat.{mod-eq_of_lt, div-eq_of_lt, add-mul-mod_self_right, add-mul-div_right}
use android_infotm_confident.Prelude.{
  ℕ, zero, suc, ◌+◌, ◌*◌, ◌/◌, ◌%◌, ◌≤◌, ◌<◌, ◌≡◌, refl, ap, sym, ◌∙◌, ◌||◌, ◌==◌, List, [], ◌∷◌,
  length, overwrite, Bool-cases, inl, inr, arith,
}
use android_infotm_confident.Outcome.{
  Outcome, ok, err, fault, bind, ◌>>=◌, ◌>>◌, get_state, skip, when, check, M,
}
use android_infotm_confident.Ubi.Upd.{
  Eba, UpdVolume, UpdAct, copy_in, receive, write_leb, take_piece, write_static, write_dynamic,
  fill_buf, call,
}

pub overwrite-none : (b : List ℕ) (offs : ℕ) → overwrite b offs [] ≡ b
unfolding overwrite
overwrite-none [] offs = refl
overwrite-none (b ∷ bs) zero = refl
overwrite-none (b ∷ bs) (suc offs) = ap (λ l. b ∷ l) (overwrite-none bs offs)

overwrite-cons :
    (b : List ℕ) (offs x : ℕ) (xs : List ℕ)
    → overwrite b offs (x ∷ xs) ≡ overwrite (overwrite b offs (x ∷ [])) (offs + 1) xs
unfolding overwrite
overwrite-cons [] offs x xs = refl
overwrite-cons (b ∷ bs) zero x xs = ap (λ l. x ∷ overwrite l 0 xs) (sym (overwrite-none bs 0))
overwrite-cons (b ∷ bs) (suc offs) x xs =
    let shift : suc offs + 1 ≡ suc (offs + 1) = omega arith in
    rw shift (ap (λ l. b ∷ l) (overwrite-cons bs offs x xs))

place_lem : (q r d n : ℕ) → r < d → n ≡ q * d + r → (n / d ≡ q) × (n % d ≡ r)
place_lem q r d n l e =
    let swap : n ≡ r + q * d = omega arith in
    (
      ap (λ m. m / d) swap
          ∙ omega (arith, add-mul-div_right r q {z = d} (omega arith), div-eq_of_lt l),
      ap (λ m. m % d) swap ∙ (add-mul-mod_self_right r q d ∙ mod-eq_of_lt l),
    )

module _ (E : Eba) where
  -- An outcome, but for how much of an eraseblock was counted when a write of it failed.
  abbrev pub settle {ℓ} : {A : Type ℓ} → Outcome (UpdVolume E.Dev) A → Outcome (UpdVolume E.Dev) A
  settle (ok a s) = ok a s
  settle (err e s) = err e (record s { upd_received = 0 })
  settle fault = fault

  pub settle-bind {ℓ κ} :
      {A : Type ℓ} {B : Type κ} (o p : Outcome (UpdVolume E.Dev) A) (f : A → M (UpdVolume E.Dev) B)
      → settle o ≡ settle p
      → settle (bind o f) ≡ settle (bind p f)
  unfolding bind
  settle-bind (ok a s) (ok b t) f e = cc
  settle-bind (ok a s) (err b t) f e = cc
  settle-bind (ok a s) fault f e = cc
  settle-bind (err a s) (ok b t) f e = cc
  settle-bind (err a s) (err b t) f e = cc
  settle-bind (err a s) fault f e = cc
  settle-bind fault (ok b t) f e = cc
  settle-bind fault (err b t) f e = cc
  settle-bind fault fault f e = refl

  -- One byte at a time, at the place that the count of bytes so far names.
  unfoldable pub feed : List ℕ → UpdAct E (Unit {0})
  unfolding skip
  feed [] s = skip s
  feed (x ∷ xs) s =
      (take_piece E (s.upd_received / s.usable_leb_size) (s.upd_received % s.usable_leb_size)
            (x ∷ [])
          >> feed xs)
        s

  -- The same outcome with another count of bytes.
  abbrev moved : ℕ → Outcome (UpdVolume E.Dev) (Unit {0}) → Outcome (UpdVolume E.Dev) (Unit {0})
  moved r (ok a t) = ok a (record t { upd_received = r })
  moved r (err e t) = err e (record t { upd_received = r })
  moved r fault = fault

  -- A write of an eraseblock does not look at the count.
  write_leb-moved :
      (lnum len r : ℕ) (s : UpdVolume E.Dev)
      → write_leb E lnum len (record s { upd_received = r }) ≡ moved r (write_leb E lnum len s)
  unfolding write_leb write_static write_dynamic fill_buf call check when skip get_state ◌>>=◌ bind
  write_leb-moved lnum len r s = ground arith

  bind-skip : (o : Outcome (UpdVolume E.Dev) (Unit {0})) → bind o (λ _. skip) ≡ o
  unfolding bind skip
  bind-skip (ok a t) = refl
  bind-skip (err e t) = refl
  bind-skip fault = refl

  -- The write of a piece whose bytes are in the buffer, and the count.
  abbrev pub after_copy : ℕ → ℕ → ℕ → UpdAct E (Unit {0})
  after_copy lnum offs len s =
      (when (offs + len == s.usable_leb_size || s.upd_received + len == s.upd_bytes)
            (write_leb E lnum (offs + len))
          >> receive E len)
        s

  pub take_piece-copied :
      (lnum offs : ℕ) (bytes : List ℕ) (s : UpdVolume E.Dev)
      → s.copies ≡ []
      → take_piece E lnum offs bytes s
        ≡ after_copy lnum offs
            (length bytes)
            (record s { upd_buf = overwrite s.upd_buf offs bytes })
  unfolding take_piece copy_in ◌>>=◌ bind
  take_piece-copied lnum offs bytes s c = ground arith

  -- A byte that completes nothing is only stored.
  one_byte :
      (x lnum offs : ℕ) (s : UpdVolume E.Dev)
      → s.copies ≡ []
      → offs + 1 < s.usable_leb_size
      → s.upd_received + 1 < s.upd_bytes
      → take_piece E lnum offs (x ∷ []) s
        ≡ ok tt (record s {
          upd_buf = overwrite s.upd_buf offs (x ∷ []);
          upd_received = s.upd_received + 1;
        })
  unfolding take_piece copy_in receive when skip ◌>>=◌ bind
  one_byte x lnum offs s c l m = ground arith

  write_leb-received :
      (lnum len : ℕ) (s : UpdVolume E.Dev)
      → write_leb E lnum len s ≡ moved s.upd_received (write_leb E lnum len s)
  write_leb-received lnum len s = write_leb-moved lnum len s.upd_received s

  receive-suc :
      (len : ℕ) (s : UpdVolume E.Dev)
      → receive E (suc len) s ≡ receive E len (record s { upd_received = s.upd_received + 1 })
  unfolding receive
  receive-suc len s =
      let m : s.upd_received + suc len ≡ s.upd_received + 1 + len = omega arith in
      ap (λ n. ok tt (record s { upd_received = n })) m

  receive_later :
      (r len : ℕ) (o : Outcome (UpdVolume E.Dev) (Unit {0}))
      → o ≡ moved r o
      → settle (bind o (λ _. receive E (suc len)))
        ≡ settle (bind (moved (r + 1) o) (λ _. receive E len))
  unfolding receive bind
  receive_later r len (ok a t) e = ground arith
  receive_later r len (err c t) e = refl
  receive_later r len fault e = refl

  -- One byte more of the piece may be counted before it is written.
  count_first :
      (lnum offs len : ℕ) (s : UpdVolume E.Dev)
      → settle (after_copy lnum offs (suc len) s)
        ≡ settle (after_copy lnum (offs + 1) len (record s { upd_received = s.upd_received + 1 }))
  unfolding ◌>>=◌ when skip
  count_first lnum offs len s =
      let n : offs + suc len ≡ offs + 1 + len = omega arith in
      let m : s.upd_received + suc len ≡ s.upd_received + 1 + len = omega arith in
      elim (Bool-cases
        (offs + 1 + len == s.usable_leb_size || s.upd_received + 1 + len == s.upd_bytes)) [
          | inl e ↦
              rw (n, m, e)
                (rw (write_leb-moved lnum (offs + 1 + len) (s.upd_received + 1) s) (
                  receive_later s.upd_received len (write_leb E lnum (offs + 1 + len) s)
                    (write_leb-received lnum (offs + 1 + len) s)))
          | inr e ↦ rw (n, m, e) (ap settle (receive-suc len s))
        ]

  -- A piece for one eraseblock is its bytes, one at a time.
  pub piece-feed :
      (x : ℕ) (xs : List ℕ) (lnum offs : ℕ) (s : UpdVolume E.Dev)
      → s.copies ≡ []
      → offs + suc (length xs) ≤ s.usable_leb_size
      → s.upd_received ≡ lnum * s.usable_leb_size + offs
      → s.upd_received + suc (length xs) ≤ s.upd_bytes
      → settle (take_piece E lnum offs (x ∷ xs) s) ≡ settle (feed (x ∷ xs) s)
  unfolding feed ◌>>=◌ bind
  piece-feed x [] lnum offs s c fit r b =
      let (q, m) = place_lem lnum offs s.usable_leb_size s.upd_received (omega arith) r in
      rw (q, m) (ap settle (sym (bind-skip (take_piece E lnum offs (x ∷ []) s))))
  piece-feed x (y ∷ ys) lnum offs s c fit r b =
      let (q, m) = place_lem lnum offs s.usable_leb_size s.upd_received (omega arith) r in
      let t = record s {
        upd_buf = overwrite s.upd_buf offs (x ∷ []);
        upd_received = s.upd_received + 1;
      } in
      let copied = take_piece-copied lnum offs (x ∷ y ∷ ys) s c in
      let rest = take_piece-copied lnum (offs + 1) (y ∷ ys) t c in
      let first = one_byte x lnum offs s c (omega arith) (omega arith) in
      rw (q, m, first, ◌>>=◌)
        (ap settle copied
          ∙ (count_first lnum offs (length (y ∷ ys))
                (record s { upd_buf = overwrite s.upd_buf offs (x ∷ y ∷ ys) })
              ∙ (ap
                    (λ l.
                      settle
                        (after_copy lnum (offs + 1) (length (y ∷ ys)) (record t { upd_buf = l })))
                    (overwrite-cons s.upd_buf offs x (y ∷ ys))
                  ∙ (ap settle (sym rest)
                      ∙ piece-feed y ys lnum (offs + 1) t c (omega arith) (omega arith)
                          (omega arith)))))
