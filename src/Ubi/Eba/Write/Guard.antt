-- ===== src/Ubi/Eba/Write/Guard.antt =====
-- modules/ubi/eba.c, ubi_eba_atomic_leb_change: the old eraseblock goes only when its copy is whole.
use mathlib.Core.Path.{subst, sym}
use android_infotm_confident.Prelude.{
  ℕ, zero, suc, ◌+◌, ◌≡◌, refl, ap, true, false, not, ◌||◌, ◌==◌, if◌then◌else◌, some, List, [],
  ◌∷◌, ℤ, pos, negsuc, Bool-cases, inl, inr, arith, ◌⊎◌,
}
use android_infotm_confident.Outcome.{ok, err, bind, ◌>>=◌, get_state, skip, check, pure}
use android_infotm_confident.Outcome.Post.{Post, Post-map, bind-Post, Post-if, check-Post}
use android_infotm_confident.Ubi.Scan.Types.{VidHdr, eio}
use android_infotm_confident.Ubi.Eba.{enospc}
use android_infotm_confident.Ubi.Eba.Write.{
  EbaState, FlashOp, wrote_vid, wrote_data, put, WriteAct, next_sqnum, ubi_ro_mode, get_peb, act,
  set_entry, write_peb, release, replace_old, give_up, next_hdr, write_try, write_loop,
}

-- Before a try and after one that was taken back, in a try on an eraseblock, or with a copy on it that
-- is whole.
pub data Progress : Type 0 where
  between : Progress
  on : ℕ → Progress
  whole : ℕ → Progress

-- What may be done to the flash, the latest first, to change a LEB that is on the eraseblock `old`
-- to `buf` under headers that are `Good`.
pub data Changing (Good : VidHdr → Type 0) (buf : List ℕ) (old : ℤ) (base : List FlashOp)
    : Progress → List FlashOp → Type 0 where
  begun : Changing Good buf old base between base
  header :
      {ops : List FlashOp} (p : ℕ) (h : VidHdr) (e : ℕ)
      → Good h
      → Changing Good buf old base between ops
      → Changing Good buf old base (on p) (wrote_vid p h e ∷ ops)
  broken :
      {ops : List FlashOp} (p e : ℕ)
      → Changing Good buf old base (on p) ops
      → Changing Good buf old base (on p) (wrote_data p buf 0 e ∷ ops)
  given_back :
      {ops : List FlashOp} (p e : ℕ)
      → Changing Good buf old base (on p) ops
      → Changing Good buf old base between (put p true e ∷ ops)
  copied :
      {ops : List FlashOp} (p : ℕ) (h : VidHdr)
      → Good h
      → Changing Good buf old base between ops
      → Changing Good buf old base (whole p) (wrote_data p buf 0 0 ∷ wrote_vid p h 0 ∷ ops)
  released :
      {ops : List FlashOp} (p o e : ℕ)
      → old ≡ pos o
      → Changing Good buf old base (whole p) ops
      → Changing Good buf old base (whole p) (put o false e ∷ ops)

zero_of : (e : ℕ) → (e == 0) ≡ true → 0 ≡ e
zero_of e q = ground (arith, q)

module _ (Good : VidHdr → Type 0) (buf : List ℕ) (lnum : ℕ) (s0 : EbaState) where
  abbrev pub Change : Progress → List FlashOp → Type 0
  Change = Changing Good buf (s0.eba_tbl lnum) s0.trace

  -- The table is as it was.
  abbrev pub Stage : Progress → EbaState → Type 0
  Stage x t = Change x t.trace × (t.eba_tbl ≡ s0.eba_tbl)

  -- After an error.
  abbrev pub Ended : EbaState → Type 0
  Ended t = (x : Progress) × Stage x t

  -- After a success: the LEB is on its copy, or nothing has changed, and the device is read-only.
  abbrev pub Done : Unit {0} → EbaState → Type 0
  Done a t =
      ((p : ℕ) × (Change (whole p) t.trace
          × (t.eba_tbl ≡ (λ l. if l == lnum then pos p else s0.eba_tbl l))))
      ⊎ ((x : Progress) × (Stage x t × (t.ro_mode ≡ true)))

  abbrev Did : (ℕ → FlashOp) → EbaState → ℕ → EbaState → Type 0
  Did op t e u = (u.trace ≡ op e ∷ t.trace) × (u.eba_tbl ≡ s0.eba_tbl)

  act-Did :
      (op : ℕ → FlashOp) (t : EbaState) → t.eba_tbl ≡ s0.eba_tbl → Post (Did op t) Ended (act op t)
  unfolding act
  act-Did op t h = go t.answers
    where
      go :
          (l : List ℕ)
          → Post {A = ℕ} (Did op t) Ended (elim l [
            | [] ↦ ok 0 (record t { trace = op 0 ∷ t.trace })
            | e ∷ rest ↦ ok e (record t { trace = op e ∷ t.trace; answers = rest })
          ])
      go [] = (refl, h)
      go (e ∷ rest) = (refl, h)

  act-Stage :
      (op : ℕ → FlashOp) (f : ℕ → Progress) (t : EbaState)
      → ((e : ℕ) → Change (f e) (op e ∷ t.trace))
      → t.eba_tbl ≡ s0.eba_tbl
      → Post (λ e. Stage (f e)) Ended (act op t)
  act-Stage op f t c h =
      Post-map Ended (Did op t) (λ e. Stage (f e)) (act op t) (act-Did op t h)
        λ e u d. (subst (Change (f e)) (sym (d.0)) (c e), d.1)

  get_peb-Stage : (t : EbaState) → Stage between t → Post (λ p. Stage between) Ended (get_peb t)
  unfolding get_peb
  get_peb-Stage t h = go t.gets
    where
      go :
          (l : List ℤ)
          → Post {A = ℕ}
              (λ p. Stage between)
              Ended
              (elim l [
                | [] ↦ err enospc t
                | pos p ∷ rest ↦ ok p (record t { gets = rest })
                | negsuc e ∷ rest ↦ err (e + 1) (record t { gets = rest })
              ])
      go [] = (between, h)
      go (pos p ∷ rest) = h
      go (negsuc e ∷ rest) = (between, h)

  copy_on : ℕ → ℕ → Progress
  copy_on p e = elim (e == 0) [ true ↦ whole p | false ↦ on p ]

  copy_on-broken : (p e : ℕ) → (e == 0) ≡ false → copy_on p e ≡ on p
  unfolding copy_on
  copy_on-broken p e q = rw (q, copy_on) refl

  copy_on-whole : (p e : ℕ) → (e == 0) ≡ true → copy_on p e ≡ whole p
  unfolding copy_on
  copy_on-whole p e q = rw (q, copy_on) refl

  -- The second step of the copy, after a header that was written with success.
  data_step :
      (p : ℕ) (h : VidHdr) (ops : List FlashOp)
      → Good h
      → Change between ops
      → (e : ℕ) → Change (copy_on p e) (wrote_data p buf 0 e ∷ wrote_vid p h 0 ∷ ops)
  unfolding copy_on
  data_step p h ops g c e = elim (Bool-cases (e == 0)) [
    | inl q ↦
        subst (λ n. Change (copy_on p n) (wrote_data p buf 0 n ∷ wrote_vid p h 0 ∷ ops))
          (zero_of e q) (copied p h g c)
    | inr q ↦
        subst (λ x. Change x (wrote_data p buf 0 e ∷ wrote_vid p h 0 ∷ ops))
          (sym (copy_on-broken p e q)) (broken p e (header p h 0 g c))
  ]

  write_peb-Stage :
      (p : ℕ) (h : VidHdr) (t : EbaState)
      → Good h
      → Stage between t
      → Post (λ e. Stage (copy_on p e)) Ended (write_peb p h (some buf) 0 t)
  unfolding write_peb ◌>>=◌
  write_peb-Stage p h t g c =
      bind-Post Ended (Did (wrote_vid p h) t) (λ e. Stage (copy_on p e)) (act (wrote_vid p h) t)
        (λ e. if e == 0 then act (wrote_data p buf 0) else pure e) (act-Did (wrote_vid p h) t (c.1))
        λ e u d.
          Post-if Ended (λ n. Stage (copy_on p n)) (e == 0) (act (wrote_data p buf 0)) (pure e) u
            (λ q.
              act-Stage (wrote_data p buf 0) (copy_on p) u
                (λ n.
                  subst (λ l. Change (copy_on p n) (wrote_data p buf 0 n ∷ l))
                    (sym
                      (subst (λ k. u.trace ≡ wrote_vid p h k ∷ t.trace) (sym (zero_of e q)) (d.0)))
                    (data_step p h t.trace g (c.0) n))
                (d.1))
            λ q. (
              subst (λ x. Change x u.trace) (sym (copy_on-broken p e q))
                  (subst (Change (on p)) (sym (d.0)) (header p h e g (c.0))),
              d.1,
            )

  give_up-Ended : (x : Progress) (e : ℕ) (t : EbaState) → Stage x t → Post Done Ended (give_up e t)
  unfolding give_up ubi_ro_mode ◌>>=◌ bind
  give_up-Ended x e t h =
      check-Post Done Ended e (record t { ro_mode = true }) (inr (x, (h, refl))) (x, h)

  release-Stage :
      (p : ℕ) (t : EbaState)
      → Stage (whole p) t
      → (z : ℤ) → s0.eba_tbl lnum ≡ z
      → Post (λ (a : Unit {0}). Stage (whole p)) Ended (release z t)
  unfolding release skip ◌>>=◌
  release-Stage p t h (negsuc n) q = h
  release-Stage p t h (pos o) q =
      bind-Post Ended (λ e. Stage (whole p)) (λ (a : Unit {0}). Stage (whole p))
        (act (put o false) t) check
        (act-Stage (put o false) (λ e. whole p) t (λ e. released p o e q (h.0)) (h.1))
        λ e u d. check-Post (λ (a : Unit {0}). Stage (whole p)) Ended e u d (whole p, d)

  replace_old-Ended :
      (p : ℕ) (t : EbaState) → Stage (whole p) t → Post Done Ended (replace_old lnum p t)
  unfolding replace_old ◌>>=◌ bind get_state set_entry
  replace_old-Ended p t h =
      bind-Post Ended (λ a. Stage (whole p)) Done (release (t.eba_tbl lnum) t) _
        (release-Stage p t h (t.eba_tbl lnum) (ap (λ f. f lnum) (sym (h.1))))
        λ a u d. inl (p, (d.0, ap (λ f l. if l == lnum then pos p else f l) (d.1)))

  write_try-Ended :
      (h : VidHdr) (after : ℕ → WriteAct (Unit {0})) (t : EbaState)
      → Good h
      → Stage between t
      → ((f : ℕ) (u : EbaState) → Stage between u → Post Done Ended (after f u))
      → Post Done Ended (write_try h (some buf) 0 (replace_old lnum) after t)
  unfolding write_try ◌>>=◌ bind get_state
  write_try-Ended h after t g c k =
      bind-Post Ended (λ p. Stage between) Done (get_peb t) _ (get_peb-Stage t c)
        λ p u d.
          bind-Post Ended (λ e. Stage (copy_on p e)) Done (write_peb p h (some buf) 0 u) _
            (write_peb-Stage p h u g d)
            λ e v w.
              Post-if Ended Done (e == 0) (replace_old lnum p) _ v
                (λ q. replace_old-Ended p v (subst (λ x. Stage x v) (copy_on-whole p e q) w))
                λ q.
                  Post-if Ended Done (not (e == eio) || not v.bad_allowed) (give_up e) _ v
                    (λ r.
                      give_up-Ended (on p) e v (subst (λ x. Stage x v) (copy_on-broken p e q) w))
                    λ r.
                      bind-Post Ended (λ f. Stage between) Done (act (put p true) v) after
                        (act-Stage (put p true) (λ f. between) v
                          (λ f.
                            given_back p f ((subst (λ x. Stage x v) (copy_on-broken p e q) w).0))
                          (w.1))
                        λ f x y. k f x y

  module _ (next : (h : VidHdr) (n : ℕ) → Good h → Good (next_hdr h n)) where
    pub write_loop-Ended :
        (left : ℕ) (h : VidHdr) (t : EbaState)
        → Good h
        → Stage between t
        → Post Done Ended (write_loop left h (some buf) 0 (replace_old lnum) t)
    unfolding write_loop ◌>>=◌ bind next_sqnum
    write_loop-Ended zero h t g c = write_try-Ended h give_up t g c (give_up-Ended between)
    write_loop-Ended (suc left) h t g c = write_try-Ended h _ t g c λ f u d.
        Post-if Ended Done (not (f == 0)) (give_up f) _ u (λ q. give_up-Ended between f u d)
          λ q.
            write_loop-Ended left (next_hdr h u.global_sqnum)
              (record u { global_sqnum = u.global_sqnum + 1 }) (next h u.global_sqnum g) d
