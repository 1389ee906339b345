-- ===== src/Ubi/Eba/Read/Checked.antt =====
-- modules/ubi/eba.c, ubi_eba_read_leb: data that is checked.
use mathlib.Core.Path.{subst, sym}
use android_infotm_confident.Prelude.{
  ℕ, ◌+◌, ◌≡◌, refl, Bool, true, false, ◌&&◌, ◌||◌, ◌==◌, some, List, [], ◌∷◌, ℤ, pos, negsuc, eq_ℤ,
  arith,
}
use android_infotm_confident.Outcome.{ok, err, bind, ◌>>=◌, get_state, fail, pure, check}
use android_infotm_confident.Outcome.Post.{Post, bind-Post, Post-if, check-Post}
use android_infotm_confident.Ubi.Misc.{ebadmsg}
use android_infotm_confident.Ubi.Scan.Types.{
  VidHdr, io_bitflips, io_bad_hdr, io_bad_hdr_ebadmsg, enomem,
}
use android_infotm_confident.Ubi.Eba.Write.{
  EbaState, FlashOp, WriteAct, scrubbed, take_alloc, act, ubi_ro_mode,
}
use android_infotm_confident.Ubi.Eba.Write.Change.{read_hdr, read_data}
use android_infotm_confident.Ubi.Eba.Read.{
  ReadAct, with_crc, scrub_if, judge_hdr, judge_read, end_read, data_part, checked_read,
  ubi_eba_read_leb,
}

abbrev pub Any : EbaState → Type 0
Any t = Unit

-- An action whatever the outcomes of the allocations.
abbrev LeavesRest : EbaState → EbaState → Type 0
LeavesRest s t = (l : List Bool) × (t ≡ record s { allocs = l })

take_alloc-LeavesRest : (s : EbaState) → Post (λ (a : Unit {0}). LeavesRest s) Any (take_alloc s)
unfolding take_alloc
take_alloc-LeavesRest s = go s.allocs
  where
    go :
        (l : List Bool)
        → Post {A = Unit {0}}
            (λ a. LeavesRest s)
            Any
            (elim l [
              | [] ↦ ok tt s
              | true ∷ rest ↦ ok tt (record s { allocs = rest })
              | false ∷ rest ↦ err enomem (record s { allocs = rest })
            ])
    go [] = (s.allocs, refl)
    go (true ∷ rest) = (rest, refl)
    go (false ∷ rest) = tt

alloc-Post :
    {A : Type 0} (Q : A → EbaState → Type 0) (k : WriteAct A) (s : EbaState)
    → ((l : List Bool) → Post Q Any (k (record s { allocs = l })))
    → Post Q Any (bind (take_alloc s) (λ a. k))
alloc-Post Q k s h =
    bind-Post Any (λ (a : Unit {0}). LeavesRest s) Q (take_alloc s) (λ a. k)
      (take_alloc-LeavesRest s) λ a t e. subst (λ u. Post Q Any (k u)) (sym (e.1)) (h (e.0))

act-ends : (op : ℕ → FlashOp) (s : EbaState) → Post (λ (e : ℕ) t. Unit {0}) Any (act op s)
unfolding act
act-ends op s = go s.answers
  where
    go :
        (l : List ℕ)
        → Post {A = ℕ}
            (λ e t. Unit {0})
            Any
            (elim l [
              | [] ↦ ok 0 (record s { trace = op 0 ∷ s.trace })
              | e ∷ rest ↦ ok e (record s { trace = op e ∷ s.trace; answers = rest })
            ])
    go [] = tt
    go (e ∷ rest) = tt

read_data-ends : (s : EbaState) → Post (λ (r : ℤ × List ℕ) t. Unit {0}) Any (read_data s)
unfolding read_data
read_data-ends s = go s.reads
  where
    go :
        (l : List (ℤ × List ℕ))
        → Post {A = ℤ × List ℕ}
            (λ e t. Unit {0})
            Any
            (elim l [ [] ↦ ok (pos 0, []) s | r ∷ rest ↦ ok r (record s { reads = rest }) ])
    go [] = tt
    go (r ∷ rest) = tt

left_zero : (n : ℕ) (c : Bool) → ((n == 0) || c) ≡ false → n ≡ 0 → ⊥
left_zero n c q e = ground (arith, q, e)

module _ (crc32 : List ℕ → ℕ) where
  -- Where the value returned is 0, the buffer has the checksum.
  abbrev pub Checked : ℕ → ℕ × List ℕ → EbaState → Type 0
  Checked crc r t = r.0 ≡ 0 → crc32 (r.1) ≡ crc

  scrub_if-Checked :
      (pnum crc : ℕ) (b : Bool) (buf : List ℕ) (s : EbaState)
      → crc32 buf ≡ crc
      → Post (Checked crc) Any (scrub_if pnum b buf s)
  unfolding scrub_if pure ◌>>=◌
  scrub_if-Checked pnum crc false buf s h = λ e. h
  scrub_if-Checked pnum crc true buf s h =
      bind-Post Any (λ e t. Unit) (Checked crc) (act (scrubbed pnum) s) _
        (act-ends (scrubbed pnum) s)
        λ e t u.
          bind-Post Any (λ (a : Unit {0}) v. Unit) (Checked crc) (check e t) _
            (check-Post (λ a v. Unit) Any e t tt tt) λ a v w. λ q. h

  end_read-Checked :
      (pnum crc : ℕ) (b : Bool) (buf : List ℕ) (s : EbaState)
      → Post (Checked crc) Any (end_read crc32 true pnum (some crc) b buf s)
  unfolding end_read fail
  end_read-Checked pnum crc b buf s =
      Post-if Any (Checked crc) (crc32 buf == crc) (scrub_if pnum b buf) (fail ebadmsg) s
        (λ q. scrub_if-Checked pnum crc b buf s (ground (arith, q))) λ q. tt

  positive : (n : ℕ) → (n == 0) ≡ false → n ≡ 0 → ⊥
  positive n q e = ground (arith, q, e)

  judge_read-Checked :
      (pnum crc : ℕ) (b : Bool) (forced : ReadAct) (z : ℤ) (buf : List ℕ) (s : EbaState)
      → Post (Checked crc) Any (judge_read crc32 true pnum (some crc) b forced z buf s)
  unfolding judge_read fail pure
  judge_read-Checked pnum crc b forced (pos n) buf s =
      Post-if Any (Checked crc) (n == 0) (end_read crc32 true pnum (some crc) b buf) _ s
        (λ q. end_read-Checked pnum crc b buf s)
        λ q.
          Post-if Any (Checked crc) (eq_ℤ (pos n) io_bitflips)
            (end_read crc32 true pnum (some crc) true buf) (pure (n, buf)) s
            (λ r. end_read-Checked pnum crc true buf s) λ r e. absurd (positive n q e)
  judge_read-Checked pnum crc b forced (negsuc e) buf s =
      Post-if Any (Checked crc) (e + 1 == ebadmsg && true)
        (end_read crc32 true pnum (some crc) true buf) (fail (e + 1)) s
        (λ r. end_read-Checked pnum crc true buf s) λ r. tt

  judge_hdr-Checked :
      (pnum : ℕ) (b : Bool) (forced : ReadAct) (z : ℤ) (h : VidHdr) (s : EbaState)
      → Post
          (Checked h.data_crc)
          Any
          (judge_hdr (λ crc flips. data_part crc32 true pnum (some crc) (b || flips) forced) z h s)
  unfolding judge_hdr data_part fail pure ubi_ro_mode ◌>>=◌ bind
  judge_hdr-Checked pnum b forced (negsuc e) h s = tt
  judge_hdr-Checked pnum b forced (pos n) h s =
      Post-if Any (Checked h.data_crc) (n == 0 || eq_ℤ (pos n) io_bitflips) _ _ s
        (λ q.
          bind-Post Any (λ r t. Unit) (Checked h.data_crc) (read_data s) _ (read_data-ends s)
            λ r t u.
              judge_read-Checked pnum h.data_crc (b || eq_ℤ (pos n) io_bitflips) forced (r.0) (r.1)
                t)
        λ q.
          Post-if Any (Checked h.data_crc)
            (eq_ℤ (pos n) io_bad_hdr_ebadmsg || eq_ℤ (pos n) io_bad_hdr) (fail ebadmsg) _ s
            (λ r. tt) λ r e. absurd (left_zero n (eq_ℤ (pos n) io_bitflips) q e)

  checked_read-Checked :
      (pnum : ℕ) (b : Bool) (z : ℤ) (h : VidHdr) (rest : List (ℤ × VidHdr)) (s : EbaState)
      → Post
          (Checked h.data_crc)
          Any
          (checked_read crc32 true pnum b (record s { vids = (z, h) ∷ rest }))
  unfolding checked_read with_crc read_hdr ◌>>=◌ bind
  checked_read-Checked pnum b z h rest s =
      alloc-Post (Checked h.data_crc) _ (record s { vids = (z, h) ∷ rest })
        λ l. judge_hdr-Checked pnum b (fail ebadmsg) z h (record s { vids = rest; allocs = l })

  -- Reading a LEB of a static volume that is mapped ends without a fault, and where 0 is returned the
  -- buffer has the checksum of the header of the eraseblock, as it is read now: if the caller asks for
  -- a check, and also without, if the first read of the data gives -EBADMSG.
  pub ubi_eba_read_leb-Checked :
      (lnum len pnum : ℕ) (z : ℤ) (h : VidHdr) (rest : List (ℤ × VidHdr)) (buf : List ℕ)
      (more : List (ℤ × List ℕ)) (s : EbaState)
      → s.eba_tbl lnum ≡ pos pnum
      → Post
          (Checked h.data_crc)
          Any
          (ubi_eba_read_leb crc32 true lnum len true (record s { vids = (z, h) ∷ rest }))
        × Post (Checked h.data_crc) Any (
            ubi_eba_read_leb crc32 true lnum len false
              (record s { vids = (z, h) ∷ rest; reads = (negsuc 73, buf) ∷ more }))
  unfolding ubi_eba_read_leb data_part read_data judge_read get_state ◌>>=◌ bind
  ubi_eba_read_leb-Checked lnum len pnum z h rest buf more s e = (
    alloc-Post (Checked h.data_crc) _ (record s { vids = (z, h) ∷ rest })
        λ l. rw e (checked_read-Checked pnum false z h rest (record s { allocs = l })),
    alloc-Post (Checked h.data_crc) _
        (record s { vids = (z, h) ∷ rest; reads = (negsuc 73, buf) ∷ more })
        λ l. rw e (checked_read-Checked pnum true z h rest (record s { allocs = l; reads = more })),
  )
