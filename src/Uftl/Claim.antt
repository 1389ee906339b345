-- ===== src/Uftl/Claim.antt =====
-- uftl_core.c: the page buffer that a read or a write gets for a sector that is in none.
use mathlib.Core.Path.{subst}
use android_infotm_confident.Prelude.{
  ℕ, ◌≡◌, refl, sym, false, map, Option, none, some, get_elem?, set, ℤ, eq_ℤ, Option-cases, inl,
  inr,
}
use android_infotm_confident.Outcome.{ok, err, fault, ◌>>=◌}
use android_infotm_confident.Outcome.Keeps.{Keeps-when, Ends, bind-Ends, Ends-Keeps, Ends-both}
use android_infotm_confident.Uftl.Types.{Ubi, Ftl, PageBuf, ftl_nomap, eio}
use android_infotm_confident.Uftl.Sync.{
  find_buf, get_new_buf, get_buf, modify_buf, free_page, release_buf, sync_one_buf, flush_one_buf,
  oldest_loop,
}
use android_infotm_confident.Uftl.Buffers.{
  size_of, blank, set-set, others, write_out-Keeps, get_buf-others, sync_one_buf-Keeps,
}
use android_infotm_confident.Uftl.Io.{claim_buf}
use android_infotm_confident.Uftl.FindBuf.{find_buf-set_ne}

module _ (U : Ubi) where
  -- One buffer is changed.
  pub modify_buf-Ends {μ} :
      (Q : Unit {0} → Ftl U.Vol → Type μ) (buf_pos : ℕ) (f : PageBuf → PageBuf) (s : Ftl U.Vol)
      → ((b : PageBuf)
          → get_elem? s.page_buf_pool buf_pos ≡ some b
          → Q tt (record s { page_buf_pool = set s.page_buf_pool buf_pos (f b) }))
      → Ends Q (modify_buf U buf_pos f s)
  unfolding modify_buf
  modify_buf-Ends Q buf_pos f s k = elim (Option-cases (get_elem? s.page_buf_pool buf_pos)) [
    | inl e ↦ rw (e, modify_buf, Ends) tt
    | inr (b, e) ↦ rw (e, modify_buf, Ends) (k b e)
  ]

  module _ (v : ℤ) (real : eq_ℤ v ftl_nomap ≡ false) where
    abbrev pub Nowhere : Ftl U.Vol → Type 0
    Nowhere s = find_buf v 0 s.page_buf_pool ≡ none

    pub release_buf-Nowhere :
        (buf_pos : ℕ) (s t : Ftl U.Vol)
        → Nowhere s
        → others U buf_pos t ≡ others U buf_pos s
        → Ends (λ _ u. Nowhere u) (release_buf U buf_pos t)
    unfolding release_buf ◌>>=◌ free_page
    release_buf-Nowhere buf_pos s t h e =
        modify_buf-Ends (λ _ u. Nowhere u) buf_pos (free_page U t.now) t
          λ b g.
            let freed = free_page U t.now b in
            rw (← set-set t.page_buf_pool buf_pos blank freed) (
              subst (λ pool. find_buf v 0 (set pool buf_pos freed) ≡ none) (λ i. (sym e i).2)
                (rw (set-set s.page_buf_pool buf_pos blank freed)
                  (find_buf-set_ne v 0 buf_pos s.page_buf_pool freed h real)))

    -- A successful sync leaves `v` nowhere, if it was nowhere before.
    pub sync-Nowhere :
        (buf_pos : ℕ) (s : Ftl U.Vol)
        → Nowhere s
        → Ends (λ _ t. Nowhere t) (sync_one_buf U buf_pos s)
    unfolding sync_one_buf ◌>>=◌
    sync-Nowhere buf_pos s h =
        bind-Ends (λ _ t. others U buf_pos t ≡ others U buf_pos s) (λ _ t. Nowhere t) _ _
          (Ends-Keeps (others U buf_pos) (get_buf U buf_pos) s (get_buf-others U buf_pos) refl)
          λ b t e.
            bind-Ends (λ _ t. others U buf_pos t ≡ others U buf_pos s) (λ _ t. Nowhere t) _ _
              (Ends-Keeps (others U buf_pos) _ t (Keeps-when _ _ (write_out-Keeps U buf_pos)) e)
              λ x u e'. release_buf-Nowhere buf_pos s u h e'

  -- What claim_buf hands over: a free buffer, and `v` is still nowhere.
  pub record Claimed (v : ℤ) (s : Ftl U.Vol) (p : ℕ) (t : Ftl U.Vol) : Type 0 where
    pub fip : t.fip ≡ s.fip
    pub sizes : map size_of t.page_buf_pool ≡ map size_of s.page_buf_pool
    pub nowhere : find_buf v 0 t.page_buf_pool ≡ none
    pub found : get_new_buf U t ≡ some p

  -- What a flush leaves as it was.
  abbrev pub Flushed : ℤ → Ftl U.Vol → Ftl U.Vol → Type 0
  Flushed v s t =
      (t.fip ≡ s.fip)
      × (map size_of t.page_buf_pool ≡ map size_of s.page_buf_pool)
      × (find_buf v 0 t.page_buf_pool ≡ none)

  pub flush-Ends :
      (v : ℤ) (real : eq_ℤ v ftl_nomap ≡ false) (s : Ftl U.Vol)
      → find_buf v 0 s.page_buf_pool ≡ none
      → Ends (λ _ t. Flushed v s t) (flush_one_buf U s)
  unfolding flush_one_buf
  flush-Ends v real s h = go (oldest_loop s.page_buf_pool s.page_buf_pool 0 0 s.now)
    where
      go :
          (o : Option ℕ)
          → Ends (λ _ t. Flushed v s t) (elim o [ none ↦ fault | some p ↦ sync_one_buf U p s ])
      go none = tt
      go (some p) =
          Ends-both (sync_one_buf U p s)
            (Ends-Keeps (others U p) (sync_one_buf U p) s (sync_one_buf-Keeps U p) refl)
            (sync-Nowhere v real p s h) λ x t e n. (λ i. (e i).0, λ i. (e i).1, n)

  pub claim_buf-Claimed :
      (v : ℤ) (real : eq_ℤ v ftl_nomap ≡ false) (s : Ftl U.Vol)
      → find_buf v 0 s.page_buf_pool ≡ none
      → Ends (Claimed v s) (claim_buf U s)
  unfolding claim_buf
  claim_buf-Claimed v real s h = elim (Option-cases (get_new_buf U s)) [
    | inr (p, e) ↦
        rw (e, claim_buf, Ends) (record { fip = refl; sizes = refl; nowhere = h; found = e })
    | inl e ↦
        rw (e, claim_buf)
          (bind-Ends (λ _ t. Flushed v s t) (Claimed v s) _ _ (flush-Ends v real s h) after)
  ]
    where
      after :
          (x : Unit {0}) (t : Ftl U.Vol)
          → Flushed v s t
          → Ends
              (Claimed v s)
              (elim (get_new_buf U t) [ some buf_pos ↦ ok buf_pos t | none ↦ err eio t ])
      after x t f = elim (Option-cases (get_new_buf U t)) [
        | inl e ↦ rw (e, Ends) tt
        | inr (p, e) ↦ rw (e, Ends) (record { fip = f.0; sizes = f.1; nowhere = f.2; found = e })
      ]
