-- ===== src/Ubi/Upd/Whole.antt =====
-- modules/ubi/upd.c: ubi_more_update_data against an update that takes its bytes one at a time.
use mathlib.Core.Path.{fun_ext}
use android_infotm_confident.Prelude.{
  ℕ, ◌+◌, ◌≤◌, ◌<◌, ◌≡◌, refl, ap, sym, ◌∙◌, false, if◌then◌else◌, List, [], ◌∷◌, ◌++◌, length,
  arith, length-append,
}
use android_infotm_confident.Outcome.{
  ok, err, bind, bind_assoc, ◌>>=◌, ◌>>◌, get_state, skip, check,
}
use android_infotm_confident.Outcome.Keeps.{Ends-mono}
use android_infotm_confident.Ubi.Upd.{
  Eba, UpdVolume, UpdAct, accepted, call, clear_update_marker, mark_volume, static_sizes, erofs,
  finish, take_bytes, ubi_more_update_data,
}
use android_infotm_confident.Ubi.Upd.Feed.{settle, settle-bind, feed}
use android_infotm_confident.Ubi.Upd.Received.{Received, feed-Received, feed-append}
use android_infotm_confident.Ubi.Upd.Chunks.{settle-next, Open, accepted-Taking, take_bytes-feed}

abbrev pub joined : List (List ℕ) → List ℕ
joined [] = []
joined (c ∷ cs) = c ++ joined cs

module _ (E : Eba) where
  -- The update that takes its bytes one at a time, and looks for its end after a call's last byte.
  unfoldable pub feed_call : List ℕ → UpdAct E ℕ
  feed_call bytes s = (feed E (accepted E bytes s) >> finish E (length (accepted E bytes s))) s

  writes_lem :
      (bytes : List ℕ) (s : UpdVolume E.Dev)
      → s.ro_mode ≡ false
      → ubi_more_update_data E bytes s
        ≡ bind (take_bytes E (accepted E bytes s) s) (λ _. finish E (length (accepted E bytes s)))
  unfolding ubi_more_update_data ◌>>=◌
  writes_lem bytes s w =
      ap
        (λ b.
          if b
          then err erofs s
          else bind (take_bytes E (accepted E bytes s) s)
              (λ _. finish E (length (accepted E bytes s))))
        w

  -- Of an update that is open (bytes are missing, eraseblocks are not empty, copies from the user do
  -- not fail, and the device can be written), a call of ubi_more_update_data has the outcome of an update that takes the
  -- accepted bytes one at a time, each at the place that the count of bytes received names, and
  -- then looks for the end of the update: the same calls of the device in the same order, the same
  -- result or error, and the same state, but for the count of bytes received after an error.
  pub ubi_more_update_data-feed :
      (bytes : List ℕ) (s : UpdVolume E.Dev)
      → Open E s
      → settle E (ubi_more_update_data E bytes s) ≡ settle E (feed_call bytes s)
  unfolding feed_call ◌>>=◌
  ubi_more_update_data-feed bytes s o =
      ap (settle E) (writes_lem bytes s o.writable)
      ∙ (settle-bind E _ _ (λ _. finish E (length (accepted E bytes s)))
          (take_bytes-feed E (accepted E bytes s) s o (accepted-Taking E bytes s o)))

  -- The calls of a user, one for each part of the bytes.
  unfoldable pub upload : List (List ℕ) → UpdAct E (Unit {0})
  upload [] = skip
  upload (c ∷ cs) = ubi_more_update_data E c >>= λ _. upload cs

  finish_later :
      (n : ℕ) (s : UpdVolume E.Dev) → s.upd_received < s.upd_bytes → finish E n s ≡ ok 0 s
  unfolding finish get_state ◌>>=◌ bind
  finish_later n s l = ground arith

  accepted-all :
      (bytes : List ℕ) (s : UpdVolume E.Dev)
      → s.upd_received + length bytes ≤ s.upd_bytes
      → accepted E bytes s ≡ bytes
  unfolding accepted
  accepted-all bytes s l = ground arith

  Open-later :
      (bytes : List ℕ) (s t : UpdVolume E.Dev)
      → Open E s
      → Received E (length bytes) s t
      → s.upd_received + length bytes < s.upd_bytes
      → Open E t
  Open-later bytes s t o r l = record {
    copied = ap (λ p. p.2) r.same ∙ o.copied;
    sized = omega (arith, ap (λ p. p.0) r.same, o.sized);
    room = omega (arith, r.more, ap (λ p. p.1) r.same);
    writable = ap (λ p. p.3) r.same ∙ o.writable;
  }

  -- A call that does not end the update stores its bytes.
  more_part :
      (c : List ℕ) (s : UpdVolume E.Dev) (f : UpdAct E (Unit {0}))
      → Open E s
      → s.upd_received + length c < s.upd_bytes
      → settle E (bind (ubi_more_update_data E c s) (λ _. f))
        ≡ settle E (bind (feed E c s) (λ _. f))
  unfolding feed_call ◌>>=◌ bind
  more_part c s f o l =
      settle-bind E _ _ (λ _. f) (ubi_more_update_data-feed c s o)
      ∙ (ap (λ b. settle E (bind (bind (feed E b s) (λ _. finish E (length b))) (λ _. f)))
            (accepted-all c s (omega arith))
          ∙ (ap (settle E) (bind_assoc (feed E c s) (λ _. finish E (length c)) (λ _. f))
              ∙ settle-next E (feed E c s) (λ _ t. bind (finish E (length c) t) (λ _. f)) (λ _. f)
                  (Ends-mono _ (λ _ t. Received E (length c) s t) _
                    (λ a t r.
                      ap (λ p. settle E (bind p (λ _. f)))
                        (finish_later (length c) t (omega (arith, r.more, ap (λ p. p.1) r.same))))
                    (feed-Received E c s o.copied))))

  -- However many calls bring them, the bytes are stored one after the other.
  upload-feed :
      (cs : List (List ℕ)) (s : UpdVolume E.Dev) (f : UpdAct E (Unit {0}))
      → Open E s
      → s.upd_received + length (joined cs) < s.upd_bytes
      → settle E (bind (upload cs s) (λ _. f)) ≡ settle E (bind (feed E (joined cs) s) (λ _. f))
  unfolding upload ◌>>=◌
  upload-feed [] s f o l = unfold feed skip bind in refl
  upload-feed (c ∷ cs) s f o l =
      ap (settle E) (bind_assoc (ubi_more_update_data E c s) (λ _. upload cs) (λ _. f))
      ∙ (more_part c s (λ t. bind (upload cs t) (λ _. f)) o
            (omega (arith, length-append c (joined cs)))
          ∙ (settle-next E (feed E c s) (λ _ t. bind (upload cs t) (λ _. f))
                (λ _ t. bind (feed E (joined cs) t) (λ _. f))
                (Ends-mono _ (λ _ t. Received E (length c) s t) _
                  (λ a t r.
                    upload-feed cs t f
                      (Open-later c s t o r (omega (arith, length-append c (joined cs))))
                      (omega (arith, l, r.more, ap (λ p. p.1) r.same, length-append c (joined cs))))
                  (feed-Received E c s o.copied))
              ∙ ap (settle E) (
                  sym (bind_assoc (feed E c s) (λ _. feed E (joined cs)) (λ _. f))
                  ∙ ap (λ p. bind p (λ _. f)) (sym (feed-append E c (joined cs) s)))))

  abbrev pub end : ℕ → UpdAct E (Unit {0})
  end n t = bind (finish E n t) (λ _. skip)

  pub last_call :
      (b : List ℕ) (s : UpdVolume E.Dev)
      → Open E s
      → s.upd_received + length b ≡ s.upd_bytes
      → settle E (upload (b ∷ []) s)
        ≡ settle E (bind (feed E b s) (λ _ t. bind (finish E (length b) t) (λ _. skip)))
  unfolding upload feed_call ◌>>=◌
  last_call b s o l =
      settle-bind E _ _ (λ _. skip) (ubi_more_update_data-feed b s o)
      ∙ (ap (λ c. settle E (bind (bind (feed E c s) (λ _. finish E (length c))) (λ _. skip)))
            (accepted-all b s (omega arith))
          ∙ ap (settle E) (bind_assoc (feed E b s) (λ _. finish E (length b)) (λ _. skip)))

  -- What a call that ends the update leaves does not depend on the bytes it brought.
  finish_any :
      (m n : ℕ) (t : UpdVolume E.Dev)
      → bind (finish E m t) (λ _. skip) ≡ bind (finish E n t) (λ _. skip)
  unfolding finish call clear_update_marker mark_volume static_sizes get_state check skip ◌>>=◌ bind
  finish_any m n t = ground arith

  upload-append :
      (xs ys : List (List ℕ)) (s : UpdVolume E.Dev)
      → upload (xs ++ ys) s ≡ bind (upload xs s) (λ _. upload ys)
  unfolding upload skip ◌>>=◌ bind
  upload-append [] ys s = refl
  upload-append (c ∷ xs) ys s =
      ap (λ f. bind (ubi_more_update_data E c s) (λ _. f)) (fun_ext λ t. upload-append xs ys t)
      ∙ sym (bind_assoc (ubi_more_update_data E c s) (λ _. upload xs) (λ _. upload ys))

  -- Whatever the device answers, where an update has bytes missing, eraseblocks are not empty, copies
  -- from the user do not fail and the device can be written: if the missing bytes come in any number of calls, the last of
  -- them not empty, the outcome is that of all bytes in one call: the same state of the device and
  -- of the volume, or the same error, but for the count of bytes received after an error.
  pub upload_at_once :
      (cs : List (List ℕ)) (l : List ℕ) (s : UpdVolume E.Dev)
      → Open E s
      → s.upd_received + length (joined cs) + length l ≡ s.upd_bytes
      → 0 < length l
      → settle E (upload (cs ++ (l ∷ [])) s) ≡ settle E (upload ((joined cs ++ l) ∷ []) s)
  upload_at_once cs l s o e p =
      ap (settle E) (upload-append cs (l ∷ []) s)
      ∙ (upload-feed cs s (upload (l ∷ [])) o (omega arith)
          ∙ (settle-next E (feed E (joined cs) s) (λ _. upload (l ∷ []))
                (λ _ t. bind (feed E l t) (λ _. end (length l)))
                (Ends-mono _ (λ _ t. Received E (length (joined cs)) s t) _
                  (λ a t r.
                    last_call l t (Open-later (joined cs) s t o r (omega arith))
                      (omega (arith, e, r.more, ap (λ p. p.1) r.same)))
                  (feed-Received E (joined cs) s o.copied))
              ∙ (ap (settle E)
                    (sym (bind_assoc (feed E (joined cs) s) (λ _. feed E l) (λ _. end (length l))))
                  ∙ (ap (λ p. settle E (bind p (λ _. end (length l))))
                        (sym (feed-append E (joined cs) l s))
                      ∙ (ap (λ f. settle E (bind (feed E (joined cs ++ l) s) (λ _. f)))
                            (fun_ext λ t. finish_any (length l) (length (joined cs ++ l)) t)
                          ∙ sym (
                              last_call (joined cs ++ l) s o
                                (omega (arith, e, length-append (joined cs) l))))))))
