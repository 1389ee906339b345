-- ===== src/Ubi/Scan/Whole.antt =====
-- scan.c: what a scan of the whole device finds.
use android_infotm_confident.Prelude.{
  ℕ, ◌+◌, ◌≡◌, refl, ap, sym, ◌∙◌, Bool, true, false, not, ◌&&◌, ◌||◌, ◌==◌, arith, ℤ, pos, negsuc,
  eq_ℤ, ltb_ℤ,
}
use android_infotm_confident.Outcome.Keeps.{Keeps, keeps_rules}
use android_infotm_confident.Outcome.Triple.{
  Triple, Triple-if, Triple-fail, Triple-bind, Triple-Keeps,
}
use android_infotm_confident.Ubi.Rb.{Balance}
use android_infotm_confident.Ubi.Scan.Types.{
  compat_delete, compat_ro, compat_preserve, compat_reject, Flash, io_ff, io_ff_bitflips,
  io_bad_hdr, io_bad_hdr_ebadmsg, io_bitflips,
}
use android_infotm_confident.Ubi.Scan.{ScanAct}
use android_infotm_confident.Ubi.Scan.Used.{Peb, ubi_scan_add_used}
use android_infotm_confident.Ubi.Scan.Chosen.{Scanned}
use android_infotm_confident.Ubi.Scan.Add.{ubi_scan_add_used-Scanned}
use android_infotm_confident.Ubi.Scan.Frame.{
  vols, add_to_free-Keeps, add_to_erase-Keeps, add_to_alien-Keeps, adjust_mean_ec-Keeps,
  count_empty-Keeps, count_bad-Keeps, count_maybe_bad-Keeps, set_ro_mode-Keeps, check_ec_hdr-Keeps,
  bad_vid_hdr-Keeps,
}
use android_infotm_confident.Ubi.Scan.Process.{
  foreign, add_and_adjust, use_peb, look_at_vid_hdr, process_good, process_eb,
}
use android_infotm_confident.Ubi.Scan.Upto.{
  ec_read, vid_read, ours, used, Upto, Tame, header-Honest, Upto-skip, Upto-add,
}

-- How the tests of the code exclude one another.
vid_unread : (e t : ℤ) → eq_ℤ e t ≡ true → vid_read t ≡ false → vid_read e ≡ false
vid_unread (pos m) (pos n) h k = ground (arith, h, k)
vid_unread (pos m) (negsuc n) h k = cc
vid_unread (negsuc m) (pos n) h k = cc
vid_unread (negsuc m) (negsuc n) h k = refl

ec_unread : (e t : ℤ) → eq_ℤ e t ≡ true → ec_read t ≡ false → ec_read e ≡ false
ec_unread (pos m) (pos n) h k = ground (arith, h, k)
ec_unread (pos m) (negsuc n) h k = cc
ec_unread (negsuc m) (pos n) h k = cc
ec_unread (negsuc m) (negsuc n) h k = refl

module _ (B : Balance) (F : Flash) (T : Tame F) (n : ℕ) where
  abbrev Round : ScanAct (Unit {0}) → Type 0
  Round m = Triple vols (Scanned F (Upto F n)) m (Scanned F (Upto F (n + 1)))

  passed_by : (m : ScanAct (Unit {0})) → Keeps vols m → used F n ≡ false → Round m
  passed_by m k e = Triple-Keeps vols m k (λ vs. Upto-skip F T n vs e)

  added :
      (p : Peb) (e : ℤ)
      → p.pnum ≡ n
      → p.vid ≡ (F.read_vid_hdr n).1
      → used F n ≡ true
      → Round (add_and_adjust B F p e)
  unfolding add_and_adjust
  added p e en eh u =
      Triple-bind vols (ubi_scan_add_used B F p) _
        (record {
          at = λ s S.
              ubi_scan_add_used-Scanned B F (Upto F n) p s S
                (header-Honest F T p (eh ∙ ap (λ k. (F.read_vid_hdr k).1) (sym en)));
        })
        (λ _. Triple-Keeps vols _ (adjust_mean_ec-Keeps e p.ec) (λ vs. Upto-add F T n p vs u en eh))

  -- A flash eraseblock that is not bad, whose erase counter header can be read.
  module _ (good : eq_ℤ (F.is_bad n) (pos 0) ≡ true)
      (counted : ec_read (F.read_ec_hdr n).0 ≡ true) where
    used_by_vid : used F n ≡ (vid_read (F.read_vid_hdr n).0 && ours (F.read_vid_hdr n).1)
    used_by_vid = rw (good, counted) refl

    use_peb-Round :
        (p : Peb) (e : ℤ)
        → p.pnum ≡ n
        → p.vid ≡ (F.read_vid_hdr n).1
        → vid_read (F.read_vid_hdr n).0 ≡ true
        → Round (use_peb B F p e)
    unfolding use_peb
    use_peb-Round p e en eh v =
        let same : used F n ≡ ours p.vid = used_by_vid ∙ (rw v (ap ours (sym eh))) in
        Triple-if vols (foreign p.vid) _ _
          (λ f.
            Triple-if vols (p.vid.compat == compat_delete) _ _
              (λ c. passed_by _ (add_to_erase-Keeps p.pnum p.ec true) (same ∙ ground (arith, f, c)))
              (λ c.
                Triple-if vols (p.vid.compat == compat_ro) _ _
                  (λ d.
                    Triple-bind vols _ _ (Triple-Keeps vols _ set_ro_mode-Keeps (λ vs S. S))
                      (λ _. added p e en eh (same ∙ ground (arith, f, c, d))))
                  (λ d.
                    Triple-if vols (p.vid.compat == compat_preserve) _ _
                      (λ g.
                        passed_by _ (add_to_alien-Keeps p.pnum p.ec false)
                          (same ∙ ground (arith, f, g)))
                      (λ g.
                        Triple-if vols (p.vid.compat == compat_reject) _ _
                          (λ h. Triple-fail vols 22)
                          (λ h. added p e en eh (same ∙ ground (arith, f, c, g, h)))))))
          (λ f. added p e en eh (same ∙ ground (arith, f)))

    look_at_vid_hdr-Round :
        (ec_err ec : ℤ) (flips : Bool) → Round (look_at_vid_hdr B F n ec_err ec flips)
    unfolding look_at_vid_hdr
    look_at_vid_hdr-Round ec_err ec flips =
        let e = (F.read_vid_hdr n).0 in
        Triple-if vols (ltb_ℤ e (pos 0)) _ _ (λ h. Triple-fail vols _)
          (λ _.
            Triple-if vols (eq_ℤ e (pos 0)) _ _ (λ h. use_peb-Round _ ec_err refl refl (rw h refl))
              (λ a.
                Triple-if vols (eq_ℤ e io_bitflips) _ _
                  (λ h. use_peb-Round _ ec_err refl refl (rw (a, h) refl))
                  (λ b.
                    let unread : vid_read e ≡ false = rw (a, b) refl in
                    Triple-if vols (eq_ℤ e io_bad_hdr_ebadmsg) _ _
                      (λ h.
                        passed_by _ (search (keeps_rules, count_maybe_bad-Keeps, bad_vid_hdr-Keeps))
                          (unused unread))
                      (λ _.
                        Triple-if vols (eq_ℤ e io_bad_hdr) _ _
                          (λ h. passed_by _ (bad_vid_hdr-Keeps F n ec_err ec) (unused unread))
                          (λ _.
                            Triple-if vols (eq_ℤ e io_ff_bitflips) _ _
                              (λ h.
                                passed_by _
                                  (search (keeps_rules, add_to_erase-Keeps, adjust_mean_ec-Keeps))
                                  (unused unread))
                              (λ _.
                                Triple-if vols (eq_ℤ e io_ff) _ _
                                  (λ h.
                                    passed_by _
                                      (search (
                                        keeps_rules, add_to_erase-Keeps, add_to_free-Keeps,
                                        adjust_mean_ec-Keeps,
                                      ))
                                      (unused unread))
                                  (λ _. Triple-fail vols _)))))))
      where
        unused : vid_read (F.read_vid_hdr n).0 ≡ false → used F n ≡ false
        unused h = used_by_vid ∙ (rw h refl)

  process_good-Round : eq_ℤ (F.is_bad n) (pos 0) ≡ true → Round (process_good B F n)
  unfolding process_good
  process_good-Round good =
      let e = (F.read_ec_hdr n).0 in
      Triple-if vols (ltb_ℤ e (pos 0)) _ _ (λ h. Triple-fail vols _)
        (λ _.
          Triple-if vols (eq_ℤ e (pos 0) || eq_ℤ e io_bitflips) _ _
            (λ h.
              Triple-bind vols _ _
                (Triple-Keeps vols _ (check_ec_hdr-Keeps (F.read_ec_hdr n).1) (λ vs S. S))
                (λ _.
                  look_at_vid_hdr-Round good (rw h refl) (pos 0) (pos (F.read_ec_hdr n).1.ec)
                    (eq_ℤ e io_bitflips)))
            (λ _.
              Triple-if vols (eq_ℤ e io_ff) _ _
                (λ h.
                  passed_by _ (search (keeps_rules, count_empty-Keeps, add_to_erase-Keeps))
                    (unread_ec good (ec_unread e io_ff h refl)))
                (λ _.
                  Triple-if vols (eq_ℤ e io_ff_bitflips) _ _
                    (λ h.
                      passed_by _ (search (keeps_rules, count_empty-Keeps, add_to_erase-Keeps))
                        (unread_ec good (ec_unread e io_ff_bitflips h refl)))
                    (λ _.
                      Triple-if vols (eq_ℤ e io_bad_hdr_ebadmsg || eq_ℤ e io_bad_hdr) _ _
                        (λ h. look_at_vid_hdr-Round good (unreadable h) e (negsuc 0) true)
                        (λ _. Triple-fail vols _)))))
    where
      unread_ec :
          eq_ℤ (F.is_bad n) (pos 0) ≡ true → ec_read (F.read_ec_hdr n).0 ≡ false → used F n ≡ false
      unread_ec g h = rw (g, h) refl

      unreadable :
          (eq_ℤ (F.read_ec_hdr n).0 io_bad_hdr_ebadmsg || eq_ℤ (F.read_ec_hdr n).0 io_bad_hdr)
            ≡ true
          → ec_read (F.read_ec_hdr n).0 ≡ true
      unreadable h = ground (arith, h)

  -- One round of the scan.
  pub process_eb-Round : Round (process_eb B F n)
  unfolding process_eb
  process_eb-Round =
      let e = F.is_bad n in
      Triple-if vols (ltb_ℤ e (pos 0)) _ _ (λ h. Triple-fail vols _)
        (λ _.
          Triple-if vols (not (eq_ℤ e (pos 0))) _ _
            (λ h. passed_by _ count_bad-Keeps (bad_unused h))
            (λ h. process_good-Round (ground (arith, h))))
    where
      bad_unused : not (eq_ℤ (F.is_bad n) (pos 0)) ≡ true → used F n ≡ false
      bad_unused h = ground (arith, h)
