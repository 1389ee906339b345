-- ===== src/Ubi/Scan/Upto.antt =====
-- scan.c: the eraseblocks below a number that a scan uses.
use mathlib.Core.Path.{subst}
use android_infotm_confident.Prelude.{
  ℕ, ◌+◌, ◌≤◌, ◌<◌, ◌≡◌, refl, ap, sym, ◌∙◌, Bool, true, false, not, ◌&&◌, ◌||◌, ◌==◌, Option, none,
  some, arith, Bool-cases, inl, inr, ==_iff, ℤ, pos, eq_ℤ,
}
use android_infotm_confident.Ubi.Rb.{Tree}
use android_infotm_confident.Ubi.Scan.Types.{
  Flash, VidHdr, ScanLeb, ScanVolume, io_bad_hdr, io_bad_hdr_ebadmsg, io_bitflips, compat_delete,
  compat_preserve, compat_reject,
}
use android_infotm_confident.Ubi.Scan.Used.{Peb}
use android_infotm_confident.Ubi.Scan.Compare.{sound, Honest, ReadStatus}
use android_infotm_confident.Ubi.Scan.Chosen.{Kept, Scanned, With}
use android_infotm_confident.Ubi.Scan.View.{leb_at}
use android_infotm_confident.Ubi.Scan.Process.{foreign}

-- The headers of an eraseblock that carries a volume of this UBI.
abbrev pub ec_read : ℤ → Bool
ec_read e =
    (eq_ℤ e (pos 0) || eq_ℤ e io_bitflips) || (eq_ℤ e io_bad_hdr_ebadmsg || eq_ℤ e io_bad_hdr)

abbrev pub vid_read : ℤ → Bool
vid_read e = eq_ℤ e (pos 0) || eq_ℤ e io_bitflips

abbrev pub ours : VidHdr → Bool
ours vid =
    not (foreign vid)
    || not (
        vid.compat == compat_delete
        || (vid.compat == compat_preserve || vid.compat == compat_reject))

abbrev pub used : Flash → ℕ → Bool
used F n =
    eq_ℤ (F.is_bad n) (pos 0)
    && (ec_read (F.read_ec_hdr n).0 && (vid_read (F.read_vid_hdr n).0 && ours (F.read_vid_hdr n).1))

-- The used eraseblocks below a number, with their headers.
pub record Upto (F : Flash) (n : ℕ) (q : Peb) : Type 0 where
  pub below : q.pnum < n
  pub used_peb : used F q.pnum ≡ true
  pub header : q.vid ≡ (F.read_vid_hdr q.pnum).1

-- What io.c gives for every eraseblock.
pub record Tame (F : Flash) : Type 0 where
  pub flag : (n : ℕ) → (F.read_vid_hdr n).1.copy_flag < 2
  pub status : (n len : ℕ) → ReadStatus (F.read_data n len).0

module _ (F : Flash) (T : Tame F) where
  pub header-Honest : (q : Peb) → q.vid ≡ (F.read_vid_hdr q.pnum).1 → Honest F q
  header-Honest q e = record {
    flag = subst (λ v. v.copy_flag < 2) (sym e) (T.flag q.pnum);
    again = sym e;
    status = T.status q.pnum q.vid.data_size;
  }

  -- An eraseblock is judged by its number and its header.
  sound_same : (p q : Peb) → p.pnum ≡ q.pnum → p.vid ≡ q.vid → sound F p ≡ sound F q
  sound_same p q e h =
      ap
        (λ (v : VidHdr).
          v.copy_flag == 0 || F.crc32 (F.read_data p.pnum v.data_size).1 == v.data_crc)
        h
      ∙ ap
          (λ n. q.vid.copy_flag == 0 || F.crc32 (F.read_data n q.vid.data_size).1 == q.vid.data_crc)
          e

  -- The same eraseblocks, seen with other erase counters.
  pub regarded :
      (n : ℕ) (Seen : Peb → Type 0) (vs : Tree ScanVolume)
      → ((q : Peb) → Seen q → Upto F n q)
      → ((q : Peb) → Upto F n q → (r : Peb) × Seen r × (q.pnum ≡ r.pnum) × (q.vid ≡ r.vid))
      → Scanned F Seen vs
      → Scanned F (Upto F n) vs
  regarded n Seen vs up down S = record {
    neat = S.neat;
    honest = λ q u. header-Honest q u.header;
    kept = λ v l. keep v l (leb_at vs v l) (S.kept v l);
  }
    where
      keep : (v l : ℕ) (o : Option ScanLeb) → Kept F Seen v l o → Kept F (Upto F n) v l o
      keep v l none k = λ q u ev el.
          let (r, s, en, eh) = down q u in
          k r s (ap (λ (x : VidHdr). x.vol_id) (sym eh) ∙ ev)
            (ap (λ (x : VidHdr). x.lnum) (sym eh) ∙ el)
      keep v l (some seb) k = record {
        peb = k.peb;
        seen = up k.peb k.seen;
        vol_id = k.vol_id;
        lnum = k.lnum;
        pnum = k.pnum;
        sqnum = k.sqnum;
        copy_flag = k.copy_flag;
        best = λ q u ev el h.
            let (r, s, en, eh) = down q u in
            let (a, b) =
              k.best r s (ap (λ (x : VidHdr). x.vol_id) (sym eh) ∙ ev)
                (ap (λ (x : VidHdr). x.lnum) (sym eh) ∙ el) (sym (sound_same q r en eh) ∙ h) in
            (a, subst (λ (x : VidHdr). x.sqnum ≤ k.peb.vid.sqnum) (sym eh) b);
      }

  -- An eraseblock that is not used.
  pub Upto-skip :
      (n : ℕ) (vs : Tree ScanVolume)
      → used F n ≡ false
      → Scanned F (Upto F n) vs
      → Scanned F (Upto F (n + 1)) vs
  Upto-skip n vs e S =
      regarded (n + 1) (Upto F n) vs
        (λ q u. record { below = omega (arith, u.below); used_peb = u.used_peb; header = u.header })
        (λ q u.
          (q, record { below = lower q u; used_peb = u.used_peb; header = u.header }, refl, refl))
        S
    where
      lower : (q : Peb) → Upto F (n + 1) q → q.pnum < n
      lower q u = elim (Bool-cases (q.pnum == n)) [
        | inl g ↦ absurd (ground (arith, sym u.used_peb ∙ ap (used F) ((==_iff q.pnum n).0 g) ∙ e))
        | inr g ↦ ground (arith, g, u.below)
      ]

  pub Upto-add :
      (n : ℕ) (p : Peb) (vs : Tree ScanVolume)
      → used F n ≡ true
      → p.pnum ≡ n
      → p.vid ≡ (F.read_vid_hdr n).1
      → Scanned F (With (Upto F n) p) vs
      → Scanned F (Upto F (n + 1)) vs
  Upto-add n p vs e en eh S = regarded (n + 1) (With (Upto F n) p) vs up down S
    where
      header : p.vid ≡ (F.read_vid_hdr p.pnum).1
      header = eh ∙ ap (λ k. (F.read_vid_hdr k).1) (sym en)

      up : (q : Peb) → With (Upto F n) p q → Upto F (n + 1) q
      up q (inl u) = record {
        below = omega (arith, u.below);
        used_peb = u.used_peb;
        header = u.header;
      }
      up q (inr g) =
          subst (Upto F (n + 1)) (sym g)
            (record { below = omega (arith, en); used_peb = ap (used F) en ∙ e; header = header })

      down :
          (q : Peb)
          → Upto F (n + 1) q
          → (r : Peb) × With (Upto F n) p r × (q.pnum ≡ r.pnum) × (q.vid ≡ r.vid)
      down q u = elim (Bool-cases (q.pnum == n)) [
        | inl g ↦
            let same = (==_iff q.pnum n).0 g ∙ sym en in
            (p, inr refl, same, u.header ∙ ap (λ k. (F.read_vid_hdr k).1) same ∙ sym header)
        | inr g ↦ (
          q,
          inl (record {
            below = ground (arith, g, u.below);
            used_peb = u.used_peb;
            header = u.header;
          }),
          refl,
          refl,
        )
      ]
