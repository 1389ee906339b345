-- ===== src/Ubi/Scan/Chosen.antt =====
-- scan.c: which of the copies of a logical eraseblock is kept.
use mathlib.Core.Path.{subst}
use android_infotm_confident.Prelude.{
  ℕ, ◌%◌, ◌≡◌, refl, ap, sym, ◌∙◌, Option, none, some, arith, inl, inr, ◌⊎◌,
}
use android_infotm_confident.Ubi.Rb.{Tree}
use android_infotm_confident.Ubi.Scan.Types.{Flash, ScanLeb, ScanVolume}
use android_infotm_confident.Ubi.Scan.Used.{Peb, seb_of}
use android_infotm_confident.Ubi.Scan.View.{leb_at, Neat}
use android_infotm_confident.Ubi.Scan.Compare.{Honest, FirstStays, SecondWins}

-- The eraseblock comes from one that was seen, and no sound one of the same LEB is newer; if that
-- one is not sound, none is.
pub record Chosen (F : Flash) (Seen : Peb → Type 0) (v l : ℕ) (seb : ScanLeb) : Type 0 where
  pub peb : Peb
  pub seen : Seen peb
  pub vol_id : peb.vid.vol_id ≡ v
  pub lnum : peb.vid.lnum ≡ l
  pub pnum : seb.pnum ≡ peb.pnum
  pub sqnum : seb.sqnum ≡ peb.vid.sqnum
  pub copy_flag : seb.copy_flag ≡ peb.vid.copy_flag % 2
  pub best : (q : Peb) → Seen q → q.vid.vol_id ≡ v → q.vid.lnum ≡ l → FirstStays F peb q

abbrev pub Kept : Flash → (Peb → Type 0) → ℕ → ℕ → Option ScanLeb → Type 0
Kept F Seen v l none = (q : Peb) → Seen q → q.vid.vol_id ≡ v → q.vid.lnum ≡ l → ⊥
Kept F Seen v l (some seb) = Chosen F Seen v l seb

-- What has been found after the eraseblocks `Seen`.
pub record Scanned (F : Flash) (Seen : Peb → Type 0) (vs : Tree ScanVolume) : Type 0 where
  pub neat : Neat vs
  pub honest : (q : Peb) → Seen q → Honest F q
  pub kept : (v l : ℕ) → Kept F Seen v l (leb_at vs v l)

abbrev pub With : (Peb → Type 0) → Peb → Peb → Type 0
With Seen p q = Seen q ⊎ (q ≡ p)

module _ (F : Flash) (Seen : Peb → Type 0) (p : Peb) where
  -- One of another LEB changes nothing.
  pub Chosen-other :
      (v l : ℕ) (o : Option ScanLeb)
      → (p.vid.vol_id ≡ v → p.vid.lnum ≡ l → ⊥)
      → Kept F Seen v l o
      → Kept F (With Seen p) v l o
  Chosen-other v l none n k = λ q w ev el. elim w [
    | inl s ↦ k q s ev el
    | inr e ↦
        n (ap (λ (x : Peb). x.vid.vol_id) (sym e) ∙ ev) (ap (λ (x : Peb). x.vid.lnum) (sym e) ∙ el)
  ]
  Chosen-other v l (some seb) n k = record {
    peb = k.peb;
    seen = inl k.seen;
    vol_id = k.vol_id;
    lnum = k.lnum;
    pnum = k.pnum;
    sqnum = k.sqnum;
    copy_flag = k.copy_flag;
    best = λ q w ev el. elim w [
      | inl s ↦ k.best q s ev el
      | inr e ↦ absurd (
          n (ap (λ (x : Peb). x.vid.vol_id) (sym e) ∙ ev)
            (ap (λ (x : Peb). x.vid.lnum) (sym e) ∙ el))
    ];
  }

  -- The first stays.
  pub Chosen-stays :
      (v l : ℕ) (seb : ScanLeb) (k : Chosen F Seen v l seb)
      → FirstStays F k.peb p
      → Chosen F (With Seen p) v l seb
  Chosen-stays v l seb k f = record {
    peb = k.peb;
    seen = inl k.seen;
    vol_id = k.vol_id;
    lnum = k.lnum;
    pnum = k.pnum;
    sqnum = k.sqnum;
    copy_flag = k.copy_flag;
    best = λ q w ev el. elim w [
      | inl s ↦ k.best q s ev el
      | inr e ↦ subst (FirstStays F k.peb) (sym e) f
    ];
  }

  -- Against those before, the one that wins is the best.
  beats : (r q : Peb) → SecondWins F r p → FirstStays F r q → FirstStays F p q
  beats r q (inl (a, b)) f h = (a, omega (arith, b, (f h).1))
  beats r q (inr a) f h = ground (arith, (f h).0, a)

  pub Chosen-wins :
      (v l : ℕ) (seb new : ScanLeb) (k : Chosen F Seen v l seb)
      → SecondWins F k.peb p
      → p.vid.vol_id ≡ v
      → p.vid.lnum ≡ l
      → new.pnum ≡ p.pnum
      → new.sqnum ≡ p.vid.sqnum
      → new.copy_flag ≡ p.vid.copy_flag % 2
      → Chosen F (With Seen p) v l new
  Chosen-wins v l seb new k w ev el ep es ec = record {
    peb = p;
    seen = inr refl;
    vol_id = ev;
    lnum = el;
    pnum = ep;
    sqnum = es;
    copy_flag = ec;
    best = λ q s fv fl. elim s [
      | inl a ↦ beats k.peb q w (k.best q a fv fl)
      | inr e ↦ subst (FirstStays F p) (sym e) (λ h. (h, omega arith))
    ];
  }

  pub Chosen-first :
      (v l : ℕ)
      → Kept F Seen v l none
      → p.vid.vol_id ≡ v
      → p.vid.lnum ≡ l
      → Chosen F (With Seen p) v l (seb_of p)
  Chosen-first v l k ev el = record {
    peb = p;
    seen = inr refl;
    vol_id = ev;
    lnum = el;
    pnum = refl;
    sqnum = refl;
    copy_flag = refl;
    best = λ q s fv fl. elim s [
      | inl a ↦ absurd (k q a fv fl)
      | inr e ↦ subst (FirstStays F p) (sym e) (λ h. (h, omega arith))
    ];
  }
