-- ===== src/Ubi/Scan/Compare.antt =====
-- scan.c: what compare_lebs finds out.
use mathlib.Core.Path.{subst}
use android_infotm_confident.Prelude.{
  ℕ, ◌+◌, ◌%◌, ◌≤◌, ◌<◌, ◌≡◌, refl, ap, sym, ◌∙◌, Bool, true, false, not, ◌&&◌, ◌||◌, ◌==◌, ltb,
  if◌then◌else◌, [], ◌∷◌, ℤ, pos, negsuc, eq_ℤ, arith, Bool-cases, inl, inr, ◌⊎◌,
}
use android_infotm_confident.Outcome.{ok, err, pure, fail, ◌>>=◌}
use android_infotm_confident.Outcome.Keeps.{Ends, bind-Ends}
use android_infotm_confident.Ubi.Rb.{Tree}
use android_infotm_confident.Ubi.Scan.Types.{
  Flash, VidHdr, ScanLeb, ScanVolume, ScanInfo, io_bitflips, ebadmsg, eio,
}
use android_infotm_confident.Ubi.Scan.{ScanAct, alloc, pass_on, verdict, check_copy, compare_lebs}
use android_infotm_confident.Ubi.Scan.Used.{Peb}

-- The data has the checksum that the header gives.
abbrev pub crc_ok : Flash → Peb → Bool
crc_ok F q = F.crc32 (F.read_data q.pnum q.vid.data_size).1 == q.vid.data_crc

-- A copy is sound if its data is whole. All else is taken as it is.
abbrev pub sound : Flash → Peb → Bool
sound F q = q.vid.copy_flag == 0 || crc_ok F q

-- A read of data answers 0, UBI_IO_BITFLIPS or an error.
abbrev pub ReadStatus : ℤ → Type 0
ReadStatus (pos n) = (n ≡ 0) ⊎ (n ≡ 5)
ReadStatus (negsuc n) = Unit

-- What io.c gives: the flag is 0 or 1, the header reads the same again, and a read answers as it
-- should.
pub record Honest (F : Flash) (q : Peb) : Type 0 where
  pub flag : q.vid.copy_flag < 2
  pub again : (F.read_vid_hdr q.pnum).1 ≡ q.vid
  pub status : ReadStatus (F.read_data q.pnum q.vid.data_size).0

-- Of `p`, the one before, and `q`, the first is kept, or the second.
abbrev pub FirstStays : Flash → Peb → Peb → Type 0
FirstStays F p q = sound F q ≡ true → (sound F p ≡ true) × (q.vid.sqnum ≤ p.vid.sqnum)

abbrev pub SecondWins : Flash → Peb → Peb → Type 0
SecondWins F p q = ((sound F q ≡ true) × (p.vid.sqnum < q.vid.sqnum)) ⊎ (sound F p ≡ false)

abbrev pub Choice : Flash → Peb → Peb → Bool → Type 0
Choice F p q true = SecondWins F p q
Choice F p q false = FirstStays F p q

-- The bit of the code, and what else stays.
abbrev pub Says : Tree ScanVolume → (Bool → Type 0) → ℕ → ScanInfo → Type 0
Says vs C r t = (t.volumes ≡ vs) × C (r % 2 == 1)

abbrev pub Unchanged : Tree ScanVolume → Unit {0} → ScanInfo → Type 0
Unchanged vs a t = t.volumes ≡ vs

pub alloc-Ends : (s : ScanInfo) → Ends (Unchanged s.volumes) (alloc s)
unfolding alloc
alloc-Ends s =
    elim s.allocs
      as (λ xs. Ends (Unchanged s.volumes) (elim xs [
        | [] ↦ ok tt s
        | true ∷ rest ↦ ok tt (record s { allocs = rest })
        | false ∷ rest ↦ err 12 (record s { allocs = rest })
      ])) [ [] ↦ refl | true ∷ r ↦ refl | false ∷ r ↦ tt ]

module _ (vs : Tree ScanVolume) (C : Bool → Type 0) (t : ScanInfo) (same : t.volumes ≡ vs) where
  settled :
      (b newer flips : Bool)
      → C (if b then newer else not newer)
      → Ends (Says vs C) (
          (if b then pure (verdict newer flips false) else pure (verdict (not newer) false true)) t)
  unfolding pure
  settled true true true c = (same, c)
  settled true true false c = (same, c)
  settled true false true c = (same, c)
  settled true false false c = (same, c)
  settled false true f c = (same, c)
  settled false false f c = (same, c)

  judged :
      (e : ℤ) (b newer : Bool)
      → ReadStatus e
      → C (if b then newer else not newer)
      → Ends (Says vs C) (
          (if not (eq_ℤ e (pos 0)) && (not (eq_ℤ e io_bitflips) && not (eq_ℤ e ebadmsg))
              then pass_on e
              else if b
              then pure (verdict newer (not (eq_ℤ e (pos 0))) false)
              else pure (verdict (not newer) false true))
            t)
  unfolding pass_on fail
  judged (pos n) b newer (inl h) c = rw h (settled b newer false c)
  judged (pos n) b newer (inr h) c = rw h (settled b newer true c)
  judged (negsuc n) b newer h c = elim (Bool-cases (n == 73)) [
    | inl e ↦ rw e (settled b newer true c)
    | inr e ↦ rw e tt
  ]

check_copy-Says :
    (F : Flash) (vs : Tree ScanVolume) (C : Bool → Type 0) (q : Peb) (newer : Bool) (s : ScanInfo)
    → s.volumes ≡ vs
    → Honest F q
    → C (if crc_ok F q then newer else not newer)
    → Ends (Says vs C) (check_copy F q.pnum q.vid newer s)
unfolding check_copy ◌>>=◌
check_copy-Says F vs C q newer s same h c =
    bind-Ends (Unchanged s.volumes) (Says vs C) (alloc s) _ (alloc-Ends s) λ a t e.
      judged vs C t (e ∙ same) (F.read_data q.pnum q.vid.data_size).0 (crc_ok F q) newer h.status c

module _ (F : Flash) (p q : Peb) where
  second_copy :
      (b : Bool)
      → crc_ok F q ≡ b
      → (q.vid.copy_flag == 0) ≡ false
      → p.vid.sqnum < q.vid.sqnum
      → Choice F p q (if b then true else false)
  second_copy true e c l = inl (rw (c, e) refl, l)
  second_copy false e c l = λ h. ground (arith, h, c, e)

  first_copy :
      (b : Bool)
      → crc_ok F p ≡ b
      → (p.vid.copy_flag == 0) ≡ false
      → q.vid.sqnum ≤ p.vid.sqnum
      → Choice F p q (if b then false else true)
  first_copy true e c l = λ h. (rw (c, e) refl, l)
  first_copy false e c l = inr (rw (c, e) refl)

  -- The header of the first is read again.
  reread :
      (vs : Tree ScanVolume) (n : ℕ) (e : ℤ) (vh : VidHdr) (t : ScanInfo)
      → t.volumes ≡ vs
      → Honest F p
      → n ≡ p.pnum
      → vh ≡ p.vid
      → Choice F p q (if crc_ok F p then false else true)
      → Ends (Says vs (Choice F p q)) (
          (if eq_ℤ e (pos 0) || eq_ℤ e io_bitflips
              then check_copy F n vh false
              else elim e [ pos m ↦ fail eio | negsuc m ↦ fail (m + 1) ])
            t)
  unfolding fail
  reread vs n e vh t same h en ev c = elim (Bool-cases (eq_ℤ e (pos 0) || eq_ℤ e io_bitflips)) [
    | inl g ↦ rw g (
        subst (λ v. Ends (Says vs (Choice F p q)) (check_copy F n v false t)) (sym ev)
          (subst (λ m. Ends (Says vs (Choice F p q)) (check_copy F m p.vid false t)) (sym en)
            (check_copy-Says F vs (Choice F p q) p false t same h c)))
    | inr g ↦ rw g (failed e)
  ]
    where
      failed :
          (e : ℤ)
          → Ends
              (Says vs (Choice F p q))
              ((elim e as (λ _. ScanAct ℕ) [ pos m ↦ fail 5 | negsuc m ↦ fail (m + 1) ]) t)
      failed (pos m) = tt
      failed (negsuc m) = tt

pub compare_lebs-Choice :
    (F : Flash) (p q : Peb) (seb : ScanLeb) (s : ScanInfo)
    → Honest F p
    → Honest F q
    → seb.pnum ≡ p.pnum
    → seb.sqnum ≡ p.vid.sqnum
    → seb.copy_flag ≡ p.vid.copy_flag % 2
    → Ends (Says s.volumes (Choice F p q)) (compare_lebs F seb q.pnum q.vid s)
unfolding compare_lebs pure fail ◌>>=◌
compare_lebs-Choice F p q seb s hp hq ep es ec = elim (Bool-cases (q.vid.sqnum == seb.sqnum)) [
  | inl e ↦ rw e tt
  | inr e ↦ elim (Bool-cases (ltb seb.sqnum q.vid.sqnum)) [
    | inl l ↦
        let less : p.vid.sqnum < q.vid.sqnum = ground (arith, l, es) in
        elim (Bool-cases (q.vid.copy_flag == 0)) [
          | inl c ↦ rw (e, l, c) (refl, inl (rw c refl, less))
          | inr c ↦
              rw (e, l, c)
                (check_copy-Says F s.volumes (Choice F p q) q true s refl hq
                  (second_copy F p q _ refl c less))
        ]
    | inr l ↦
        let more : q.vid.sqnum ≤ p.vid.sqnum = ground (arith, l, es) in
        elim (Bool-cases (seb.copy_flag == 0)) [
          | inl c ↦
              let plain : (p.vid.copy_flag == 0) ≡ true = ground (arith, c, ec, hp.flag) in
              rw (e, l, c) (refl, λ h. (rw plain refl, more))
          | inr c ↦
              let copy : (p.vid.copy_flag == 0) ≡ false = ground (arith, c, ec, hp.flag) in
              rw (e, l, c)
                (bind-Ends (Unchanged s.volumes) (Says s.volumes (Choice F p q)) (alloc s) _
                  (alloc-Ends s)
                  λ a t u.
                    reread F p q s.volumes seb.pnum (F.read_vid_hdr seb.pnum).0
                      (F.read_vid_hdr seb.pnum).1 t u hp ep
                      (ap (λ n. (F.read_vid_hdr n).1) ep ∙ hp.again)
                      (first_copy F p q _ refl copy more))
        ]
  ]
]
