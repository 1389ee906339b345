-- ===== src/Uftl/PageLog.antt =====
-- The page log: what sync_one_buf of uftl_core.c stamps on a page, and scan_open_block reads there.
use mathlib.Core.Path.{subst, sym}
use android_infotm_confident.Prelude.{
  ℕ, zero, suc, ◌+◌, ◌*◌, ◌≤◌, ◌<◌, ◌^◌, ◌%◌, ◌/◌, ◌≡◌, refl, ap, ◌∙◌, length-overwrite, List, [],
  ◌∷◌, length, get_or, overwrite, load_int, load_short, signed32, unsigned32, ℤ, pos, negsuc, arith,
  ◌*ℤ◌, set, some, get_elem?,
}
use android_infotm_confident.Outcome.{ok, bind, check, ◌>>=◌, get_state, recover, pure}
use android_infotm_confident.Uftl.Types.{Ubi, Ftl, Act, PageBuf, magic_num, sector_size}
use android_infotm_confident.Uftl.Flash.{page_log_bytes, add_read_leb, ftl_read, read_tmp}
use android_infotm_confident.Uftl.Sync.{stamp_page, stamp_buf, modify_buf}
use android_infotm_confident.Uftl.Index.{take_log, scan_page, scan_open_block}

-- The numbers that an `int` holds.
abbrev pub IsInt : ℤ → Type 0
IsInt (pos n) = n < 2 ^ 31
IsInt (negsuc n) = n < 2 ^ 31

get_or-overwrite :
    (dst : List ℕ) (off : ℕ) (src : List ℕ) (i j : ℕ)
    → off + length src ≤ length dst
    → i < length src
    → j ≡ off + i
    → get_or (overwrite dst off src) j 0 ≡ get_or src i 0
unfolding overwrite
get_or-overwrite [] off src i j h l e = absurd (omega arith)
get_or-overwrite (x ∷ xs) (suc off) src i zero h l e = absurd (omega arith)
get_or-overwrite (x ∷ xs) (suc off) src i (suc j) h l e =
    get_or-overwrite xs off src i j (omega arith) l (omega arith)
get_or-overwrite (x ∷ xs) zero [] i j h l e = absurd (omega arith)
get_or-overwrite (x ∷ xs) zero (y ∷ ys) zero zero h l e = refl
get_or-overwrite (x ∷ xs) zero (y ∷ ys) zero (suc j) h l e = absurd (omega arith)
get_or-overwrite (x ∷ xs) zero (y ∷ ys) (suc i) zero h l e = absurd (omega arith)
get_or-overwrite (x ∷ xs) zero (y ∷ ys) (suc i) (suc j) h l e =
    get_or-overwrite xs zero ys i j (omega arith) (omega arith) (omega arith)

word_bytes :
    (z : ℤ)
    → IsInt z
    → let w = unsigned32 z in
      signed32 (
        w % 256
        + (w / 2 ^ 8) % 256 * 2 ^ 8
        + (w / 2 ^ 16) % 256 * 2 ^ 16
        + (w / 2 ^ 24) % 256 * 2 ^ 24)
      ≡ z
word_bytes (pos n) h = ground arith
word_bytes (negsuc n) h = ground arith

-- The `int` that was copied into a buffer is loaded from there.
load_int-overwrite :
    (dst src : List ℕ) (off i j : ℕ) (z : ℤ)
    → off + length src ≤ length dst
    → i + 4 ≤ length src
    → j ≡ off + i
    → load_int src i ≡ z
    → load_int (overwrite dst off src) j ≡ z
unfolding load_int
load_int-overwrite dst src off i j z h l e r =
    rw
      (
        get_or-overwrite dst off src i j h (omega arith) e,
        get_or-overwrite dst off src (i + 1) (j + 1) h (omega arith) (omega arith),
        get_or-overwrite dst off src (i + 2) (j + 2) h (omega arith) (omega arith),
        get_or-overwrite dst off src (i + 3) (j + 3) h (omega arith) (omega arith),
        load_int,
      )
      r

-- The two bytes of a `short`.
load_short-overwrite :
    (dst src : List ℕ) (off i j z : ℕ)
    → off + length src ≤ length dst
    → i + 2 ≤ length src
    → j ≡ off + i
    → load_short src i ≡ z
    → load_short (overwrite dst off src) j ≡ z
unfolding load_short
load_short-overwrite dst src off i j z h l e r =
    rw
      (
        get_or-overwrite dst off src i j h (omega arith) e,
        get_or-overwrite dst off src (i + 1) (j + 1) h (omega arith) (omega arith),
        load_short,
      )
      r

-- The buffer that stamp_page has stamped at an offset holds the magic number at the offset, the
-- sector 4 bytes further and the block id 8 bytes further.
stamp_page_lem :
    (U : Ubi) (off pad : ℕ) (id : ℤ) (b : PageBuf)
    → off + 12 ≤ length b.data_buf
    → IsInt b.sector
    → IsInt id
    → (load_short (stamp_page U off pad id b).data_buf off ≡ magic_num)
      × (load_int (stamp_page U off pad id b).data_buf (off + 4) ≡ b.sector)
      × (load_int (stamp_page U off pad id b).data_buf (off + 8) ≡ id)
unfolding stamp_page load_int load_short
stamp_page_lem U off pad id b fits s i =
    let log = page_log_bytes pad b.sector id in
    (
      rw
          (
            get_or-overwrite b.data_buf off log 0 off fits (omega arith) (omega arith),
            get_or-overwrite b.data_buf off log 1 (off + 1) fits (omega arith) (omega arith),
            load_short,
          )
          refl,
      load_int-overwrite b.data_buf log off 4 (off + 4) b.sector fits (omega arith) refl
          (word_bytes b.sector s),
      load_int-overwrite b.data_buf log off 8 (off + 8) id fits (omega arith) refl
          (word_bytes id i),
    )

module _ (U : Ubi) where
  -- The buffer after stamp_buf.
  abbrev pub stamped : Ftl U.Vol → PageBuf → PageBuf
  stamped s b = stamp_page U (s.fip.page_sector_num * sector_size) s.junk s.block_id b

  pub stamp_buf-stamped :
      (p : ℕ) (s : Ftl U.Vol) (b : PageBuf)
      → get_elem? s.page_buf_pool p ≡ some b
      → stamp_buf U p s ≡ ok tt (record s { page_buf_pool = set s.page_buf_pool p (stamped s b) })
  unfolding stamp_buf modify_buf get_state bind ◌>>=◌
  stamp_buf-stamped p s b h = rw (h, stamp_buf, modify_buf, ◌>>=◌, bind) refl

  -- The state after a page of the volume was read to tmp_page_buf.
  abbrev pub after_read : Ftl U.Vol → U.Vol → List ℕ → Ftl U.Vol
  after_read t v bytes = record (add_read_leb U (record t { vol = v })) {
    tmp_page_buf = overwrite t.tmp_page_buf 0 bytes;
  }

  read_tmp-after_read :
      (block page : ℕ) (t : Ftl U.Vol) (v : U.Vol) (bytes : List ℕ)
      → U.leb_read t.vol (pos block) (pos t.fip.leb_page_size *ℤ pos page) t.fip.leb_page_size
        ≡ (v, 0, bytes)
      → read_tmp U (pos block) (pos page) t ≡ ok tt (after_read t v bytes)
  unfolding read_tmp ftl_read add_read_leb bind check
  read_tmp-after_read block page t v bytes h = rw h refl

  log_read :
      (s : Ftl U.Vol) (b : PageBuf) (tmp : List ℕ) (off : ℕ)
      → off ≡ s.fip.page_sector_num * sector_size
      → off + 12 ≤ length b.data_buf
      → IsInt b.sector
      → IsInt s.block_id
      → length b.data_buf ≤ length tmp
      → let bytes = overwrite tmp 0 (stamped s b).data_buf in
        (load_short bytes off ≡ magic_num)
        × (load_int bytes (off + 4) ≡ b.sector)
        × (load_int bytes (off + 8) ≡ s.block_id)
  unfolding stamp_page
  log_read s b tmp off e fits si ii room =
      let log = page_log_bytes s.junk b.sector s.block_id in
      let at =
        stamp_page_lem U (s.fip.page_sector_num * sector_size) s.junk s.block_id b
          (omega (arith, fits, e)) si ii in
      let out = stamped s b in
      let size = length-overwrite b.data_buf (s.fip.page_sector_num * sector_size) log in
      (
        load_short-overwrite tmp out.data_buf 0 off off magic_num (omega (arith, size, room))
            (omega (arith, size, fits)) (omega arith)
            (subst (λ o. load_short out.data_buf o ≡ magic_num) (sym e) (at.0)),
        load_int-overwrite tmp out.data_buf 0 (off + 4) (off + 4) b.sector
            (omega (arith, size, room)) (omega (arith, size, fits)) (omega arith)
            (subst (λ o. load_int out.data_buf (o + 4) ≡ b.sector) (sym e) (at.1)),
        load_int-overwrite tmp out.data_buf 0 (off + 8) (off + 8) s.block_id
            (omega (arith, size, room)) (omega (arith, size, fits)) (omega arith)
            (subst (λ o. load_int out.data_buf (o + 8) ≡ s.block_id) (sym e) (at.2)),
      )

  scan_page-stamped :
      (block page : ℕ) (s t : Ftl U.Vol) (b : PageBuf) (v : U.Vol) (next : Act U ℕ)
      → s.fip.page_sector_num * sector_size + 12 ≤ length b.data_buf
      → IsInt b.sector
      → IsInt s.block_id
      → length b.data_buf ≤ length t.tmp_page_buf
      → t.fip.page_sector_num ≡ s.fip.page_sector_num
      → U.leb_read t.vol (pos block) (pos t.fip.leb_page_size *ℤ pos page) t.fip.leb_page_size
        ≡ (v, 0, (stamped s b).data_buf)
      → scan_page U block page next t
        ≡ take_log U block page b.sector s.block_id next (after_read t v (stamped s b).data_buf)
  unfolding scan_page take_log ◌>>=◌ bind get_state recover pure add_read_leb
  scan_page-stamped block page s t b v next fits si ii room same reads =
      let log = t.fip.page_sector_num * sector_size in
      let e : log ≡ s.fip.page_sector_num * sector_size = omega (arith, same) in
      let at = log_read s b t.tmp_page_buf log e (omega (arith, fits, e)) si ii room in
      let u = after_read t v (stamped s b).data_buf in
      rw
        (
          read_tmp-after_read block page t v (stamped s b).data_buf reads,
          scan_page,
          ◌>>=◌,
          bind,
          recover,
          at.0,
        )
        (ap (λ z. take_log U block page z (load_int u.tmp_page_buf (log + 8)) next u) (at.1)
          ∙ ap (λ z. take_log U block page b.sector z next u) (at.2))

  -- If a page buffer has room for a page log behind its sectors, and its sector and the block id fit
  -- an int, stamp_buf, the step of sync_one_buf before the write, changes just its bytes. A
  -- scan_open_block of create_index on a device with as many sectors to a page, for which the read of a
  -- page succeeds with these bytes, then claims the page for that sector and that block id, notes the
  -- sector if the claim is accepted, and goes on with the next page.
  pub scan_open_block-stamped :
      (p block left page : ℕ) (s t : Ftl U.Vol) (b : PageBuf) (v : U.Vol)
      → get_elem? s.page_buf_pool p ≡ some b
      → s.fip.page_sector_num * sector_size + 12 ≤ length b.data_buf
      → IsInt b.sector
      → IsInt s.block_id
      → length b.data_buf ≤ length t.tmp_page_buf
      → t.fip.page_sector_num ≡ s.fip.page_sector_num
      → U.leb_read t.vol (pos block) (pos t.fip.leb_page_size *ℤ pos page) t.fip.leb_page_size
        ≡ (v, 0, (stamped s b).data_buf)
      → (stamp_buf U p s ≡ ok tt (record s { page_buf_pool = set s.page_buf_pool p (stamped s b) }))
        × (scan_open_block U block (suc left) page t
            ≡ take_log U block page b.sector s.block_id
                (scan_open_block U block left (page + 1))
                (after_read t v (stamped s b).data_buf))
  unfolding scan_open_block
  scan_open_block-stamped p block left page s t b v h fits si ii room same reads = (
    stamp_buf-stamped p s b h,
    scan_page-stamped block page s t b v (scan_open_block U block left (page + 1)) fits si ii room
        same reads,
  )
