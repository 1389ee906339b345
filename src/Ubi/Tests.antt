-- ===== src/Ubi/Tests.antt =====
-- Witnesses of the theorems about UBI's updates: a device that logs what it is asked.
use android_infotm_confident.Prelude.{
  ℕ, ◌≡◌, refl, Bool, true, false, List, [], ◌∷◌, ◌++◌, arith, ◌⊎◌, overwrite,
}
use android_infotm_confident.Outcome.{ok, fault, ◌>>=◌}
use android_infotm_confident.Ubi.Misc.{ubi_calc_data_len}
use android_infotm_confident.Ubi.Misc.Scan.{verdict, ubi_check_volume-verdict}
use android_infotm_confident.Ubi.Misc.{ubi_check_volume}
use android_infotm_confident.Prelude.{ℤ, if◌then◌else◌, ◌==◌, not, pos, negsuc}
use android_infotm_confident.Ubi.Misc.Trim.{Trimmed, ubi_calc_data_len-Trimmed}
use android_infotm_confident.Ubi.Change.Overrun.{change_leb, change_leb-fault}
use android_infotm_confident.Ubi.Upd.{
  Eba, UpdVolume, ubi_start_update, ubi_more_update_data, take_piece,
}
use android_infotm_confident.Ubi.Upd.Feed.{settle}
use android_infotm_confident.Ubi.Upd.Chunks.{Open}
use android_infotm_confident.Ubi.Upd.Whole.{
  feed_call, upload, joined, ubi_more_update_data-feed, upload_at_once,
}
use android_infotm_confident.Ubi.Upd.Live.{Returns, Works, Updated, upload-Returns}
use android_infotm_confident.Ubi.Upd.Marker.{Always, MarkerTable, ubi_more_update_data-marked}
use android_infotm_confident.Ubi.Upd.Start.{ubi_start_update-marked}

-- The eraseblocks written, the last one first, and the marker.
abbrev logger : Eba
logger = record {
  Dev = List (ℕ × List ℕ) × Bool;
  unmap_leb = λ d i. (((i, []) ∷ d.0, d.1), 0);
  eba_write_leb = λ d i b. (((i, b) ∷ d.0, d.1), 0);
  eba_write_leb_st = λ d i b ebs. (((i, b) ∷ d.0, d.1), 0);
  atomic_leb_change = λ d i b. (((i, b) ∷ d.0, d.1), 0);
  wl_flush = λ d. (d, 0);
  set_vtbl_marker = λ d b. ((d.0, b), 0);
}

logger-Works : Works logger
logger-Works = record {
  writes = λ d i b. refl;
  writes_st = λ d i b ebs. refl;
  flushes = λ d. refl;
  marks = λ d b. refl;
}

abbrev Marked : logger.Dev → Type 0
Marked d = d.1 ≡ true

logger-MarkerTable : MarkerTable logger Marked
logger-MarkerTable = record {
  set = λ d e. refl;
  unmap = λ d i h. h;
  write = λ d i b h. h;
  write_st = λ d i b ebs h. h;
}

-- A dynamic volume of two eraseblocks of four bytes.
abbrev idle : UpdVolume logger.Dev
idle = record {
  is_static = false;
  usable_leb_size = 4;
  leb_size = 4;
  min_io_size = 2;
  reserved_pebs = 2;
  ro_mode = false;
  upd_marker = false;
  updating = false;
  changing_leb = false;
  corrupted = false;
  used_bytes = 8;
  used_ebs = 2;
  last_eb_bytes = 4;
  upd_ebs = 0;
  upd_bytes = 0;
  upd_received = 0;
  ch_lnum = 0;
  upd_buf = [];
  allocs = [];
  copies = [];
  page_size = 4;
  junk = 0;
  dev = ([], false);
}

-- The volume while it takes an update of seven bytes.
abbrev begun : UpdVolume logger.Dev
begun = record idle {
  upd_marker = true;
  updating = true;
  upd_ebs = 2;
  upd_bytes = 7;
  upd_buf = 0 ∷ 0 ∷ 0 ∷ 0 ∷ [];
  dev = ([], true);
}

begun-Open : Open logger begun
begun-Open = record { copied = refl; sized = omega arith; room = omega arith; writable = refl }

abbrev first_bytes : List ℕ
first_bytes = 1 ∷ 2 ∷ 3 ∷ 4 ∷ 5 ∷ []

abbrev last_bytes : List ℕ
last_bytes = 6 ∷ 255 ∷ []

ubi_more_update_data-feed_example :
    settle logger (ubi_more_update_data logger first_bytes begun)
    ≡ settle logger (feed_call logger first_bytes begun)
ubi_more_update_data-feed_example = ubi_more_update_data-feed logger first_bytes begun begun-Open

upload_at_once_example :
    settle logger (upload logger ((first_bytes ∷ []) ++ (last_bytes ∷ [])) begun)
    ≡ settle logger (upload logger ((joined (first_bytes ∷ []) ++ last_bytes) ∷ []) begun)
upload_at_once_example =
    upload_at_once logger (first_bytes ∷ []) last_bytes begun begun-Open (omega arith) (omega arith)

upload-Returns_example :
    Returns (Updated logger) (upload logger ((first_bytes ∷ []) ++ (last_bytes ∷ [])) begun)
upload-Returns_example =
    upload-Returns logger logger-Works (first_bytes ∷ []) last_bytes begun begun-Open (omega arith)
      (omega arith)

ubi_more_update_data-marked_example :
    Always
      (λ t. Marked t.dev ⊎ (t.upd_received ≡ t.upd_bytes))
      (ubi_more_update_data logger first_bytes begun)
ubi_more_update_data-marked_example =
    ubi_more_update_data-marked logger Marked logger-MarkerTable first_bytes begun refl

ubi_start_update-marked_example :
    Always
      (λ t. Marked t.dev ⊎ (t.dev ≡ (logger.set_vtbl_marker idle.dev true).0))
      (ubi_start_update logger 7 idle)
ubi_start_update-marked_example =
    ubi_start_update-marked logger Marked logger-MarkerTable 7 idle (omega arith) (λ e. e)

ubi_calc_data_len-Trimmed_example :
    Trimmed 2
      (1 ∷ 255 ∷ 7 ∷ 255 ∷ 255 ∷ 255 ∷ [])
      6
      (ubi_calc_data_len 2 (1 ∷ 255 ∷ 7 ∷ 255 ∷ 255 ∷ 255 ∷ []) 6)
ubi_calc_data_len-Trimmed_example =
    ubi_calc_data_len-Trimmed 2 (1 ∷ 255 ∷ 7 ∷ 255 ∷ 255 ∷ 255 ∷ []) 6 (omega arith) (omega arith)

change_leb-fault_example :
    change_leb logger 1 (1 ∷ 2 ∷ 3 ∷ []) (record idle { min_io_size = 8 }) ≡ fault
change_leb-fault_example =
    change_leb-fault logger 1 (1 ∷ 2 ∷ 3 ∷ []) (record idle { min_io_size = 8 }) (omega arith) refl
      refl refl (omega arith)

-- A volume of three eraseblocks, the second of them damaged.
abbrev damaged : ℕ → ℕ → ℤ
damaged i size = if i == 1 then negsuc 73 else pos 0

ubi_check_volume-verdict_example :
    ubi_check_volume true true damaged 100 40 3
    ≡ (if not true then pos 0 else if not true then negsuc 11 else verdict damaged 100 40 3 1)
ubi_check_volume-verdict_example =
    ubi_check_volume-verdict damaged 100 40 3 1 true true (omega arith) (λ j b. ground (arith, b))
      (λ b e. ground (arith, e))

-- Seven bytes in two calls, a 0xFF at their end.
update_test :
    upload logger (first_bytes ∷ last_bytes ∷ []) begun
    ≡ ok tt (record begun {
      upd_marker = false;
      updating = false;
      upd_received = 7;
      upd_buf = [];
      dev = ((1, 5 ∷ 6 ∷ []) ∷ (0, 1 ∷ 2 ∷ 3 ∷ 4 ∷ []) ∷ [], false);
    })
unfolding upload ubi_more_update_data ◌>>=◌ take_piece ubi_calc_data_len overwrite
update_test = refl
