-- ===== src/Ubifs/Lpt/Sample.antt =====
-- A volume that the runs use.
use android_infotm_confident.Prelude.{true, false, []}
use android_infotm_confident.Ubifs.Lpt.Types.{Info}

abbrev pub tree : Info
tree = record {
  leb_size = 126976;
  min_io_size = 2048;
  leb_cnt = 100;
  max_leb_cnt = 100;
  main_first = 12;
  main_lebs = 88;
  lpt_first = 7;
  lpt_last = 8;
  lpt_lebs = 2;
  lpt_hght = 3;
  pnode_cnt = 22;
  nnode_cnt = 9;
  space_bits = 14;
  lpt_lnum_bits = 2;
  lpt_offs_bits = 17;
  lpt_spc_bits = 17;
  pcnt_bits = 5;
  lnum_bits = 7;
  pnode_sz = 17;
  nnode_sz = 12;
  ltab_sz = 11;
  lsave_sz = 20;
  lpt_sz = 2048;
  big_lpt = true;
  check_lpt_free = true;
  lsave_cnt = 16;
  lpt_lnum = 7;
  ltab_lnum = 7;
  ltab_dirty = false;
  ltab = [];
  lsave = [];
  min_idx_node_sz = 192;
  dead_wm = 2048;
  dark_wm = 8192;
}
