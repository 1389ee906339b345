-- ===== src/Lib.antt =====
-- The flash storage modules of an Android tablet kernel: UBI (modules/ubi), which manages the
-- eraseblocks of a raw flash as volumes; UBIFS (modules/ubifs), a file system on a volume; and UFTL
-- (modules/uftl), a translation layer that gives a volume to the block layer as a device of
-- 512-byte sectors. UFTL calls the kernel interface of UBI, and so does UBIFS through modules/ubifs/io.c.
-- Modelled are UFTL but for its registration as a block device, the keys of UBIFS, the on-flash
-- form of UBIFS's tree of LEB properties, their heaps, categories and statistics in memory, and in UBI the
-- scan that attaches a device, the tables of eraseblocks that are set up from it, and the update of a volume.
--
-- UFTL, in Uftl.antt and the files under Uftl:
--   Types, Arrays: uftl.h, and the static variables of uftl_core.c and uftl_cache_stat.c as one
--     record `Ftl`, with the memory that the functions allocate. The interface of UBI is the record
--     `Ubi`, a parameter of all that follows; the clock, the outcomes of kmalloc and the byte in fresh
--     memory are fields of the state.
--   Flash: uftl_io.c, the counters, and the two forms of log as bytes.
--   Pages, Gc: get_new_page, the fifo of empty blocks, the counts of pages in use, scrub_block,
--     garbage_checking.
--   Sync, Io: the page buffers, sync_one_buf, flush_one_buf, ftl_core_io_read, ftl_core_io_write,
--     ftl_core_io_queue_flush and ftl_core_io_all_flush.
--   Index, Init: create_index, init_status, ftl_core_io_init.
--   Frame, Buffers, FindBuf, Claim, WriteRead, PageLog, IntArray, Faults: proofs. Tests: runs.
-- A function that can fail is an action of Outcome.antt: it succeeds, or returns the error number with
-- the state reached, or is a fault, which stands for undefined behaviour, BUG() and a loop that
-- outlives its fuel. The `while` of garbage_checking runs on one more than the number of pages as its fuel, and
-- no theorem says that this is enough; all other loops go over a range. The C `int` is an integer that is
-- not wrapped where the code only counts, and its 32 bits are written out where it is stored as bytes.
--
-- UBIFS keys, in Ubifs/Key.antt: every function of modules/ubifs/key.h under its own name but
-- key_copy, for the simple key format; the hash function of the mount is a parameter. Words keep
-- their 32 bits. Key/Fields, Key/Flash and Key/Compare hold the proofs, Key/Tests the runs.
--
-- The tree of LEB properties, in Ubifs/Lpt.antt and the files under Ubifs/Lpt:
--   BitFields: pack_bits and ubifs_unpack_bits of modules/ubifs/lpt.c. The variable that the code leaves
--     uninitialised in one case is the parameter `junk`. A buffer is a list of bytes; a write past its
--     end changes nothing in the model and is undefined in C, so the theorems ask for room.
--   Types, Geometry: the sizes of the tree, do_calc_lpt_geom, ubifs_calc_lpt_geom, calc_dflt_lpt_geom. The
--     kernel's fls is a parameter. Two loops run on fuel, one round more than the size they close in on.
--   Pack, Unpack: the four kinds of node to bytes and back; the kernel's crc16 is a parameter.
--   Dirt: the table of the tree's own LEBs, and the numbers of nodes.
--   Check: validate_nnode, validate_pnode, and ubifs_categorize_lprops of modules/ubifs/lprops.c.
--   Shifts, Layers, RoundTrip, Sound, Numbers, Tables, Fit: proofs. Sample, Tests: runs.
--
-- LEB properties in memory, in Ubifs/Lprops.antt and the files under Ubifs/Lprops, from
-- modules/ubifs/lprops.c. An `ubifs_lprops` is known by its address.
--   Lprops: the heaps: move_up_lpt_heap, adjust_lpt_heap, add_to_lpt_heap, remove_from_lpt_heap. What an LEB
--     is worth is a parameter. Each loop runs on fuel, at most one more than the entries of the heap; the
--     theorems on the heaps show that it is enough.
--   Category: the heaps and lists of all categories, ubifs_add_to_cat, ubifs_remove_from_cat,
--     ubifs_replace_cat, ubifs_ensure_cat, change_category. A heap has room for LPT_HEAP_SZ entries.
--   Find: ubifs_fast_find_free, ubifs_fast_find_empty, ubifs_fast_find_freeable, ubifs_fast_find_frdi_idx.
--   Stats: ubifs_calc_dark and the part of ubifs_change_lp under the space lock, before change_category; the
--     totals are integers. The search of the LEB's node before it is not modelled.
--   Frame, Sift, Rise, Sink, Members, Heaps, Remove, Change, Filed, Shelve, Arrive, Lists, Stay, Others,
--     Recategorize, Stats/Sums, Stats/Step: proofs. Tests: runs.
--
-- UBI, in Ubi.antt and the files under Ubi:
--   Misc: modules/ubi/misc.c.
--   Upd: the update of a volume in modules/ubi/upd.c, over the record `Eba` of what it calls in eba.c, wl.c
--     and vtbl.c. The state of the device is a parameter, and so is the number each call returns; the
--     outcomes of vmalloc and of copies from the user are fields of the state. The loop over the
--     eraseblocks of a call runs on the count of its bytes, which is enough since each round takes one
--     byte or more. Mutexes and the hint on the data's type are left out.
--   Change: the atomic change of an eraseblock in the same file.
--   Rb: the search trees, with the walks of modules/ubi/scan.c written out. Balancing (lib/rbtree.c) is
--     the parameter `Balance`: it keeps the order of the entries from left to right.
--   Scan, Scan/Types, Scan/Used, Scan/Process: modules/ubi/scan.c: process_eb with what it calls,
--     compare_lebs, ubi_scan_add_used, ubi_scan. What modules/ubi/io.c answers is the record `Flash`, the
--     same answer each time while a device is scanned; the int codes of io.c are integers, -e for an error.
--     The flash holds big-endian words, which are numbers here. The counts of eraseblocks do not wrap.
--   Eba: ubi_eba_init_scan of modules/ubi/eba.c. A write outside a table is a fault. The volumes are the
--     entries of `volumes` up to the number of slots and internal volumes.
--   Eba/Write, Eba/Write/Change, Eba/Read: modules/ubi/eba.c: ubi_eba_unmap_leb, ubi_eba_write_leb with
--     recover_peb, ubi_eba_write_leb_st, ubi_eba_atomic_leb_change, ubi_eba_read_leb. `gets`, `answers`, `vids` and `reads` are the coming answers of wl.c and io.c, any list of them, and
--     `trace` is what has been done. The locks stand as allocations that may fail, and the data as a list
--     of bytes. A retry has the number of tries that are left, UBI_IO_RETRIES at first, as in the source.
--     crc32 is a parameter. The hint on the data's type is left out.
--   Rb/Walk, Rb/Insert, Scan/View, Scan/Compare, Scan/Chosen, Scan/Newest, Scan/Add, Scan/Frame, Scan/Upto,
--     Scan/Whole, Scan/Found, Scan/Faults, Eba/Table, Eba/Attach, Eba/Placed, Eba/Beyond, Eba/Write/Guard,
--     Eba/Read/Checked, Eba/Write/Atomic, Eba/Write/Silent: proofs. Eba/Tests, Eba/Write/Tests: runs.
--   Upd/Feed, Upd/Received, Upd/Chunks, Upd/Whole, Upd/Live, Upd/Marker, Upd/Start, Change/Overrun, Misc/Trim,
--     Misc/Scan: proofs. Tests: runs.
--
-- Prelude.antt and the files under Prelude hold what these share: tests, lists, integers, words in
-- buffers, bitwise operations.
--
-- Not modelled: the rest of UBI (volume table, copying of eraseblocks, wear leveling, input
-- and output); the rest of UBIFS (node cache, journal, recovery, budget, commit, the tree in memory but
-- for the properties of its LEBs); the VFS and block layer glue, sysfs and debugging output.
pub mod Outcome
pub mod Prelude
pub mod Ubi
pub mod Ubifs
pub mod Uftl
