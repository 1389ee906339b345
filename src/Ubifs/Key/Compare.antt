-- ===== src/Ubifs/Key/Compare.antt =====
-- The order of keys.
use mathlib.Core.Logic.{◌↔◌}
use android_infotm_confident.Prelude.{
  ℕ, ◌+◌, ◌*◌, ◌^◌, ◌≤◌, ◌<◌, ◌≡◌, true, ltb, if◌then◌else◌, List, pos, negsuc, arith,
}
use android_infotm_confident.Prelude.Bits.{bit_or-add}
use android_infotm_confident.Ubifs.Key.{
  UbifsKey, keys_cmp, keys_eq, lowest_ino_key, highest_ino_key, data_key_init, highest_data_key,
  ino_key_init, dent_key_init, xent_key_init, lowest_dent_key, lowest_xent_key, data_key, dent_key,
  xent_key,
}

-- A key as one number of 64 bits.
abbrev pub number : UbifsKey → ℕ
number key = key.inum * 2 ^ 32 + key.block

-- Of two keys whose second words have 32 bits, keys_cmp gives -1, 1 or 0 as the first is less
-- than, greater than or the same as the second, the two words of a key taken as one number with
-- the inode above.
pub keys_cmp-number :
    (k l : UbifsKey)
    → k.block < 2 ^ 32
    → l.block < 2 ^ 32
    → keys_cmp k l ≡ (
        if ltb (number k) (number l)
        then negsuc 0
        else if ltb (number l) (number k)
        then pos 1
        else pos 0)
unfolding keys_cmp
keys_cmp-number k l h m = ground arith

-- keys_eq holds exactly of equal keys, and exactly of those that keys_cmp calls equal.
pub keys_eq-keys_cmp :
    (k l : UbifsKey)
    → ((keys_eq k l ≡ true) ↔ (k ≡ l)) × ((keys_eq k l ≡ true) ↔ (keys_cmp k l ≡ pos 0))
unfolding keys_cmp keys_eq
keys_eq-keys_cmp k l = ((ground arith, ground arith), (ground arith, ground arith))

-- For any hash function, an inode number, a block number below 2 ^ 29 and names whose hashes are
-- below 2 ^ 29, the keys of the inode, as numbers of two words, stand in this order: lowest key,
-- at most the inode key, less than the data key, at most the highest data key, less than the
-- lowest entry key, at most the entry key, less than the lowest attribute key, at most the
-- attribute key, at most the highest key.
pub inode_order :
    (hash : List ℕ → ℕ) (inum block : ℕ) (nm xnm : List ℕ)
    → block < 2 ^ 29
    → hash nm < 2 ^ 29
    → hash xnm < 2 ^ 29
    → (number (lowest_ino_key inum) ≤ number (ino_key_init inum))
      × (number (ino_key_init inum) < number (data_key_init inum block))
      × (number (data_key_init inum block) ≤ number (highest_data_key inum))
      × (number (highest_data_key inum) < number (lowest_dent_key inum))
      × (number (lowest_dent_key inum) ≤ number (dent_key_init hash inum nm))
      × (number (dent_key_init hash inum nm) < number (lowest_xent_key inum))
      × (number (lowest_xent_key inum) ≤ number (xent_key_init hash inum xnm))
      × (number (xent_key_init hash inum xnm) ≤ number (highest_ino_key inum))
unfolding lowest_ino_key ino_key_init data_key_init highest_data_key lowest_dent_key dent_key_init
    lowest_xent_key xent_key_init highest_ino_key
inode_order hash inum block nm xnm b h x = omega (
  arith,
  bit_or-add 29 block data_key b,
  bit_or-add 29 (hash nm) dent_key h,
  bit_or-add 29 (hash xnm) xent_key x,
)
