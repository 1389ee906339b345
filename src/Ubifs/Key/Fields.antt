-- ===== src/Ubifs/Key/Fields.antt =====
-- The parts of a key are read back from it.
use Prim.Native.Nat.{bit_or}
use android_infotm_confident.Prelude.{ℕ, ◌*◌, ◌^◌, ◌≤◌, ◌<◌, ◌≡◌, true, false, List, arith}
use android_infotm_confident.Prelude.Bits.{bit_or-add, bit_and-mod}
use android_infotm_confident.Ubifs.Key.{
  key_mask_hash, key_r5_hash, r5_loop, dent_key_init, data_key_init, key_type, key_inum, key_hash,
  key_block, is_hash_key, dent_key, data_key,
}

-- A hash that is masked is at least 3 and below 2 ^ 29.
pub key_mask_hash_bounds : (val : ℕ) → (3 ≤ key_mask_hash val) × (key_mask_hash val < 2 ^ 29)
unfolding key_mask_hash
key_mask_hash_bounds val = ground (arith, bit_and-mod 29 val)

-- The key of a directory entry, under the r5 hash and for an inode number of 32 bits: its type
-- is that of entries, its inode number is the one given, its hash is that of the name and not
-- below 3, and it counts as a hashed key.
pub dent_key_fields :
    (inum : ℕ) (nm : List ℕ)
    → inum < 2 ^ 32
    → let key = dent_key_init key_r5_hash inum nm in
      (key_type key ≡ dent_key)
      × (key_inum key ≡ inum)
      × (key_hash key ≡ key_r5_hash nm)
      × (3 ≤ key_hash key)
      × (is_hash_key key ≡ true)
unfolding dent_key_init key_type key_inum key_hash is_hash_key key_r5_hash
dent_key_fields inum nm h = ground (
  arith,
  key_mask_hash_bounds (r5_loop 0 nm),
  bit_or-add 29 (key_mask_hash (r5_loop 0 nm)) dent_key,
  bit_and-mod 29 (bit_or (key_mask_hash (r5_loop 0 nm)) (dent_key * 2 ^ 29)),
)

-- The key of a data block, for an inode number of 32 bits and a block number of 29: its type is
-- that of data, its inode number and its block number are the ones given, and it does not count
-- as a hashed key.
pub data_key_fields :
    (inum block : ℕ)
    → inum < 2 ^ 32
    → block < 2 ^ 29
    → let key = data_key_init inum block in
      (key_type key ≡ data_key)
      × (key_inum key ≡ inum)
      × (key_block key ≡ block)
      × (is_hash_key key ≡ false)
unfolding data_key_init key_type key_inum key_block is_hash_key
data_key_fields inum block h l =
    ground
      (arith, bit_or-add 29 block data_key l, bit_and-mod 29 (bit_or block (data_key * 2 ^ 29)))
