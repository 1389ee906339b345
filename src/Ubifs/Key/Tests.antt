-- ===== src/Ubifs/Key/Tests.antt =====
-- Runs of the functions of key.h on the keys of a few inodes.
use android_infotm_confident.Prelude.{
  ℕ, ◌≤◌, ◌<◌, ◌≡◌, ltb, if◌then◌else◌, List, [], ◌∷◌, length, pos, negsuc, arith,
}
use android_infotm_confident.Ubifs.Key.{
  UbifsKey, max_key_len, key_read, key_write, key_write_idx, key_type, key_type_flash, key_inum,
  key_inum_flash, key_hash, key_hash_flash, key_block, key_block_flash, keys_cmp, dent_key_init,
  xent_key_init, ino_key_init, data_key_init, highest_data_key, lowest_ino_key, highest_ino_key,
  lowest_dent_key, lowest_xent_key,
}
use android_infotm_confident.Ubifs.Key.Flash.{key_read-key_write, flash_fields}
use android_infotm_confident.Ubifs.Key.Compare.{number, keys_cmp-number, inode_order}

abbrev name : List ℕ
name = 98 ∷ 105 ∷ 110 ∷ []

abbrev key : UbifsKey
key = record { inum = 65; block = 536870999 }

abbrev later : UbifsKey
later = record { inum = 66; block = 4 }

abbrev sum_hash : List ℕ → ℕ
sum_hash nm = length nm

key_read-key_write_example :
    (key_read (key_write key) ≡ key)
    × (key_read (key_write_idx key) ≡ key)
    × (length (key_write key) ≡ max_key_len)
key_read-key_write_example = key_read-key_write key (omega arith) (omega arith)

flash_fields_example :
    (key_type_flash (key_write key) ≡ key_type key)
    × (key_inum_flash (key_write key) ≡ key_inum key)
    × (key_hash_flash (key_write key) ≡ key_hash key)
    × (key_block_flash (key_write key) ≡ key_block key)
flash_fields_example = flash_fields key (omega arith) (omega arith)

keys_cmp-number_example : keys_cmp key later ≡ (
    if ltb (number key) (number later)
    then negsuc 0
    else if ltb (number later) (number key)
    then pos 1
    else pos 0)
keys_cmp-number_example = keys_cmp-number key later (omega arith) (omega arith)

inode_order_example :
    (number (lowest_ino_key 65) ≤ number (ino_key_init 65))
    × (number (ino_key_init 65) < number (data_key_init 65 12))
    × (number (data_key_init 65 12) ≤ number (highest_data_key 65))
    × (number (highest_data_key 65) < number (lowest_dent_key 65))
    × (number (lowest_dent_key 65) ≤ number (dent_key_init sum_hash 65 name))
    × (number (dent_key_init sum_hash 65 name) < number (lowest_xent_key 65))
    × (number (lowest_xent_key 65) ≤ number (xent_key_init sum_hash 65 name))
    × (number (xent_key_init sum_hash 65 name) ≤ number (highest_ino_key 65))
inode_order_example = inode_order sum_hash 65 12 name name (omega arith) (omega arith) (omega arith)
